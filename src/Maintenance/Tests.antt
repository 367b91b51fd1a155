-- ===== src/Maintenance/Tests.antt =====
-- A cache file of 1970 that has the next year, looked at near the end of the year.
use azan_dashboard.Prelude.{ℕ, ◌*◌, ◌≡◌, refl, none, some, [], ◌∷◌, ℤ, pos, ◌-ℤ◌}
use azan_dashboard.Dict.{lookup}
use azan_dashboard.Clock.Utc.{utc}
use azan_dashboard.PrayerTimes.{Cache, Store, stored}
use azan_dashboard.Maintenance.{
  refresh, fetch, rest, awaited, stale_request, stale_action, boundary_request, boundary_action,
}
use azan_dashboard.Maintenance.Unawaited.{stale_action-boundary_action}
use azan_dashboard.Samples.{day}

abbrev cache : Cache ℤ
cache = record {
  meta = some (record { source = "aladhan"; last_fetched = pos 0 });
  entries = some (("later", day) ∷ []);
}

abbrev store : Store ℤ
store = record { memory = none; disk = stored cache }

abbrev day_number : ℕ → ℤ
day_number n = pos (n * 86400000)

stale_action-boundary_action_sample :
    ((stale_action utc (day_number 360) none store ≡ fetch (day_number 360))
      × (stale_request utc (day_number 360) none (awaited cache) ≡ refresh))
    × ((boundary_action utc (day_number 360) (day_number 364) (day_number 365) store
          ≡ fetch (day_number 365))
        × (boundary_request utc (day_number 360) (day_number 364) (day_number 365) (awaited cache)
            ≡ rest))
unfolding lookup ◌-ℤ◌
stale_action-boundary_action_sample =
    stale_action-boundary_action utc (day_number 360) (day_number 364) (day_number 365) none store
      (record { source = "aladhan"; last_fetched = pos 0 }) day refl refl refl refl
