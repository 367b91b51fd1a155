-- ===== src/Maintenance/Unawaited.antt =====
-- staleAction and boundaryAction of services/core/schedulerService.js: what they ask for.
use azan_dashboard.Prelude.{ℕ, ◌≡◌, true, Option, some, arith}
use azan_dashboard.Clock.{Luxon}
use azan_dashboard.PrayerTimes.{Meta, Store, disk_cache, find_day}
use azan_dashboard.Prayer.{Day}
use azan_dashboard.Maintenance.{
  refresh, fetch, rest, awaited, is_stale, is_close, stale_request, stale_action, boundary_request,
  boundary_action,
}

module _ (l : Luxon) where
  open l use {Iso, DateTime, iso_date}

  -- Stale data is never refreshed: for a cache file whose data is older than the limit the check asks
  -- for the day's times, which that cache may answer, where it would ask for a refresh if it awaited
  -- the cache. Near the end of the year the next year is fetched although the cache has it.
  pub stale_action-boundary_action :
      (now end_of_year next_jan1 : DateTime) (days : Option ℕ) (s : Store Iso) (m : Meta Iso)
      (d : Day Iso)
      → (disk_cache l s.disk).meta ≡ some m
      → is_stale l now days m ≡ true
      → find_day (iso_date next_jan1) (disk_cache l s.disk) ≡ some d
      → is_close l now end_of_year ≡ true
      → ((stale_action l now days s ≡ fetch now)
          × (stale_request l now days (awaited (disk_cache l s.disk)) ≡ refresh))
        × ((boundary_action l now end_of_year next_jan1 s ≡ fetch next_jan1)
            × (boundary_request l now end_of_year next_jan1 (awaited (disk_cache l s.disk)) ≡ rest))
  unfolding stale_action boundary_action
  stale_action-boundary_action now end_of_year next_jan1 days s m d known stale found close =
      ground arith
