-- ===== src/Maintenance.antt =====
-- services/core/schedulerService.js, the maintenance actions on the prayer times: staleAction and
-- boundaryAction, as the request that each comes to. Both read the cache with an asynchronous
-- function that they do not await. The days between two dates are counted as 24 hours.
pub mod Unawaited
mod Tests
use azan_dashboard.Prelude.{
  ℕ, ◌*◌, ◌==◌, Bool, true, false, ◌&&◌, Option, none, some, if◌then◌else◌, ℤ, pos, ◌-ℤ◌, ltb_ℤ,
  leb_ℤ, String,
}
use azan_dashboard.Clock.{Luxon}
use azan_dashboard.PrayerTimes.{Meta, Cache, Store, find_day, disk_cache}

-- forceRefresh(config), getPrayerTimes(config, date), or nothing
pub data Request (l : Luxon) : Type 0 where
  refresh : Request l
  fetch : l.DateTime → Request l
  rest : Request l

-- What a call of readCache gives to code that goes on at once: a promise, or, with `await`, the cache.
pub data Read (Iso : Type 0) : Type 0 where
  promise : Read Iso
  awaited : Cache Iso → Read Iso

-- `cache.meta` and `cache.data[key]`; a promise has neither.
abbrev pub meta_of : {Iso : Type 0} → Read Iso → Option (Meta Iso)
meta_of promise = none
meta_of (awaited c) = c.meta

abbrev pub has_day : {Iso : Type 0} → String → Read Iso → Bool
has_day key promise = false
has_day key (awaited c) = elim (find_day key c) [ none ↦ false | some d ↦ true ]

-- `config.data.staleCheckDays || 7`, in milliseconds
abbrev pub stale_millis : Option ℕ → ℕ
stale_millis none = 7 * 86400000
stale_millis (some d) = (if d == 0 then 7 else d) * 86400000

module _ (l : Luxon) where
  open l use {Iso, DateTime, from_iso, millis, iso_date}

  abbrev pub is_stale : DateTime → Option ℕ → Meta Iso → Bool
  is_stale now days m =
      ltb_ℤ (pos (stale_millis days)) (millis now -ℤ millis (from_iso m.last_fetched))

  -- The body of staleAction for what the read of the cache gave
  unfoldable pub stale_request : DateTime → Option ℕ → Read Iso → Request l
  stale_request now days cache = elim (meta_of cache) [
    | none ↦ fetch now
    | some m ↦ if is_stale now days m then refresh else rest
  ]

  unfoldable pub stale_action : DateTime → Option ℕ → Store Iso → Request l
  unfolding stale_request
  stale_action now days s = stale_request now days promise

  -- `diff >= 0 && diff <= 7` in days
  abbrev pub is_close : DateTime → DateTime → Bool
  is_close now end_of_year =
      leb_ℤ (pos 0) (millis end_of_year -ℤ millis now)
      && leb_ℤ (millis end_of_year -ℤ millis now) (pos (7 * 86400000))

  -- The body of boundaryAction, given the last day of the year and the first of the next
  unfoldable pub boundary_request : (now end_of_year next_jan1 : DateTime) → Read Iso → Request l
  boundary_request now end_of_year next_jan1 cache =
      if is_close now end_of_year
      then (if has_day (iso_date next_jan1) cache then rest else fetch next_jan1)
      else rest

  unfoldable pub boundary_action : (now end_of_year next_jan1 : DateTime) → Store Iso → Request l
  unfolding boundary_request
  boundary_action now end_of_year next_jan1 s = boundary_request now end_of_year next_jan1 promise
