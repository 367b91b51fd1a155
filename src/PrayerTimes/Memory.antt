-- ===== src/PrayerTimes/Memory.antt =====
-- getPrayerTimes of services/core/prayerTimeService.js: `inMemoryCache` against the cache file.
use azan_dashboard.Prelude.{String, ◌≡◌, refl, none, some, arith, ◌⊎◌}
use azan_dashboard.Dict.{Dict}
use azan_dashboard.Clock.{Luxon}
use azan_dashboard.Prayer.{Day, PrayerConfig}
use azan_dashboard.PrayerTimes.{
  Cache, Store, Env, read_cache, store_fetched, from_disk, get_prayer_times, disk_cache,
  write_cache,
}

module _ (l : Luxon) where
  open l use {Iso, DateTime, iso_date}

  -- Nothing is in memory, or what the file holds.
  abbrev pub IsCoherent : Store Iso → Type 0
  IsCoherent s = (s.memory ≡ none) ⊎ (s.memory ≡ some (disk_cache l s.disk))

  -- The store of a process that has just started.
  abbrev pub forget : Store Iso → Store Iso
  forget s = record s { memory = none }

  module _ (cfg : PrayerConfig) (env : Env l) where
    store_fetched-IsCoherent :
        (key : String) (c : Cache Iso) (got : Dict (Day Iso) × String) (s : Store Iso)
        → IsCoherent s
        → IsCoherent (store_fetched l cfg env key c got s).1
    unfolding store_fetched write_cache
    store_fetched-IsCoherent key c (m, source) s h = ground arith

    from_disk-IsCoherent :
        (date : DateTime) (s : Store Iso) → IsCoherent (from_disk l cfg env date s).1
    unfolding from_disk read_cache
    from_disk-IsCoherent date s =
        let s' = record s { memory = some (disk_cache l s.disk) } in
        grind (arith, store_fetched-IsCoherent)

    -- Every call leaves memory empty or equal to the file.
    pub get_prayer_times-IsCoherent :
        (date : DateTime) (s : Store Iso)
        → IsCoherent s
        → IsCoherent (get_prayer_times l cfg env date s).1
    unfolding get_prayer_times
    get_prayer_times-IsCoherent date s h = ground (arith, from_disk-IsCoherent date s)

    get-forget :
        (date : DateTime) (s : Store Iso)
        → get_prayer_times l cfg env date (forget s) ≡ from_disk l cfg env date s
    unfolding get_prayer_times from_disk read_cache
    get-forget date s = refl

    -- With memory and file in agreement, a call returns what it returns in a process that has just
    -- started, be it a reply or an error, and leaves the same file.
    pub get_prayer_times-forget :
        (date : DateTime) (s : Store Iso)
        → IsCoherent s
        → ((get_prayer_times l cfg env date s).0 ≡ (get_prayer_times l cfg env date (forget s)).0)
          × ((get_prayer_times l cfg env date s).1.disk
              ≡ (get_prayer_times l cfg env date (forget s)).1.disk)
    unfolding get_prayer_times from_disk read_cache
    get_prayer_times-forget date s h = ground arith
