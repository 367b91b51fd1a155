-- ===== src/PrayerTimes.antt =====
-- services/core/prayerTimeService.js, getPrayerTimes with its caches and forceRefresh. The provider
-- classes, the disk and the clock answer through `Env`; the file on disk, where it is there and
-- readable, holds an object. A write that fails changes nothing.
pub mod Hits
pub mod Memory
pub mod Failover
mod Tests
use azan_dashboard.Prelude.{
  ℕ, String, Bool, true, false, Option, none, some, List, [], ◌∷◌, str_eq, if◌then◌else◌,
}
use Prim.Native.String.{◌++◌ as append}
use azan_dashboard.Dict.{Dict, lookup, spread}
use azan_dashboard.Result.{
  Result, ok, err, Error, provider_validation, empty_primary, missing_date, type_error,
}
use azan_dashboard.Clock.{Luxon}
use azan_dashboard.Prayer.{Day, Source, PrayerConfig}
use azan_dashboard.DayRows.{apply_overrides}

-- What `provider.getAnnualTimes(year)` does: it returns a map or null, or it throws.
pub data Fetched (Iso : Type 0) : Type 0 where
  returned : Option (Dict (Day Iso)) → Fetched Iso
  rejected : Error → Fetched Iso

pub record Meta (Iso : Type 0) : Type 0 where
  pub source : String
  pub last_fetched : Iso

pub record Cache (Iso : Type 0) : Type 0 where
  pub meta : Option (Meta Iso)
  pub entries : Option (Dict (Day Iso))

-- CACHE_FILE: not there or not readable, not JSON, or a cache.
pub data Disk (Iso : Type 0) : Type 0 where
  absent corrupt : Disk Iso
  stored : Cache Iso → Disk Iso

-- `inMemoryCache` and the file
pub record Store (Iso : Type 0) : Type 0 where
  pub memory : Option (Cache Iso)
  pub disk : Disk Iso

-- The reply `{ meta: { date, source, lastFetched, cached }, prayers }`
pub record Times (Iso : Type 0) : Type 0 where
  pub date : String
  pub source : String
  pub last_fetched : Iso
  pub cached : Bool
  pub prayers : Day Iso

abbrev pub empty_cache : {Iso : Type 0} → Cache Iso
empty_cache = record { meta = none; entries = none }

abbrev pub is_empty {ℓ} : {A : Type ℓ} → List A → Bool
is_empty [] = true
is_empty (x ∷ xs) = false

abbrev pub is_validation : Error → Bool
is_validation (provider_validation m) = true
is_validation _ = false

-- `cache.data && cache.data[key]`
abbrev pub find_day : {Iso : Type 0} → String → Cache Iso → Option (Day Iso)
find_day key c = elim c.entries [ none ↦ none | some m ↦ lookup key m ]

-- What the outside does during one call.
pub record Env (l : Luxon) : Type 0 where
  pub now : l.DateTime
  pub fetch : Source → ℕ → Fetched l.Iso
  pub write_ok : Bool
  pub unlink_ok : Bool

module _ (l : Luxon) where
  open l use {Iso, DateTime, to_iso, year, iso_date}

  -- readCache: the cache that is returned is also the one kept in memory
  abbrev pub disk_cache : Disk Iso → Cache Iso
  disk_cache absent = empty_cache
  disk_cache corrupt = empty_cache
  disk_cache (stored c) = c

  unfoldable pub read_cache : Store Iso → Cache Iso × Store Iso
  read_cache s = (disk_cache s.disk, record s { memory = some (disk_cache s.disk) })

  -- writeCache
  unfoldable pub write_cache : Bool → Cache Iso → Store Iso → Store Iso
  write_cache done c s = if done then record s { memory = some c; disk = stored c } else s

  -- tryFetch
  abbrev pub try_fetch : Env l → Source → ℕ → Fetched Iso
  try_fetch env source y = if str_eq source.type "" then returned none else env.fetch source y

  -- A map is used only if it has an entry.
  abbrev pub usable : Fetched Iso → Option (Dict (Day Iso))
  usable (returned (some m)) = if is_empty m then none else some m
  usable (returned none) = none
  usable (rejected e) = none

  -- What the primary source's failure throws.
  abbrev pub primary_error : Source → Fetched Iso → Error
  primary_error source (returned m) = empty_primary source.type
  primary_error source (rejected e) = e

  -- `config.sources.backup` where it may be tried
  abbrev pub allowed_backup : Option Source → Option Source
  allowed_backup none = none
  allowed_backup (some b) = elim b.enabled [ none ↦ some b | some on ↦ if on then some b else none ]

  abbrev pub backup_data : Env l → Option Source → ℕ → Option (Dict (Day Iso) × String)
  backup_data env none y = none
  backup_data env (some b) y = elim (usable (try_fetch env b y)) [
    | none ↦ none
    | some m ↦ some (m, b.type)
  ]

  -- The failover: a map with the type of its source, or the primary's error.
  unfoldable pub fetch_remote : PrayerConfig → Env l → ℕ → Result (Dict (Day Iso) × String)
  fetch_remote cfg env y =
      let first = try_fetch env cfg.primary y in
      elim (usable first) [
        | some m ↦ ok (m, cfg.primary.type)
        | none ↦
            let e = primary_error cfg.primary first in
            if is_validation e
            then err e
            else elim (backup_data env (allowed_backup cfg.backup) y) [
              | none ↦ err e
              | some b ↦ ok b
            ]
      ]

  -- A hit: the reply from a cache, whose `meta` must be there.
  abbrev pub cached_reply : PrayerConfig → String → Cache Iso → Day Iso → Result (Times Iso)
  cached_reply cfg key c d = elim c.meta [
    | none ↦ err type_error
    | some m ↦ ok (record {
      date = key;
      source = m.source;
      last_fetched = m.last_fetched;
      cached = true;
      prayers = apply_overrides l d cfg;
    })
  ]

  abbrev pub updated_cache : Env l → Cache Iso → Dict (Day Iso) → String → Cache Iso
  updated_cache env c m source = record {
    meta = some (record { source = source; last_fetched = to_iso env.now });
    entries = some (spread (elim c.entries [ none ↦ [] | some old ↦ old ]) m);
  }

  -- From the fetch on: merge, write, and look the date up.
  unfoldable pub store_fetched :
      PrayerConfig
      → Env l
      → String
      → Cache Iso
      → Dict (Day Iso) × String
      → Store Iso
      → Result (Times Iso) × Store Iso
  unfolding write_cache
  store_fetched cfg env key c (m, source) s =
      let c' = updated_cache env c m source in
      let s' = write_cache env.write_ok c' s in
      elim (find_day key c') [
        | none ↦ (err (missing_date key), s')
        | some d ↦ (
          ok (record {
            date = key;
            source = source;
            last_fetched = to_iso env.now;
            cached = false;
            prayers = apply_overrides l d cfg;
          }),
          s',
        )
      ]

  -- What follows a miss in memory.
  unfoldable pub from_disk :
      PrayerConfig → Env l → DateTime → Store Iso → Result (Times Iso) × Store Iso
  unfolding read_cache
  from_disk cfg env date s =
      let (c, s') = read_cache s in
      elim (find_day (iso_date date) c) [
        | some d ↦ (cached_reply cfg (iso_date date) c d, s')
        | none ↦ elim (fetch_remote cfg env (year date)) [
          | err e ↦ (err e, s')
          | ok fetched ↦ store_fetched cfg env (iso_date date) c fetched s'
        ]
      ]

  -- `inMemoryCache && inMemoryCache.data && inMemoryCache.data[dateKey]`
  abbrev pub in_memory : String → Store Iso → Option (Cache Iso × Day Iso)
  in_memory key s = elim s.memory [
    | none ↦ none
    | some c ↦ elim (find_day key c) [ none ↦ none | some d ↦ some (c, d) ]
  ]

  unfoldable pub get_prayer_times :
      PrayerConfig → Env l → DateTime → Store Iso → Result (Times Iso) × Store Iso
  get_prayer_times cfg env date s = elim (in_memory (iso_date date) s) [
    | some hit ↦ (cached_reply cfg (iso_date date) hit.0 hit.1, s)
    | none ↦ from_disk cfg env date s
  ]

  -- The key of the lock that a call runs under; `year_text` is how a year is printed.
  unfoldable pub lock_key : (ℕ → String) → PrayerConfig → DateTime → String
  lock_key year_text cfg date =
      append "fetch-" (append cfg.primary.type (append "-" (year_text (year date))))

  -- forceRefresh: a file that cannot be deleted is left.
  unfoldable pub force_refresh : PrayerConfig → Env l → Store Iso → Result (Times Iso) × Store Iso
  force_refresh cfg env s =
      get_prayer_times cfg env env.now
        (record { memory = none; disk = if env.unlink_ok then absent else s.disk })
