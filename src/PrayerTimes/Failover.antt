-- ===== src/PrayerTimes/Failover.antt =====
-- getPrayerTimes and forceRefresh of services/core/prayerTimeService.js: where a reply comes from, and
-- its failures.
use azan_dashboard.Prelude.{
  ℕ, String, ◌≡◌, ◌≢◌, true, false, none, some, arith, Option-cases, ◌⊎◌, inl, inr, if◌then◌else◌,
  Bool-cases, eq_iff, [],
}
use mathlib.Core.Path.{subst}
use azan_dashboard.Dict.{Dict, lookup, spread}
use azan_dashboard.Result.{ok, err, Error, Result-cases, provider_validation, missing_date}
use azan_dashboard.Clock.{Luxon}
use azan_dashboard.Prayer.{Day, PrayerConfig, Source}
use azan_dashboard.DayRows.{apply_overrides}
use azan_dashboard.PrayerTimes.{
  Cache, Store, Times, Env, rejected, find_day, in_memory, read_cache, store_fetched, from_disk,
  get_prayer_times, disk_cache, fetch_remote, updated_cache, force_refresh, usable, try_fetch,
  primary_error, is_validation, allowed_backup, absent,
}

module _ (l : Luxon) (cfg : PrayerConfig) (env : Env l) where
  open l use {Iso, DateTime, iso_date, year}

  -- The source whose map is used: the primary, or the backup where it may be tried and the primary
  -- failed with anything but a validation error.
  pub data Supplies (y : ℕ) (m : Dict (Day Iso)) (type : String) : Type 0 where
    from_primary :
        usable l (try_fetch l env cfg.primary y) ≡ some m
        → type ≡ cfg.primary.type
        → Supplies y m type
    from_backup :
        (b : Source)
        → allowed_backup l cfg.backup ≡ some b
        → usable l (try_fetch l env cfg.primary y) ≡ none
        → is_validation (primary_error l cfg.primary (try_fetch l env cfg.primary y)) ≡ false
        → usable l (try_fetch l env b y) ≡ some m
        → type ≡ b.type
        → Supplies y m type

  fetch_remote-Supplies :
      (y : ℕ) (m : Dict (Day Iso)) (type : String)
      → fetch_remote l cfg env y ≡ ok (m, type)
      → Supplies y m type
  unfolding fetch_remote
  fetch_remote-Supplies y m type e =
      let first = try_fetch l env cfg.primary y in
      elim (Option-cases (usable l first)) [
        | inr (x, up) ↦ from_primary (ground arith) (ground arith)
        | inl down ↦ elim (Bool-cases (is_validation (primary_error l cfg.primary first))) [
          | inl final ↦ absurd (ground arith)
          | inr other ↦ elim (Option-cases (allowed_backup l cfg.backup)) [
            | inl lone ↦ absurd (ground arith)
            | inr (b, tried) ↦ elim (Option-cases (usable l (try_fetch l env b y))) [
              | inl dead ↦ absurd (ground arith)
              | inr (x, up) ↦ from_backup b tried down other (ground arith) (ground arith)
            ]
          ]
        ]
      ]

  -- An error that is not about a missing date leaves the file alone.
  store_fetched-error :
      (key : String) (c : Cache Iso) (got : Dict (Day Iso) × String) (s : Store Iso) (x : Error)
      → (store_fetched l cfg env key c got s).0 ≡ err x
      → x ≡ missing_date key
  unfolding store_fetched
  store_fetched-error key c (m, source) s x e = ground arith

  -- A call that throws leaves the cache file as it was, unless a provider's map was stored and lacks
  -- the date that was asked for.
  pub get_prayer_times-error :
      (date : DateTime) (s : Store Iso) (x : Error)
      → (get_prayer_times l cfg env date s).0 ≡ err x
      → ((get_prayer_times l cfg env date s).1.disk ≡ s.disk) ⊎ (x ≡ missing_date (iso_date date))
  unfolding get_prayer_times from_disk read_cache
  get_prayer_times-error date s x e = grind (arith, store_fetched-error (iso_date date))

  -- The day that a reply shows: fetched, or else what the file had.
  pub record IsFetched (date : DateTime) (s : Store Iso) (r : Times Iso) : Type 0 where
    pub entries : Dict (Day Iso)
    pub day : Day Iso
    pub supplied : Supplies (year date) entries r.source
    pub found :
        lookup
          (iso_date date)
          (spread (elim (disk_cache l s.disk).entries [ none ↦ [] | some old ↦ old ]) entries)
        ≡ some day
    pub prayers : r.prayers ≡ apply_overrides l day cfg
    pub dated : r.date ≡ iso_date date

  store_fetched-IsFetched :
      (date : DateTime) (s s' : Store Iso) (got : Dict (Day Iso) × String) (r : Times Iso)
      → Supplies (year date) got.0 got.1
      → (store_fetched l cfg env (iso_date date) (disk_cache l s.disk) got s').0 ≡ ok r
      → IsFetched date s r
  unfolding store_fetched
  store_fetched-IsFetched date s s' (m, source) r sup e =
      let c' = updated_cache l env (disk_cache l s.disk) m source in
      elim (Option-cases (find_day (iso_date date) c')) [
        | inl miss ↦ absurd (ground arith)
        | inr (d, hit) ↦ record {
          entries = m;
          day = d;
          supplied = subst (Supplies (year date) m) (ground arith) sup;
          found = hit;
          prayers = ground arith;
          dated = ground arith;
        }
      ]

  from_disk-IsFetched :
      (date : DateTime) (s : Store Iso) (r : Times Iso)
      → r.cached ≡ false
      → (from_disk l cfg env date s).0 ≡ ok r
      → IsFetched date s r
  unfolding from_disk read_cache
  from_disk-IsFetched date s r fresh e =
      let c = disk_cache l s.disk in
      elim (Option-cases (find_day (iso_date date) c)) [
        | inr (d, hit) ↦ absurd (ground arith)
        | inl miss ↦ elim (Result-cases (fetch_remote l cfg env (year date))) [
          | inr (x, failed) ↦ absurd (ground arith)
          | inl (got, fetched) ↦
              store_fetched-IsFetched date s (record s { memory = some c }) got r
                (fetch_remote-Supplies (year date) got.0 got.1 fetched) (ground arith)
        ]
      ]

  -- A reply that is not marked as cached comes from a provider: the primary's map, or the backup's
  -- where the backup is not disabled and the primary failed or returned nothing for another reason
  -- than a validation error. It names that source and the date that was asked for, and shows the
  -- date's entry in the file's entries overwritten by the map.
  pub get_prayer_times-IsFetched :
      (date : DateTime) (s : Store Iso) (r : Times Iso)
      → r.cached ≡ false
      → (get_prayer_times l cfg env date s).0 ≡ ok r
      → IsFetched date s r
  unfolding get_prayer_times
  get_prayer_times-IsFetched date s r fresh e =
      elim (Option-cases (in_memory l (iso_date date) s)) [
        | inr (cd, hit) ↦ absurd (ground arith)
        | inl miss ↦ from_disk-IsFetched date s r fresh (ground arith)
      ]

  -- When neither memory nor the file has the date and the primary throws a validation error, that
  -- error is thrown and the file is left alone, whatever the backup is.
  pub get_prayer_times-validation :
      (date : DateTime) (s : Store Iso) (m : String)
      → cfg.primary.type ≢ ""
      → env.fetch cfg.primary (year date) ≡ rejected (provider_validation m)
      → in_memory l (iso_date date) s ≡ none
      → find_day (iso_date date) (disk_cache l s.disk) ≡ none
      → ((get_prayer_times l cfg env date s).0 ≡ err (provider_validation m))
        × ((get_prayer_times l cfg env date s).1.disk ≡ s.disk)
  unfolding get_prayer_times from_disk read_cache fetch_remote
  get_prayer_times-validation date s m named thrown cold missing =
      ground (arith, eq_iff cfg.primary.type "")

  store_fetched-fresh :
      (key : String) (c : Cache Iso) (got : Dict (Day Iso) × String) (s : Store Iso) (r : Times Iso)
      → (store_fetched l cfg env key c got s).0 ≡ ok r
      → r.cached ≡ false
  unfolding store_fetched
  store_fetched-fresh key c (m, source) s r e = ground arith

  abbrev no_cache : Store Iso
  no_cache = record { memory = none; disk = absent }

  cold-fresh :
      (date : DateTime) (r : Times Iso)
      → (get_prayer_times l cfg env date no_cache).0 ≡ ok r
      → r.cached ≡ false
  unfolding get_prayer_times from_disk read_cache
  cold-fresh date r e = grind (arith, store_fetched-fresh (iso_date date))

  -- A refresh whose file is deleted never replies from a cache: the entry shown is in the map that a
  -- provider returned.
  pub force_refresh-IsFetched :
      (s : Store Iso) (r : Times Iso)
      → env.unlink_ok ≡ true
      → (force_refresh l cfg env s).0 ≡ ok r
      → (r.cached ≡ false) × IsFetched env.now (record { memory = none; disk = absent }) r
  unfolding force_refresh
  force_refresh-IsFetched s r gone e =
      let cold : (get_prayer_times l cfg env env.now no_cache).0 ≡ ok r =
        subst
          (λ b.
            (get_prayer_times l cfg env env.now
              (record { memory = none; disk = if b then absent else s.disk })).0
            ≡ ok r)
          gone e in
      let fresh = cold-fresh env.now r cold in
      (fresh, get_prayer_times-IsFetched env.now no_cache r fresh cold)
