-- ===== src/PrayerTimes/Hits.antt =====
-- getPrayerTimes of services/core/prayerTimeService.js: calls that follow a successful one.
use azan_dashboard.Prelude.{String, ◌≡◌, ap, ◌∙◌, true, some, arith, Option-cases, inl, inr}
use azan_dashboard.Dict.{Dict}
use azan_dashboard.Result.{Result, ok, Result-cases}
use azan_dashboard.Clock.{Luxon}
use azan_dashboard.Prayer.{Day, PrayerConfig}
use azan_dashboard.PrayerTimes.{
  Cache, Store, Times, Env, find_day, cached_reply, in_memory, read_cache, store_fetched, from_disk,
  get_prayer_times, disk_cache, fetch_remote, updated_cache, write_cache,
}

module _ (l : Luxon) (cfg : PrayerConfig) where
  open l use {Iso, DateTime, iso_date}

  pub get-memory :
      (env : Env l) (date : DateTime) (s : Store Iso) (c : Cache Iso) (d : Day Iso)
      → s.memory ≡ some c
      → find_day (iso_date date) c ≡ some d
      → get_prayer_times l cfg env date s ≡ (cached_reply l cfg (iso_date date) c d, s)
  unfolding get_prayer_times
  get-memory env date s c d m f = ground arith

  -- The reply is the one that the store's memory gives.
  abbrev Settled : DateTime → Times Iso → Store Iso → Type 0
  Settled date r s =
      (c : Cache Iso) × (d : Day Iso) × (s.memory ≡ some c)
      × (find_day (iso_date date) c ≡ some d)
      × (cached_reply l cfg (iso_date date) c d ≡ ok (record r { cached = true }))

  store_fetched-Settled :
      (env : Env l) (date : DateTime) (c : Cache Iso) (fetched : Dict (Day Iso) × String)
      (s : Store Iso) (r : Times Iso)
      → env.write_ok ≡ true
      → (store_fetched l cfg env (iso_date date) c fetched s).0 ≡ ok r
      → Settled date r (store_fetched l cfg env (iso_date date) c fetched s).1
  unfolding store_fetched write_cache
  store_fetched-Settled env date c (m, source) s r w e =
      let c' = updated_cache l env c m source in
      elim (Option-cases (find_day (iso_date date) c')) [
        | inl miss ↦ absurd (ground arith)
        | inr (d, hit) ↦ (c', d, ground arith, hit, ground arith)
      ]

  from_disk-Settled :
      (env : Env l) (date : DateTime) (s : Store Iso) (r : Times Iso)
      → env.write_ok ≡ true
      → (from_disk l cfg env date s).0 ≡ ok r
      → Settled date r (from_disk l cfg env date s).1
  unfolding from_disk read_cache
  from_disk-Settled env date s r w e =
      let c = disk_cache l s.disk in
      elim (Option-cases (find_day (iso_date date) c)) [
        | inr (d, hit) ↦ (c, d, ground arith, hit, ground arith)
        | inl miss ↦ elim (Result-cases (fetch_remote l cfg env (l.year date))) [
          | inr (x, failed) ↦ absurd (ground arith)
          | inl (got, fetched) ↦
              rw (miss, fetched, from_disk)
                (store_fetched-Settled env date c got (record s { memory = some c }) r w
                  (ground arith))
        ]
      ]

  get_prayer_times-Settled :
      (env : Env l) (date : DateTime) (s : Store Iso) (r : Times Iso)
      → env.write_ok ≡ true
      → (get_prayer_times l cfg env date s).0 ≡ ok r
      → Settled date r (get_prayer_times l cfg env date s).1
  unfolding get_prayer_times
  get_prayer_times-Settled env date s r w e = elim (Option-cases (in_memory l (iso_date date) s)) [
    | inr ((c, d), hit) ↦ (c, d, ground arith, ground arith, ground arith)
    | inl miss ↦ rw (miss, get_prayer_times) (from_disk-Settled env date s r w (ground arith))
  ]

  -- Once a date's times were returned and the file was written, the same date is served again
  -- without a fetch: whatever the providers and the clock do, the reply is the same but for its
  -- `cached` mark, and nothing changes.
  pub get_prayer_times-again :
      (env env' : Env l) (date : DateTime) (s : Store Iso) (r : Times Iso)
      → env.write_ok ≡ true
      → (get_prayer_times l cfg env date s).0 ≡ ok r
      → get_prayer_times l cfg env' date (get_prayer_times l cfg env date s).1
        ≡ (ok (record r { cached = true }), (get_prayer_times l cfg env date s).1)
  get_prayer_times-again env env' date s r w e =
      let (c, d, m, f, same) = get_prayer_times-Settled env date s r w e in
      get-memory env' date _ c d m f
      ∙ ap (λ (x : Result (Times Iso)). (x, (get_prayer_times l cfg env date s).1)) same
