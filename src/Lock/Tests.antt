-- ===== src/Lock/Tests.antt =====
-- Two callers of one key, and a third after the operation has settled.
use azan_dashboard.Prelude.{◌≡◌, refl, ◌≤◌, []}
use azan_dashboard.Dict.{lookup}
use azan_dashboard.Lock.{Run, Lock, new_lock, awaits, throws, launch, run, settle}
use azan_dashboard.Clock.Utc.{utc}
use azan_dashboard.PrayerTimes.{lock_key}
use azan_dashboard.Lock.Fetches.{run-lock_key}
use azan_dashboard.Samples.{at, prayer_config}
use azan_dashboard.Lock.Single.{
  in_flight, created, called, settled, in_flight-Reach, run-shared, run-throws,
}

abbrev fetch : Run
fetch = record { key = "fetch"; promise = 0 }

abbrev busy : Lock
busy = (run "fetch" awaits new_lock).1

abbrev again : Lock
again = (run "fetch" awaits (settle [] fetch [] busy)).1

in_flight-Reach_example : in_flight "fetch" again.active ≤ 1
unfolding run launch lookup
in_flight-Reach_example = in_flight-Reach "fetch" again (
    called "fetch" (settle [] fetch [] busy)
      (settled [] [] fetch busy refl (called "fetch" new_lock created)))

run-shared_sample : run "fetch" awaits busy ≡ ((run "fetch" awaits new_lock).0, busy)
run-shared_sample = run-shared "fetch" awaits new_lock

run-throws_sample :
    ((run "fetch" throws new_lock).1.active ≡ [])
    × (run "fetch" awaits (run "fetch" throws new_lock).1
        ≡ ((run "fetch" throws new_lock).0, (run "fetch" throws new_lock).1))
unfolding lookup
run-throws_sample = run-throws "fetch" awaits new_lock refl

run-lock_key_sample :
    run
      (lock_key utc (λ y. "1970") prayer_config (at 30 0))
      awaits
      (run (lock_key utc (λ y. "1970") prayer_config (at 1 0)) awaits new_lock).1
    ≡ (
      (run (lock_key utc (λ y. "1970") prayer_config (at 1 0)) awaits new_lock).0,
      (run (lock_key utc (λ y. "1970") prayer_config (at 1 0)) awaits new_lock).1,
    )
run-lock_key_sample =
    run-lock_key utc (λ y. "1970") prayer_config (at 1 0) (at 30 0) awaits new_lock refl
