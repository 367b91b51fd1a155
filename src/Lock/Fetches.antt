-- ===== src/Lock/Fetches.antt =====
-- getPrayerTimes of services/core/prayerTimeService.js under the lock of utils/asyncLock.js: calls for
-- dates of one year.
use azan_dashboard.Prelude.{ℕ, String, ◌≡◌}
use mathlib.Core.Path.{subst}
use azan_dashboard.Clock.{Luxon}
use azan_dashboard.Prayer.{PrayerConfig}
use azan_dashboard.PrayerTimes.{lock_key}
use azan_dashboard.Lock.{Lock, Start, awaits, run}
use azan_dashboard.Lock.Single.{run-shared}

lock_key-year :
    (l : Luxon) (year_text : ℕ → String) (cfg : PrayerConfig) (date other : l.DateTime)
    → l.year date ≡ l.year other
    → lock_key l year_text cfg date ≡ lock_key l year_text cfg other
unfolding lock_key
lock_key-year l year_text cfg date other same = rw same

-- A call for the prayer times of another date of the same year, while a call is in flight, gets the
-- promise of that call and starts nothing.
pub run-lock_key :
    (l : Luxon) (year_text : ℕ → String) (cfg : PrayerConfig) (date other : l.DateTime)
    (start : Start) (s : Lock)
    → l.year date ≡ l.year other
    → run (lock_key l year_text cfg other) start (run (lock_key l year_text cfg date) awaits s).1
      ≡ (
        (run (lock_key l year_text cfg date) awaits s).0,
        (run (lock_key l year_text cfg date) awaits s).1,
      )
run-lock_key l year_text cfg date other start s same =
    let first = run (lock_key l year_text cfg date) awaits s in
    subst (λ (key : String). run key start first.1 ≡ (first.0, first.1))
      (lock_key-year l year_text cfg date other same)
      (run-shared (lock_key l year_text cfg date) start s)
