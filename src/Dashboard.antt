-- ===== src/Dashboard.antt =====
-- services/core/prayerTimeService.js: what the dashboard asks for, the day with its next prayer
-- (getPrayersWithNext) and the calendar (getPrayerCalendarWindow). Each getPrayerTimes call of a
-- request has its own environment, numbered in order.
pub mod Next
pub mod Calendar
mod Tests
use azan_dashboard.Prelude.{
  ℕ, zero, suc, ◌+◌, String, Bool, true, false, Option, none, some, List, [], ◌∷◌, ◌++◌, ℤ, pos,
  negsuc,
}
use azan_dashboard.Dict.{Dict, insert, spread}
use azan_dashboard.Result.{Result, ok, err, ◌>>=◌}
use azan_dashboard.Clock.{Luxon}
use azan_dashboard.Prayer.{Prayer, fajr, Row, PrayerConfig}
use azan_dashboard.Iqamah.{NextPrayer, calculate_next_prayer}
use azan_dashboard.DayRows.{build_prayer_rows}
use azan_dashboard.PrayerTimes.{Store, Times, Env, get_prayer_times}

-- `{ meta: { date, location, source, cached }, prayers, nextPrayer }`
pub record Board (l : Luxon) : Type 0 where
  pub date : String
  pub location : String
  pub source : String
  pub cached : Bool
  pub prayers : Prayer → Option (Row l.Iso)
  pub next_prayer : Option (NextPrayer l)

pub data Direction : Type 0 where
  future past : Direction

module _ (l : Luxon) where
  open l use {Iso, DateTime, set_zone, plus_days, start_of_day, iso_date}

  abbrev pub Rows : Type 0
  Rows = Prayer → Option (Row Iso)

  -- Tomorrow's fajr, where its fetch succeeds and has one
  abbrev pub tomorrow_fajr : Result (Times Iso) → Option (NextPrayer l)
  tomorrow_fajr (err e) = none
  tomorrow_fajr (ok t) = elim (t.prayers.time fajr) [
    | none ↦ none
    | some iso ↦ some (record { name = fajr; time = iso; is_tomorrow = true })
  ]

  abbrev pub board : String → Times Iso → Rows → Option (NextPrayer l) → Board l
  board zone t rows next = record {
    date = t.date;
    location = zone;
    source = t.source;
    cached = t.cached;
    prayers = rows;
    next_prayer = next;
  }

  -- From step 3 on, with the rows of the day
  unfoldable pub with_next :
      PrayerConfig
      → Env l
      → String
      → DateTime
      → Times Iso
      → Rows
      → Store Iso
      → Result (Board l) × Store Iso
  with_next cfg env zone now t rows s = elim (calculate_next_prayer l rows now) [
    | some n ↦ (ok (board zone t rows (some n)), s)
    | none ↦
        let (tomorrow, s') = get_prayer_times l cfg env (plus_days (pos 1) now) s in
        (ok (board zone t rows (tomorrow_fajr tomorrow)), s')
  ]

  unfoldable pub get_prayers_with_next :
      PrayerConfig → (ℕ → Env l) → String → DateTime → Store Iso → Result (Board l) × Store Iso
  unfolding with_next
  get_prayers_with_next cfg envs zone reference s =
      let now = set_zone zone reference in
      let (today, s') = get_prayer_times l cfg (envs 0) now s in
      elim today [
        | err e ↦ (err e, s')
        | ok t ↦ elim (build_prayer_rows l t.prayers cfg zone) [
          | err e ↦ (err e, s')
          | ok rows ↦ with_next cfg (envs 1) zone now t rows s'
        ]
      ]

  -- One day of the calendar: the fetch and its rows
  abbrev rows_from : PrayerConfig → String → Result (Times Iso) → Result Rows
  rows_from cfg zone r = do t ← r; build_prayer_rows l t.prayers cfg zone

  unfoldable pub calendar_day :
      PrayerConfig → Env l → String → DateTime → Store Iso → Result Rows × Store Iso
  calendar_day cfg env zone date s =
      let (r, s') = get_prayer_times l cfg env date s in (rows_from cfg zone r, s')

  abbrev pub day_step : Direction → ℤ
  day_step past = negsuc 0
  day_step future = pos 1

  -- getDirectionalWindowStart, from the cursor as luxon parsed it in the zone
  unfoldable pub get_directional_window_start : DateTime → Direction → DateTime
  get_directional_window_start cursor direction =
      plus_days (day_step direction) (start_of_day cursor)

  -- The loop with a cursor: an exception breaks it.
  unfoldable pub directional_loop :
      PrayerConfig
      → (ℕ → Env l)
      → String
      → Direction
      → (left call : ℕ) → DateTime
      → Store Iso
      → List (String × Rows) × Store Iso
  unfolding calendar_day
  directional_loop cfg envs zone direction zero call date s = ([], s)
  directional_loop cfg envs zone direction (suc left) call date s =
      let (r, s') = calendar_day cfg (envs call) zone date s in
      elim r [
        | err e ↦ ([], s')
        | ok rows ↦
            let (rest, s'') =
              directional_loop cfg envs zone direction left (suc call)
                (plus_days (day_step direction) date) s' in
            ((iso_date date, rows) ∷ rest, s'')
      ]

  unfoldable pub reversed : List (String × Rows) → List (String × Rows)
  reversed [] = []
  reversed (x ∷ xs) = reversed xs ++ x ∷ []

  abbrev pub in_order : Direction → List (String × Rows) → List (String × Rows)
  in_order past entries = reversed entries
  in_order future entries = entries

  -- The window of a cursor, with Object.fromEntries
  unfoldable pub directional_window :
      PrayerConfig → (ℕ → Env l) → String → DateTime → Direction → Store Iso → Dict Rows × Store Iso
  unfolding directional_loop reversed get_directional_window_start
  directional_window cfg envs zone cursor direction s =
      let (entries, s') =
        directional_loop cfg envs zone direction 7 0 (get_directional_window_start cursor direction)
          s in
      (spread [] (in_order direction entries), s')

  -- The loop without a cursor: an exception skips the day.
  unfoldable pub default_loop :
      PrayerConfig
      → (ℕ → Env l)
      → String
      → DateTime
      → (left offset : ℕ) → Dict Rows
      → Store Iso
      → Dict Rows × Store Iso
  unfolding calendar_day
  default_loop cfg envs zone start zero offset calendar s = (calendar, s)
  default_loop cfg envs zone start (suc left) offset calendar s =
      let date = plus_days (pos offset) start in
      let (r, s') = calendar_day cfg (envs offset) zone date s in
      elim r [
        | err e ↦ default_loop cfg envs zone start left (suc offset) calendar s'
        | ok rows ↦
            default_loop cfg envs zone start left (suc offset)
              (insert (iso_date date) rows calendar) s'
      ]

  unfoldable pub default_window :
      PrayerConfig → (ℕ → Env l) → String → DateTime → Store Iso → Dict Rows × Store Iso
  unfolding default_loop
  default_window cfg envs zone reference s =
      default_loop cfg envs zone (plus_days (negsuc 6) (start_of_day (set_zone zone reference))) 15
        0 [] s

  -- getPrayerCalendarWindow
  unfoldable pub get_prayer_calendar_window :
      PrayerConfig
      → (ℕ → Env l)
      → String
      → Option (DateTime × Direction)
      → DateTime
      → Store Iso
      → Dict Rows × Store Iso
  unfolding directional_window default_window
  get_prayer_calendar_window cfg envs zone none reference s =
      default_window cfg envs zone reference s
  get_prayer_calendar_window cfg envs zone (some (cursor, direction)) reference s =
      directional_window cfg envs zone cursor direction s
