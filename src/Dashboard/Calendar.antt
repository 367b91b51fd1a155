-- ===== src/Dashboard/Calendar.antt =====
-- getPrayerCalendarWindow of services/core/prayerTimeService.js: the days of a window.
use azan_dashboard.Prelude.{
  ℕ, zero, suc, ◌≤◌, String, ◌≡◌, refl, ap, List, [], ◌∷◌, map, arith, inl, inr, length, pos,
  negsuc, none,
}
use azan_dashboard.Dict.{Dict, insert, spread}
use azan_dashboard.Result.{ok, err, Result-cases}
use azan_dashboard.Clock.{Luxon}
use azan_dashboard.Prayer.{PrayerConfig}
use azan_dashboard.PrayerTimes.{Store, Env}
use azan_dashboard.Dashboard.{
  Rows, Direction, day_step, calendar_day, directional_loop, default_loop, default_window,
  get_prayer_calendar_window,
}

module _ (l : Luxon) (cfg : PrayerConfig) (envs : ℕ → Env l) (zone : String) where
  open l use {Iso, DateTime, plus_days, iso_date}

  -- The ISO dates of `n` days in a row from a date, in a direction
  abbrev pub dates : Direction → ℕ → DateTime → List String
  dates direction zero date = []
  dates direction (suc n) date =
      iso_date date ∷ dates direction n (plus_days (day_step l direction) date)

  -- With a cursor the loop collects consecutive days, from its first day on and in its direction, and
  -- at most as many as it may: a day that fails ends the window, and no day is left out before.
  pub directional_loop-dates :
      (direction : Direction) (left call : ℕ) (date : DateTime) (s : Store Iso)
      → (map (λ x. x.0) (directional_loop l cfg envs zone direction left call date s).0
          ≡ dates direction
              (length (directional_loop l cfg envs zone direction left call date s).0)
              date)
        × (length (directional_loop l cfg envs zone direction left call date s).0 ≤ left)
  unfolding directional_loop
  directional_loop-dates direction zero call date s = (refl, omega arith)
  directional_loop-dates direction (suc left) call date s =
      let day = calendar_day l cfg (envs call) zone date s in
      let later = plus_days (day_step l direction) date in
      let (same, short) = directional_loop-dates direction left (suc call) later day.1 in
      elim (Result-cases day.0) [
        | inr (x, failed) ↦ rw (failed, directional_loop) (refl, omega arith)
        | inl (rows, shown) ↦
            rw (shown, directional_loop)
              (ap (λ (t : List String). iso_date date ∷ t) same, omega arith)
      ]

  abbrev pub week_before : DateTime → DateTime
  week_before reference = plus_days (negsuc 6) (l.start_of_day (l.set_zone zone reference))

  -- The days of the default window that can be shown, in order, each with its rows; the requests go
  -- on after one that fails.
  abbrev pub days_shown :
      DateTime → (left offset : ℕ) → Store Iso → List (String × Rows l) × Store Iso
  days_shown start zero offset s = ([], s)
  days_shown start (suc left) offset s =
      let date = plus_days (pos offset) start in
      let day = calendar_day l cfg (envs offset) zone date s in
      let (rest, s') = days_shown start left (suc offset) day.1 in
      elim day.0 [ err e ↦ (rest, s') | ok rows ↦ ((iso_date date, rows) ∷ rest, s') ]

  default_loop-days_shown :
      (start : DateTime) (left offset : ℕ) (calendar : Dict (Rows l)) (s : Store Iso)
      → default_loop l cfg envs zone start left offset calendar s
        ≡ (spread calendar (days_shown start left offset s).0, (days_shown start left offset s).1)
  unfolding default_loop spread
  default_loop-days_shown start zero offset calendar s = refl
  default_loop-days_shown start (suc left) offset calendar s =
      let date = plus_days (pos offset) start in
      let day = calendar_day l cfg (envs offset) zone date s in
      elim (Result-cases day.0) [
        | inr (x, failed) ↦
            rw (failed, default_loop, days_shown)
              (default_loop-days_shown start left (suc offset) calendar day.1)
        | inl (rows, shown) ↦
            rw (shown, default_loop, days_shown)
              (default_loop-days_shown start left (suc offset)
                (insert (iso_date date) rows calendar) day.1)
      ]

  -- Without a cursor the calendar is made of exactly those days that can be shown, of the fifteen
  -- from a week before the reference day to a week after it, entered in order: a day that fails is
  -- left out and does not keep the later ones from being asked for.
  pub get_prayer_calendar_window-default :
      (reference : DateTime) (s : Store Iso)
      → get_prayer_calendar_window l cfg envs zone none reference s ≡ (
        spread [] (days_shown (week_before reference) 15 0 s).0,
        (days_shown (week_before reference) 15 0 s).1,
      )
  unfolding get_prayer_calendar_window default_window
  get_prayer_calendar_window-default reference s =
      default_loop-days_shown (week_before reference) 15 0 [] s
