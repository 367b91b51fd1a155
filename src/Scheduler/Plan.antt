-- ===== src/Scheduler/Plan.antt =====
-- initScheduler of services/core/schedulerService.js: the events that are planned for a day.
use azan_dashboard.Prelude.{
  String, ◌≡◌, refl, Bool, true, false, Option, none, some, List, [], ◌∷◌, ◌++◌, arith, All,
  All-append, Bool-cases, Option-cases, inl, inr,
}
use mathlib.Core.Path.{subst}
use azan_dashboard.Result.{ok, Result-cases}
use azan_dashboard.Clock.{Luxon}
use azan_dashboard.Prayer.{Prayer, PrayerSetting, Day, Row}
use azan_dashboard.Settings.{
  Event, pre_adhan, adhan, pre_iqamah, iqamah, Trigger, AutomationConfig, Config, find_trigger,
}
use azan_dashboard.Iqamah.{calculate_iqamah}
use azan_dashboard.DayRows.{
  is_sunrise, override_one, apply_overrides, row_iqamah, build_row, build_prayer_rows,
}
use azan_dashboard.DayRows.Agreement.{build_prayer_rows-row}
use azan_dashboard.Scheduler.{
  Due, source_or_calculated, iqamah_iso, due_if, offset_of, iqamah_events, events_of, local_option,
  local, plan_prayer, plan_day,
}

abbrev pub is_iqamah_event : Event → Bool
is_iqamah_event iqamah = true
is_iqamah_event pre_iqamah = true
is_iqamah_event _ = false

module _ (l : Luxon) where
  open l use {Iso, DateTime, minus_minutes}

  row_iqamah-source :
      (settings : Option PrayerSetting) (start : Iso) (zone : String) (given : Option Iso)
      (i : Option Iso)
      → source_or_calculated l settings (override_one l settings (some start) zone given) start zone
        ≡ ok i
      → row_iqamah l false (override_one l settings (some start) zone given) settings start zone
        ≡ ok i
  row_iqamah-source none start zone none i e = e
  row_iqamah-source none start zone (some g) i e = e
  row_iqamah-source (some s) start zone given i e =
      elim (Result-cases (calculate_iqamah l (some start) (some s) zone)) [
        | inl (x, done) ↦ ground arith
        | inr (x, failed) ↦ ground arith
      ]

  -- Of the times that getPrayerTimes returns, with the overrides applied: where the dashboard's rows
  -- and the scheduler's iqamah are computed without an exception, the row of a prayer with a time
  -- shows the scheduler's iqamah, and none at sunrise.
  pub iqamah_iso-row :
      (c : Config) (d : Day Iso) (rows : Prayer → Option (Row Iso)) (p : Prayer) (start : Iso)
      (i : Option Iso)
      → build_prayer_rows l (apply_overrides l d c.prayer) c.prayer c.timezone ≡ ok rows
      → d.time p ≡ some start
      → iqamah_iso l c (apply_overrides l d c.prayer) start p ≡ ok i
      → rows p ≡ some (record { start = start; iqamah = i })
  unfolding iqamah_iso build_row apply_overrides
  iqamah_iso-row c d rows p start i built time e =
      let row =
        build_prayer_rows-row l (apply_overrides l d c.prayer) c.prayer c.timezone rows p built in
      elim (Bool-cases (is_sunrise p)) [
        | inl rising ↦ ground arith
        | inr day ↦ ground (arith, row_iqamah-source (c.prayers p) start c.timezone (d.iqamah p) i)
      ]

  -- An event of the plan belongs to an enabled trigger, and sunrise has no iqamah events.
  pub record IsTriggered (a : AutomationConfig) (d : Due l) : Type 0 where
    pub trigger : Trigger
    pub found : find_trigger a d.prayer d.event ≡ some trigger
    pub enabled : trigger.enabled ≡ true
    pub daylight : is_sunrise d.prayer ≡ true → is_iqamah_event d.event ≡ false

  due_if-IsTriggered :
      (a : AutomationConfig) (events : Event → Option Trigger) (at : DateTime) (p : Prayer)
      (e : Event)
      → a.triggers p ≡ some events
      → (is_sunrise p ≡ true → is_iqamah_event e ≡ false)
      → All (IsTriggered a) (due_if l (events e) at p e)
  due_if-IsTriggered a events at p e h day = elim (Option-cases (events e)) [
    | inl missing ↦ rw missing tt
    | inr (t, found) ↦ elim (Bool-cases t.enabled) [
      | inr off ↦ rw (found, off) tt
      | inl on ↦
          rw (found, on)
            (
              record {
                trigger = t;
                found = rw (h, find_trigger) found;
                enabled = on;
                daylight = day;
              },
              tt,
            )
    ]
  ]

  iqamah_events-IsTriggered :
      (a : AutomationConfig) (events : Event → Option Trigger) (iq : Option DateTime) (p : Prayer)
      → a.triggers p ≡ some events
      → (is_sunrise p ≡ true → iq ≡ none)
      → All (IsTriggered a) (iqamah_events l events iq p)
  iqamah_events-IsTriggered a events none p h day = tt
  iqamah_events-IsTriggered a events (some at) p h day =
      let before = minus_minutes (offset_of l (events pre_iqamah)) at in
      All-append (IsTriggered a) (due_if l (events iqamah) at p iqamah)
        (due_if l (events pre_iqamah) before p pre_iqamah)
        (due_if-IsTriggered a events at p iqamah h (λ rising. cc (day rising)))
        (due_if-IsTriggered a events before p pre_iqamah h (λ rising. cc (day rising)))

  events_of-IsTriggered :
      (a : AutomationConfig) (events : Event → Option Trigger) (start : DateTime)
      (iq : Option DateTime) (p : Prayer)
      → a.triggers p ≡ some events
      → (is_sunrise p ≡ true → iq ≡ none)
      → All (IsTriggered a) (events_of l events start iq p)
  unfolding events_of
  events_of-IsTriggered a events start iq p h day =
      let before = minus_minutes (offset_of l (events pre_adhan)) start in
      let early = due_if l (events pre_adhan) before p pre_adhan in
      All-append (IsTriggered a) (due_if l (events adhan) start p adhan)
        (early ++ iqamah_events l events iq p)
        (due_if-IsTriggered a events start p adhan h (λ rising. refl))
        (All-append (IsTriggered a) early (iqamah_events l events iq p)
          (due_if-IsTriggered a events before p pre_adhan h (λ rising. refl))
          (iqamah_events-IsTriggered a events iq p h day))

  iqamah_iso-sunrise :
      (c : Config) (d : Day Iso) (start : Iso) (p : Prayer) (i : Option Iso)
      → iqamah_iso l c d start p ≡ ok i
      → is_sunrise p ≡ true
      → local_option l c.timezone i ≡ none
  unfolding iqamah_iso
  iqamah_iso-sunrise c d start p i e rising = ground arith

  plan_prayer-IsTriggered :
      (c : Config) (d : Day Iso) (p : Prayer) (ds : List (Due l))
      → plan_prayer l c d p ≡ ok ds
      → All (IsTriggered c.automation) ds
  unfolding plan_prayer
  plan_prayer-IsTriggered c d p ds e = elim (Option-cases (c.automation.triggers p)) [
    | inl missing ↦ let e' : [] ≡ ds = ground arith in subst (All (IsTriggered c.automation)) e' tt
    | inr (events, listed) ↦ elim (Option-cases (d.time p)) [
      | inl absent ↦ let e' : [] ≡ ds = ground arith in subst (All (IsTriggered c.automation)) e' tt
      | inr (start, known) ↦ elim (Result-cases (iqamah_iso l c d start p)) [
        | inr (x, failed) ↦ absurd (ground arith)
        | inl (i, done) ↦
            let at = local l c.timezone start in
            let iq = local_option l c.timezone i in
            let e' : events_of l events at iq p ≡ ds = ground arith in
            subst (All (IsTriggered c.automation)) e' (
              events_of-IsTriggered c.automation events at iq p listed
                (iqamah_iso-sunrise c d start p i done))
      ]
    ]
  ]

  -- Every event that is planned for a day belongs to a trigger that is configured and enabled, and
  -- none is an iqamah event of sunrise.
  pub plan_day-IsTriggered :
      (c : Config) (d : Day Iso) (ps : List Prayer)
      → All (IsTriggered c.automation) (plan_day l c d ps)
  unfolding plan_day
  plan_day-IsTriggered c d [] = tt
  plan_day-IsTriggered c d (p ∷ ps) = elim (Result-cases (plan_prayer l c d p)) [
    | inr (x, failed) ↦ rw (failed, plan_day) tt
    | inl (ds, planned) ↦
        rw (planned, plan_day)
          (All-append (IsTriggered c.automation) ds (plan_day l c d ps)
            (plan_prayer-IsTriggered c d p ds planned) (plan_day-IsTriggered c d ps))
  ]
