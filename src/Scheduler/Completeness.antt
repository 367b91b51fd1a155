-- ===== src/Scheduler/Completeness.antt =====
-- initScheduler of services/core/schedulerService.js: what a restart must schedule.
use azan_dashboard.Prelude.{
  ◌≡◌, refl, sym, true, false, Option, none, some, List, [], ◌∷◌, ◌++◌, arith, inl, inr, ◌⊎◌, ltb_ℤ,
  ◌≤ℤ◌,
}
use mathlib.Core.Path.{subst}
use azan_dashboard.Result.{ok}
use azan_dashboard.Clock.{Luxon}
use azan_dashboard.Prayer.{Prayer, fajr, sunrise, dhuhr, asr, maghrib, isha, Day, prayer_names}
use azan_dashboard.Settings.{Event, pre_adhan, adhan, pre_iqamah, iqamah, Trigger, Config}
use azan_dashboard.Scheduler.{
  automation, Task, Table, Due, Env, is_switched_on, iqamah_iso, due_if, offset_of, iqamah_events,
  events_of, local, local_option, plan_prayer, plan_day, init_scheduler,
}
use azan_dashboard.Scheduler.Timing.{instant}
use azan_dashboard.Scheduler.Overlap.{tasks, task_of, tasks_of, upkeep_tasks, tasks-init_scheduler}

-- A list holds a thing.
abbrev pub Holds : {A : Type 0} → A → List A → Type 0
Holds x [] = ⊥
Holds x (y ∷ ys) = (x ≡ y) ⊎ Holds x ys

Holds-left : {A : Type 0} → (x : A) (xs ys : List A) → Holds x xs → Holds x (xs ++ ys)
Holds-left x [] ys h = absurd h
Holds-left x (y ∷ xs) ys (inl e) = inl e
Holds-left x (y ∷ xs) ys (inr h) = inr (Holds-left x xs ys h)

Holds-right : {A : Type 0} → (x : A) (xs ys : List A) → Holds x ys → Holds x (xs ++ ys)
Holds-right x [] ys h = h
Holds-right x (y ∷ xs) ys h = inr (Holds-right x xs ys h)

prayer_names-Holds : (p : Prayer) → Holds p prayer_names
prayer_names-Holds fajr = inl refl
prayer_names-Holds sunrise = inr (inl refl)
prayer_names-Holds dhuhr = inr (inr (inl refl))
prayer_names-Holds asr = inr (inr (inr (inl refl)))
prayer_names-Holds maghrib = inr (inr (inr (inr (inl refl))))
prayer_names-Holds isha = inr (inr (inr (inr (inr (inl refl)))))

module _ (l : Luxon) where
  open l use {Iso, DateTime, minus_minutes}

  -- When an event is due: the adhan when the prayer starts, the iqamah when there is one, and the two
  -- earlier ones the offset of their trigger before.
  abbrev pub event_date :
      (Event → Option Trigger) → DateTime → Option DateTime → Event → Option DateTime
  event_date events start iq adhan = some start
  event_date events start iq pre_adhan = some (minus_minutes (offset_of l (events pre_adhan)) start)
  event_date events start iq iqamah = iq
  event_date events start none pre_iqamah = none
  event_date events start (some at) pre_iqamah =
      some (minus_minutes (offset_of l (events pre_iqamah)) at)

  abbrev pub due_at : DateTime → Prayer → Event → Due l
  due_at at p e = record { at = at; prayer = p; event = e }

  due_if-Holds :
      (trigger : Option Trigger) (t : Trigger) (at : DateTime) (p : Prayer) (e : Event)
      → trigger ≡ some t
      → t.enabled ≡ true
      → Holds (due_at at p e) (due_if l trigger at p e)
  due_if-Holds trigger t at p e found on = rw (found, on) (inl refl)

  events_of-Holds :
      (events : Event → Option Trigger) (t : Trigger) (start : DateTime) (iq : Option DateTime)
      (p : Prayer) (e : Event) (at : DateTime)
      → events e ≡ some t
      → t.enabled ≡ true
      → event_date events start iq e ≡ some at
      → Holds (due_at at p e) (events_of l events start iq p)
  unfolding events_of
  events_of-Holds events t start iq p adhan at found on when =
      let now : at ≡ start = ground arith in
      let first = due_if-Holds (events adhan) t at p adhan found on in
      Holds-left (due_at at p adhan) (due_if l (events adhan) start p adhan) _ (
        subst (λ (d : DateTime). Holds (due_at at p adhan) (due_if l (events adhan) d p adhan)) now
          first)
  events_of-Holds events t start iq p pre_adhan at found on when =
      let before = minus_minutes (offset_of l (events pre_adhan)) start in
      let now : at ≡ before = ground arith in
      let own = due_if-Holds (events pre_adhan) t at p pre_adhan found on in
      Holds-right (due_at at p pre_adhan) (due_if l (events adhan) start p adhan) _ (
        Holds-left (due_at at p pre_adhan) (due_if l (events pre_adhan) before p pre_adhan) _ (
          subst
            (λ (d : DateTime).
              Holds (due_at at p pre_adhan) (due_if l (events pre_adhan) d p pre_adhan))
            now own))
  events_of-Holds events t start iq p iqamah at found on when =
      let own = due_if-Holds (events iqamah) t at p iqamah found on in
      Holds-right (due_at at p iqamah) (due_if l (events adhan) start p adhan) _ (
        Holds-right (due_at at p iqamah) (due_if l (events pre_adhan) _ p pre_adhan) _ (
          subst (λ (o : Option DateTime). Holds (due_at at p iqamah) (iqamah_events l events o p))
            (sym when)
            (Holds-left (due_at at p iqamah) (due_if l (events iqamah) at p iqamah) _ own)))
  events_of-Holds events t start none p pre_iqamah at found on when = absurd (ground arith)
  events_of-Holds events t start (some iq) p pre_iqamah at found on when =
      let before = minus_minutes (offset_of l (events pre_iqamah)) iq in
      let now : at ≡ before = ground arith in
      let own = due_if-Holds (events pre_iqamah) t at p pre_iqamah found on in
      Holds-right (due_at at p pre_iqamah) (due_if l (events adhan) start p adhan) _ (
        Holds-right (due_at at p pre_iqamah) (due_if l (events pre_adhan) _ p pre_adhan) _ (
          Holds-right (due_at at p pre_iqamah) (due_if l (events iqamah) iq p iqamah) _ (
            subst
              (λ (d : DateTime).
                Holds (due_at at p pre_iqamah) (due_if l (events pre_iqamah) d p pre_iqamah))
              now own)))

  -- No prayer's iqamah throws.
  abbrev pub Plans : Config → Day Iso → Type 0
  Plans c d = (p : Prayer) → (ds : List (Due l)) × (plan_prayer l c d p ≡ ok ds)

  plan_day-Holds :
      (c : Config) (d : Day Iso) (p : Prayer) (due : Due l) (own : List (Due l)) (ps : List Prayer)
      → Plans c d
      → plan_prayer l c d p ≡ ok own
      → Holds due own
      → Holds p ps
      → Holds due (plan_day l c d ps)
  unfolding plan_day
  plan_day-Holds c d p due own [] plans planned h there = absurd there
  plan_day-Holds c d p due own (q ∷ ps) plans planned h (inl same) =
      let own_q = subst (λ (x : Prayer). plan_prayer l c d x ≡ ok own) same planned in
      rw (own_q, plan_day) (Holds-left due own (plan_day l c d ps) h)
  plan_day-Holds c d p due own (q ∷ ps) plans planned h (inr there) =
      let (ds, done) = plans q in
      rw (done, plan_day)
        (Holds-right due ds (plan_day l c d ps)
          (plan_day-Holds c d p due own ps plans planned h there))

  tasks_of-Holds :
      (c : Config) (env : Env l) (due : Due l) (t : Task) (ds : List (Due l))
      → Holds t (task_of l c.automation env due)
      → Holds due ds
      → Holds t (tasks_of l c.automation env ds)
  tasks_of-Holds c env due t [] h there = absurd there
  tasks_of-Holds c env due t (d ∷ ds) h (inl same) =
      Holds-left t (task_of l c.automation env d) (tasks_of l c.automation env ds)
        (subst (λ (x : Due l). Holds t (task_of l c.automation env x)) same h)
  tasks_of-Holds c env due t (d ∷ ds) h (inr there) =
      Holds-right t (task_of l c.automation env d) (tasks_of l c.automation env ds)
        (tasks_of-Holds c env due t ds h there)

  abbrev pub task_at : Config → DateTime → Prayer → Event → Task
  task_at c at p e = automation p e (instant l c.automation (due_at at p e))

  task_of-Holds :
      (c : Config) (env : Env l) (at : DateTime) (p : Prayer) (e : Event)
      → is_switched_on c.automation e ≡ true
      → l.millis env.now ≤ℤ instant l c.automation (due_at at p e)
      → env.accepts (task_at c at p e) ≡ true
      → Holds (task_at c at p e) (task_of l c.automation env (due_at at p e))
  task_of-Holds c env at p e on later takes =
      let future : ltb_ℤ (instant l c.automation (due_at at p e)) (l.millis env.now) ≡ false =
        ground arith in
      rw (on, future, takes) (inl refl)

  plan_prayer-events :
      (c : Config) (d : Day Iso) (p : Prayer) (events : Event → Option Trigger) (start : Iso)
      (i : Option Iso)
      → c.automation.triggers p ≡ some events
      → d.time p ≡ some start
      → iqamah_iso l c d start p ≡ ok i
      → plan_prayer l c d p
        ≡ ok (events_of l events (local l c.timezone start) (local_option l c.timezone i) p)
  unfolding plan_prayer
  plan_prayer-events c d p events start i listed known done =
      rw (listed, known, done, plan_prayer) refl

  -- A restart schedules whatever it must: if the day's times are there and no prayer's iqamah throws,
  -- every event of a prayer that has a date, whose trigger is enabled, whose switches are on and whose
  -- instant, the date moved by the longest lead time, is not past has its job in the table, if
  -- node-schedule accepts it.
  pub init_scheduler-Holds :
      (c : Config) (env env' : Env l) (d : Day Iso) (s : Table) (p : Prayer) (e : Event)
      (events : Event → Option Trigger) (t : Trigger) (start : Iso) (i : Option Iso) (at : DateTime)
      → Plans c d
      → c.automation.triggers p ≡ some events
      → d.time p ≡ some start
      → iqamah_iso l c d start p ≡ ok i
      → event_date events (local l c.timezone start) (local_option l c.timezone i) e ≡ some at
      → events e ≡ some t
      → t.enabled ≡ true
      → is_switched_on c.automation e ≡ true
      → l.millis env'.now ≤ℤ instant l c.automation (due_at at p e)
      → env'.accepts (task_at c at p e) ≡ true
      → Holds (task_at c at p e) (tasks (init_scheduler l c env env' (ok d) s))
  init_scheduler-Holds c env env' d s p e events t start i at plans listed known done when found on
        switched later takes =
      let from = local l c.timezone start in
      let iq = local_option l c.timezone i in
      let planned =
        plan_day-Holds c d p (due_at at p e) (events_of l events from iq p) prayer_names plans
          (plan_prayer-events c d p events start i listed known done)
          (events_of-Holds events t from iq p e at found on when) (prayer_names-Holds p) in
      let job =
        tasks_of-Holds c env' (due_at at p e) (task_at c at p e) (plan_day l c d prayer_names)
          (task_of-Holds c env' at p e switched later takes) planned in
      subst (Holds (task_at c at p e)) (sym (tasks-init_scheduler l c env env' (ok d) s))
        (Holds-right (task_at c at p e) (upkeep_tasks l env) _ job)
