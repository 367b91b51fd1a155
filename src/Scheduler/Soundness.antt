-- ===== src/Scheduler/Soundness.antt =====
-- initScheduler of services/core/schedulerService.js: each of the jobs that a restart leaves.
use azan_dashboard.Prelude.{
  ◌≡◌, Bool, true, false, some, List, [], ◌∷◌, ◌++◌, arith, All, All-append, Bool-cases, inl, inr,
  ltb_ℤ, ◌≤ℤ◌, sym,
}
use mathlib.Core.Path.{subst}
use azan_dashboard.Result.{Result, ok, err}
use azan_dashboard.Clock.{Luxon}
use azan_dashboard.Prayer.{Day, prayer_names}
use azan_dashboard.Settings.{Trigger, AutomationConfig, Config, find_trigger}
use azan_dashboard.Scheduler.{
  Upkeep, stale_check, year_boundary, health_check, audio_assets, midnight_refresh, maintenance,
  automation, Task, Table, Due, Env, is_switched_on, init_scheduler, plan_day,
}
use azan_dashboard.Scheduler.Timing.{instant}
use azan_dashboard.Scheduler.Plan.{IsTriggered, plan_day-IsTriggered}
use azan_dashboard.Scheduler.Overlap.{
  tasks, one_if, task_of, tasks_of, upkeep_of, upkeep_from, upkeep_tasks, day_tasks,
  tasks-init_scheduler,
}

module _ (l : Luxon) (a : AutomationConfig) (env : Env l) where
  -- A job for an event: its trigger is configured and enabled, its switches are on, and its instant
  -- was not past when it was made.
  abbrev pub IsSound : Task → Type 0
  IsSound (maintenance u) = Unit {0}
  IsSound (automation p e t) =
      ((tr : Trigger) × (find_trigger a p e ≡ some tr) × (tr.enabled ≡ true))
      × (is_switched_on a e ≡ true)
      × (l.millis env.now ≤ℤ t)

  one_if-IsSound : (b : Bool) (t : Task) → IsSound t → All IsSound (one_if b t)
  one_if-IsSound false t h = tt
  one_if-IsSound true t h = (h, tt)

  task_of-IsSound : (d : Due l) → IsTriggered l a d → All IsSound (task_of l a env d)
  task_of-IsSound d h =
      let at = instant l a d in
      let t = automation d.prayer d.event at in
      elim (Bool-cases (is_switched_on a d.event)) [
        | inr off ↦ rw (off, task_of) tt
        | inl on ↦ elim (Bool-cases (ltb_ℤ at (l.millis env.now))) [
          | inl past ↦ rw (on, past, task_of) tt
          | inr later ↦
              rw (on, later, task_of)
                (one_if-IsSound (env.accepts t) t
                  ((h.trigger, h.found, h.enabled), on, ground arith))
        ]
      ]

  tasks_of-IsSound :
      (ds : List (Due l)) → All (IsTriggered l a) ds → All IsSound (tasks_of l a env ds)
  tasks_of-IsSound [] h = tt
  tasks_of-IsSound (d ∷ ds) (h, hs) =
      All-append IsSound (task_of l a env d) (tasks_of l a env ds) (task_of-IsSound d h)
        (tasks_of-IsSound ds hs)

module _ (l : Luxon) (c : Config) (env env' : Env l) (times : Result (Day l.Iso)) where
  upkeep_of-IsSound : (u : Upkeep) → All (IsSound l c.automation env') (upkeep_of l env u)
  upkeep_of-IsSound u =
      one_if-IsSound l c.automation env' (env.accepts (maintenance u)) (maintenance u) tt

  upkeep_from-IsSound :
      (ts : List Task) (us : List Upkeep)
      → All (IsSound l c.automation env') ts
      → All (IsSound l c.automation env') (upkeep_from l env ts us)
  upkeep_from-IsSound ts [] h = h
  upkeep_from-IsSound ts (u ∷ us) h =
      upkeep_from-IsSound (ts ++ upkeep_of l env u) us
        (All-append (IsSound l c.automation env') ts (upkeep_of l env u) h (upkeep_of-IsSound u))

  day_tasks-IsSound :
      (r : Result (Day l.Iso)) → All (IsSound l c.automation env') (day_tasks l c env' r)
  day_tasks-IsSound (err e) = tt
  day_tasks-IsSound (ok d) =
      tasks_of-IsSound l c.automation env' (plan_day l c d prayer_names)
        (plan_day-IsTriggered l c d prayer_names)

  -- After a restart every automation job in the table belongs to an enabled trigger whose switches
  -- are on, and runs at an instant that was not past when the job was made.
  pub init_scheduler-IsSound :
      (s : Table) → All (IsSound l c.automation env') (tasks (init_scheduler l c env env' times s))
  init_scheduler-IsSound s =
      subst (All (IsSound l c.automation env')) (sym (tasks-init_scheduler l c env env' times s)) (
        All-append (IsSound l c.automation env') (upkeep_tasks l env) (day_tasks l c env' times)
          (upkeep_from-IsSound []
            (stale_check ∷ year_boundary ∷ health_check ∷ audio_assets ∷ midnight_refresh ∷ []) tt)
          (day_tasks-IsSound times))
