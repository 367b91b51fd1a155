-- ===== src/Scheduler/Overlap.antt =====
-- initScheduler of services/core/schedulerService.js: the jobs in the table after one restart, and
-- after two that overlap.
use azan_dashboard.Prelude.{
  ◌≡◌, ap, sym, ◌∙◌, Bool, true, false, List, [], ◌∷◌, ◌++◌, arith, map, append_assoc, append-nil,
  if◌then◌else◌, ltb_ℤ, map-append,
}
use azan_dashboard.Result.{Result, ok, err}
use azan_dashboard.Clock.{Luxon}
use azan_dashboard.Prayer.{Day, prayer_names}
use azan_dashboard.Settings.{AutomationConfig, Config}
use azan_dashboard.Scheduler.{
  Upkeep, stale_check, year_boundary, health_check, audio_assets, midnight_refresh, maintenance,
  automation, Task, Table, Due, Env, clear_jobs, add_job, is_switched_on, schedule_event,
  schedule_all, add_upkeep, schedule_maintenance_jobs, init_begin, init_finish, init_scheduler,
  plan_day,
}
use azan_dashboard.Scheduler.Timing.{instant}

abbrev pub tasks : Table → List Task
tasks s = map (λ j. j.task) s.jobs

abbrev pub one_if : Bool → Task → List Task
one_if b t = if b then t ∷ [] else []

tasks-add_job : (b : Bool) (t : Task) (s : Table) → tasks (add_job b t s) ≡ tasks s ++ one_if b t
unfolding add_job
tasks-add_job false t s = sym (append-nil (tasks s))
tasks-add_job true t s = map-append (λ j. j.task) s.jobs _

module _ (l : Luxon) where
  -- The job that an event becomes, if any.
  abbrev pub task_of : AutomationConfig → Env l → Due l → List Task
  task_of a env d =
      let t = automation d.prayer d.event (instant l a d) in
      if is_switched_on a d.event
      then (if ltb_ℤ (instant l a d) (l.millis env.now) then [] else one_if (env.accepts t) t)
      else []

  abbrev pub tasks_of : AutomationConfig → Env l → List (Due l) → List Task
  tasks_of a env [] = []
  tasks_of a env (d ∷ ds) = task_of a env d ++ tasks_of a env ds

  tasks-schedule_event :
      (a : AutomationConfig) (env : Env l) (d : Due l) (s : Table)
      → tasks (schedule_event l a env d s) ≡ tasks s ++ task_of a env d
  unfolding schedule_event
  tasks-schedule_event a env d s =
      let t = automation d.prayer d.event (instant l a d) in
      ground (arith, tasks-add_job (env.accepts t) t s, append-nil (tasks s))

  tasks-schedule_all :
      (a : AutomationConfig) (env : Env l) (ds : List (Due l)) (s : Table)
      → tasks (schedule_all l a env ds s) ≡ tasks s ++ tasks_of a env ds
  unfolding schedule_all
  tasks-schedule_all a env [] s = sym (append-nil (tasks s))
  tasks-schedule_all a env (d ∷ ds) s =
      tasks-schedule_all a env ds (schedule_event l a env d s)
      ∙ ap (λ (x : List Task). x ++ tasks_of a env ds) (tasks-schedule_event a env d s)
      ∙ append_assoc (tasks s) (task_of a env d) (tasks_of a env ds)

  abbrev pub upkeep_of : Env l → Upkeep → List Task
  upkeep_of env u = one_if (env.accepts (maintenance u)) (maintenance u)

  abbrev pub upkeep_from : Env l → List Task → List Upkeep → List Task
  upkeep_from env ts [] = ts
  upkeep_from env ts (u ∷ us) = upkeep_from env (ts ++ upkeep_of env u) us

  -- The maintenance jobs, in their order.
  abbrev pub upkeep_tasks : Env l → List Task
  upkeep_tasks env =
      upkeep_from env []
        (stale_check ∷ year_boundary ∷ health_check ∷ audio_assets ∷ midnight_refresh ∷ [])

  tasks-init_begin : (env : Env l) (s : Table) → tasks (init_begin l env s) ≡ upkeep_tasks env
  unfolding init_begin schedule_maintenance_jobs add_upkeep clear_jobs
  tasks-init_begin env s = simp tasks-add_job

  -- What is planned for the day and not past becomes jobs.
  abbrev pub day_tasks : Config → Env l → Result (Day l.Iso) → List Task
  day_tasks c env (err e) = []
  day_tasks c env (ok d) = tasks_of c.automation env (plan_day l c d prayer_names)

  tasks-init_finish :
      (c : Config) (env : Env l) (times : Result (Day l.Iso)) (s : Table)
      → tasks (init_finish l c env times s) ≡ tasks s ++ day_tasks c env times
  unfolding init_finish
  tasks-init_finish c env (err e) s = sym (append-nil (tasks s))
  tasks-init_finish c env (ok d) s =
      tasks-schedule_all c.automation env (plan_day l c d prayer_names) s

  -- A restart that is not interrupted leaves the maintenance jobs and the jobs of the day's events
  -- that are not past, whatever jobs there were before.
  pub tasks-init_scheduler :
      (c : Config) (env env' : Env l) (times : Result (Day l.Iso)) (s : Table)
      → tasks (init_scheduler l c env env' times s) ≡ upkeep_tasks env ++ day_tasks c env' times
  unfolding init_scheduler
  tasks-init_scheduler c env env' times s =
      tasks-init_finish c env' times (init_begin l env s)
      ∙ ap (λ (x : List Task). x ++ day_tasks c env' times) (tasks-init_begin env s)

  -- Two restarts that overlap, the second beginning while the first waits for the prayer times,
  -- leave every automation job of the day twice.
  pub tasks-overlap :
      (c : Config) (env env' : Env l) (times : Result (Day l.Iso)) (s : Table)
      → tasks (
          init_finish l c env' times
            (init_finish l c env' times (init_begin l env (init_begin l env s))))
        ≡ upkeep_tasks env ++ (day_tasks c env' times ++ day_tasks c env' times)
  tasks-overlap c env env' times s =
      simp (tasks-init_finish, tasks-init_begin)
        (append_assoc (upkeep_tasks env) (day_tasks c env' times) (day_tasks c env' times))
