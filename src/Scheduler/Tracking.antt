-- ===== src/Scheduler/Tracking.antt =====
-- services/core/schedulerService.js: the `jobs` array against the jobs live in node-schedule.
use azan_dashboard.Prelude.{
  ◌≡◌, refl, Bool, true, false, List, [], ◌∷◌, ◌++◌, arith, keep, any, All, All-append, Bool-cases,
  inl, inr,
}
use azan_dashboard.Result.{Result, ok, err}
use azan_dashboard.Clock.{Luxon}
use azan_dashboard.Prayer.{Day, prayer_names}
use azan_dashboard.Settings.{AutomationConfig, Config}
use azan_dashboard.Scheduler.{
  Upkeep, stale_check, year_boundary, health_check, audio_assets, midnight_refresh, maintenance,
  automation, Task, Job, Table, Due, Env, same_id, cancel, cancel_all, clear_jobs, add_job, fire,
  schedule_all, add_upkeep, schedule_maintenance_jobs, init_begin, init_finish, plan_day,
}
use azan_dashboard.Scheduler.Timing.{
  Outcome, switched_off, missed, caught, queued, schedule_event-Outcome, instant,
}

-- The job is in the list, by its identity.
abbrev pub IsListed : List Job → Job → Type 0
IsListed jobs j = any (same_id j) jobs ≡ true

pub record IsTracked (s : Table) : Type 0 where
  pub tracked : All (IsListed s.jobs) s.live

IsListed-append : (jobs more : List Job) (j : Job) → IsListed jobs j → IsListed (jobs ++ more) j
IsListed-append [] more j h = cc
IsListed-append (k ∷ jobs) more j h = ground (arith, IsListed-append jobs more j)

All-IsListed-append :
    (jobs more live : List Job) → All (IsListed jobs) live → All (IsListed (jobs ++ more)) live
All-IsListed-append jobs more [] h = tt
All-IsListed-append jobs more (j ∷ live) (h, hs) =
    (IsListed-append jobs more j h, All-IsListed-append jobs more live hs)

IsListed-last : (jobs : List Job) (j : Job) → IsListed (jobs ++ j ∷ []) j
IsListed-last [] j = ground arith
IsListed-last (k ∷ jobs) j = ground (arith, IsListed-last jobs j)

All-keep : (P : Job → Type 0) (q : Job → Bool) (js : List Job) → All P js → All P (keep q js)
All-keep P q [] h = tt
All-keep P q (j ∷ js) (h, hs) = elim (Bool-cases (q j)) [
  | inl e ↦ rw e (h, All-keep P q js hs)
  | inr e ↦ rw e (All-keep P q js hs)
]

add_job-IsTracked : (b : Bool) (t : Task) {s : Table} → IsTracked s → IsTracked (add_job b t s)
unfolding add_job
add_job-IsTracked false t h = h
add_job-IsTracked true t {s} h =
    let j : Job = record { id = s.next_id; task = t } in
    record {
      tracked =
          All-append (IsListed (s.jobs ++ j ∷ [])) s.live (j ∷ [])
            (All-IsListed-append s.jobs (j ∷ []) s.live h.tracked) (IsListed-last s.jobs j, tt);
    }

-- Cancelling a job leaves live jobs that are among the others.
cancel-IsListed :
    (j : Job) (js live : List Job)
    → All (IsListed (j ∷ js)) live
    → All (IsListed js) (cancel j live)
cancel-IsListed j js [] h = tt
cancel-IsListed j js (k ∷ live) (h, hs) = elim (Bool-cases (same_id j k)) [
  | inl same ↦ rw same (cancel-IsListed j js live hs)
  | inr other ↦ rw other (ground arith, cancel-IsListed j js live hs)
]

cancel_all-nil : (js live : List Job) → All (IsListed js) live → cancel_all js live ≡ []
unfolding cancel_all
cancel_all-nil [] [] h = refl
cancel_all-nil [] (k ∷ live) (h, hs) = absurd (ground arith)
cancel_all-nil (j ∷ js) live h = cancel_all-nil js (cancel j live) (cancel-IsListed j js live h)

-- Clearing a tracked table leaves nothing in node-schedule.
pub live-clear_jobs : (s : Table) → IsTracked s → (clear_jobs s).live ≡ []
unfolding clear_jobs
live-clear_jobs s h = cancel_all-nil s.jobs s.live h.tracked

clear_jobs-IsTracked : (s : Table) → IsTracked s → IsTracked (clear_jobs s)
clear_jobs-IsTracked s h = record { tracked = rw (live-clear_jobs s h) tt }

module _ (l : Luxon) where
  Outcome-IsTracked :
      (a : AutomationConfig) (env : Env l) (d : Due l) {s s' : Table}
      → Outcome l a env d s s'
      → IsTracked s
      → IsTracked s'
  Outcome-IsTracked a env d (switched_off off) h = h
  Outcome-IsTracked a env d (missed on past old) h = h
  Outcome-IsTracked a env d (caught on past recent) h = record { tracked = h.tracked }
  Outcome-IsTracked a env d (queued on later) h =
      let t = automation d.prayer d.event (instant l a d) in add_job-IsTracked (env.accepts t) t h

  schedule_all-IsTracked :
      (a : AutomationConfig) (env : Env l) (ds : List (Due l)) (s : Table)
      → IsTracked s
      → IsTracked (schedule_all l a env ds s)
  unfolding schedule_all
  schedule_all-IsTracked a env [] s h = h
  schedule_all-IsTracked a env (d ∷ ds) s h =
      schedule_all-IsTracked a env ds _
        (Outcome-IsTracked a env d (schedule_event-Outcome l a env d s) h)

  add_upkeep-IsTracked :
      (env : Env l) (u : Upkeep) {s : Table} → IsTracked s → IsTracked (add_upkeep l env u s)
  unfolding add_upkeep
  add_upkeep-IsTracked env u {s} h =
      add_job-IsTracked (env.accepts (maintenance u)) (maintenance u) h

  init_begin-IsTracked : (env : Env l) (s : Table) → IsTracked s → IsTracked (init_begin l env s)
  unfolding init_begin schedule_maintenance_jobs
  init_begin-IsTracked env s h =
      let ready = add_upkeep-IsTracked env stale_check (clear_jobs-IsTracked s h) in
      add_upkeep-IsTracked env midnight_refresh (
        add_upkeep-IsTracked env audio_assets
          (add_upkeep-IsTracked env health_check (add_upkeep-IsTracked env year_boundary ready)))

  init_finish-IsTracked :
      (c : Config) (env : Env l) (times : Result (Day l.Iso)) (s : Table)
      → IsTracked s
      → IsTracked (init_finish l c env times s)
  unfolding init_finish
  init_finish-IsTracked c env (err e) s h = h
  init_finish-IsTracked c env (ok d) s h =
      schedule_all-IsTracked c.automation env (plan_day l c d prayer_names) s h

  fire-IsTracked : (j : Job) (s : Table) → IsTracked s → IsTracked (fire j s)
  unfolding fire
  fire-IsTracked j s h = record { tracked = All-keep (IsListed s.jobs) _ s.live h.tracked }

  -- What can happen to the table: the two halves of any number of overlapping restarts, the firing
  -- of jobs, and a stop.
  pub data Step : Table → Table → Type 0 where
    begins : (env : Env l) (s : Table) → Step s (init_begin l env s)
    finishes :
        (c : Config) (env : Env l) (times : Result (Day l.Iso)) (s : Table)
        → Step s (init_finish l c env times s)
    fires : (j : Job) (s : Table) → Step s (fire j s)
    stops : (s : Table) → Step s (clear_jobs s)

  pub data Reach (s : Table) : Table → Type 0 where
    here : Reach s s
    next : {t u : Table} → Reach s t → Step t u → Reach s u

  Step-IsTracked : {s t : Table} → Step s t → IsTracked s → IsTracked t
  Step-IsTracked (begins env s) h = init_begin-IsTracked env s h
  Step-IsTracked (finishes c env times s) h = init_finish-IsTracked c env times s h
  Step-IsTracked (fires j s) h = fire-IsTracked j s h
  Step-IsTracked (stops s) h = clear_jobs-IsTracked s h

  pub Reach-IsTracked : {s t : Table} → Reach s t → IsTracked s → IsTracked t
  Reach-IsTracked here h = h
  Reach-IsTracked (next r st) h = Step-IsTracked st (Reach-IsTracked r h)

  -- Whatever restarts, firings and stops came before, in any interleaving, stopping the scheduler
  -- leaves no job in node-schedule and none in the table.
  pub clear_jobs-Reach :
      (s t : Table)
      → IsTracked s
      → Reach s t
      → ((clear_jobs t).live ≡ []) × ((clear_jobs t).jobs ≡ [])
  unfolding clear_jobs
  clear_jobs-Reach s t h r = (live-clear_jobs t (Reach-IsTracked r h), refl)
