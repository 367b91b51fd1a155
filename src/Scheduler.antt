-- ===== src/Scheduler.antt =====
-- services/core/schedulerService.js: the job table, the events of a day, and the start of the
-- scheduler. node-schedule is modelled by the jobs that are live in it: `scheduleJob` adds one, or
-- refuses, as `accepts` says; `cancel` and the firing of a one-time job take it out.
pub mod Plan
pub mod Tracking
pub mod Timing
pub mod Overlap
pub mod Soundness
pub mod Completeness
mod Tests
use azan_dashboard.Prelude.{
  ℕ, suc, ◌==◌, String, Bool, true, false, not, ◌&&◌, Option, none, some, List, [], ◌∷◌, ◌++◌,
  if◌then◌else◌, ℤ, pos, ltb_ℤ, leb_ℤ, ◌-ℤ◌, keep, or_else, any,
}
use azan_dashboard.Result.{Result, ok, err, Error, ◌>>=◌}
use azan_dashboard.Clock.{Luxon}
use azan_dashboard.Prayer.{Prayer, sunrise, PrayerSetting, Day, prayer_names}
use azan_dashboard.Settings.{
  Event, pre_adhan, adhan, pre_iqamah, iqamah, Trigger, GlobalSwitches, AutomationConfig, Config,
  get_max_lead_time,
}
use azan_dashboard.Iqamah.{calculate_iqamah}
use azan_dashboard.DayRows.{is_sunrise}

-- utils/jobConstants.js
pub data Upkeep : Type 0 where
  stale_check year_boundary health_check audio_assets midnight_refresh : Upkeep

-- `job.category` with `job.jobName`: a maintenance job, or an event at an instant
pub data Task : Type 0 where
  maintenance : Upkeep → Task
  automation : Prayer → Event → ℤ → Task

pub record Job : Type 0 where
  pub id : ℕ
  pub task : Task

-- `jobs`, the jobs live in node-schedule, the next identity, and the events that were triggered at
-- once, oldest first.
pub record Table : Type 0 where
  pub jobs : List Job
  pub live : List Job
  pub next_id : ℕ
  pub caught_up : List (Prayer × Event)

abbrev pub same_id : Job → Job → Bool
same_id j k = j.id == k.id

-- `j.cancel()`
abbrev pub cancel : Job → List Job → List Job
cancel j live = keep (λ k. not (same_id j k)) live

unfoldable pub cancel_all : List Job → List Job → List Job
cancel_all [] live = live
cancel_all (j ∷ js) live = cancel_all js (cancel j live)

unfoldable pub clear_jobs : Table → Table
unfolding cancel_all
clear_jobs s = record s { jobs = []; live = cancel_all s.jobs s.live }

-- `schedule.scheduleJob(…)` with `jobs.push(job)` where it returned a job
unfoldable pub add_job : Bool → Task → Table → Table
add_job false t s = s
add_job true t s =
    let j : Job = record { id = s.next_id; task = t } in
    record s { jobs = s.jobs ++ j ∷ []; live = s.live ++ j ∷ []; next_id = suc s.next_id }

-- A one-time job runs, and is no longer live.
unfoldable pub fire : Job → Table → Table
fire j s = record s { live = cancel j s.live }

abbrev pub is_automation : Job → Bool
is_automation j = elim j.task [ maintenance u ↦ false | automation p e t ↦ true ]

-- getJobs, before the formatting
unfoldable pub get_jobs : Table → List Job × List Job
get_jobs s = (keep (λ j. not (is_automation j)) s.jobs, keep is_automation s.jobs)

-- The global switches: only an explicit `false` stops an event.
abbrev pub is_switched_on : AutomationConfig → Event → Bool
is_switched_on a e = elim a.switches [ none ↦ true | some g ↦ g.enabled && g.event_enabled e ]

-- An event of the day with the time at which it is due.
pub record Due (l : Luxon) : Type 0 where
  pub at : l.DateTime
  pub prayer : Prayer
  pub event : Event

-- The clock, and what node-schedule accepts.
pub record Env (l : Luxon) : Type 0 where
  pub now : l.DateTime
  pub accepts : Task → Bool

module _ (l : Luxon) where
  open l use {Iso, DateTime, from_iso, set_zone, minus_minutes, minus_millis, millis}

  -- The date of an event moved forward by the longest lead time.
  abbrev pub adjusted : AutomationConfig → Due l → DateTime
  adjusted a d = minus_millis (get_max_lead_time a d.prayer d.event) d.at

  unfoldable pub schedule_event : AutomationConfig → Env l → Due l → Table → Table
  unfolding add_job
  schedule_event a env d s =
      let at = millis (adjusted a d) in
      if is_switched_on a d.event
      then (if ltb_ℤ at (millis env.now)
          then (if leb_ℤ (millis env.now -ℤ at) (pos 60000)
              then record s { caught_up = s.caught_up ++ (d.prayer, d.event) ∷ [] }
              else s)
          else (let t = automation d.prayer d.event at in add_job (env.accepts t) t s))
      else s

  -- The iqamah of a prayer: the source's unless it is overridden, or else a calculated one.
  abbrev pub source_or_calculated :
      Option PrayerSetting → Option Iso → Iso → String → Result (Option Iso)
  source_or_calculated none given start zone = ok given
  source_or_calculated (some s) none start zone = do
    i ← calculate_iqamah l (some start) (some s) zone
    ok (some i)
  source_or_calculated (some s) (some g) start zone = elim s.iqamah_override [
    | false ↦ ok (some g)
    | true ↦ do i ← calculate_iqamah l (some start) (some s) zone; ok (some i)
  ]

  -- `none` is `null`, as it is at sunrise.
  unfoldable pub iqamah_iso : Config → Day Iso → Iso → Prayer → Result (Option Iso)
  iqamah_iso c d start p =
      if is_sunrise p
      then ok none
      else source_or_calculated (c.prayers p) (d.iqamah p) start c.timezone

  -- A trigger that is there and enabled schedules its event.
  abbrev pub due_if : Option Trigger → DateTime → Prayer → Event → List (Due l)
  due_if none at p e = []
  due_if (some t) at p e =
      if t.enabled then (record { at = at; prayer = p; event = e }) ∷ [] else []

  -- `offsetMinutes || 0`
  abbrev pub offset_of : Option Trigger → ℕ
  offset_of none = 0
  offset_of (some t) = elim t.offset_minutes [ none ↦ 0 | some n ↦ n ]

  abbrev pub iqamah_events : (Event → Option Trigger) → Option DateTime → Prayer → List (Due l)
  iqamah_events events none p = []
  iqamah_events events (some at) p =
      due_if (events iqamah) at p iqamah
      ++ due_if (events pre_iqamah) (minus_minutes (offset_of (events pre_iqamah)) at) p pre_iqamah

  -- The events of one prayer, in the order in which they are scheduled.
  unfoldable pub events_of :
      (Event → Option Trigger) → DateTime → Option DateTime → Prayer → List (Due l)
  events_of events start iq p =
      due_if (events adhan) start p adhan
      ++ (due_if (events pre_adhan) (minus_minutes (offset_of (events pre_adhan)) start) p pre_adhan
          ++ iqamah_events events iq p)

  -- An ISO text as a date in the configured zone
  abbrev pub local : String → Iso → DateTime
  local zone iso = set_zone zone (from_iso iso)

  abbrev pub local_option : String → Option Iso → Option DateTime
  local_option zone none = none
  local_option zone (some iso) = some (local zone iso)

  -- One round of the loop over the prayers; `continue` is an empty list.
  unfoldable pub plan_prayer : Config → Day Iso → Prayer → Result (List (Due l))
  plan_prayer c d p = elim (c.automation.triggers p) [
    | none ↦ ok []
    | some events ↦ elim (d.time p) [
      | none ↦ ok []
      | some start ↦ do
        i ← iqamah_iso c d start p
        ok (events_of events (local c.timezone start) (local_option c.timezone i) p)
    ]
  ]

  -- The loop: an exception ends it, after the events of the earlier prayers.
  unfoldable pub plan_day : Config → Day Iso → List Prayer → List (Due l)
  unfolding plan_prayer
  plan_day c d [] = []
  plan_day c d (p ∷ ps) =
      let rest = plan_day c d ps in elim (plan_prayer c d p) [ err e ↦ [] | ok due ↦ due ++ rest ]

  unfoldable pub schedule_all : AutomationConfig → Env l → List (Due l) → Table → Table
  unfolding schedule_event
  schedule_all a env [] s = s
  schedule_all a env (d ∷ ds) s = schedule_all a env ds (schedule_event a env d s)

  add_upkeep : Env l → Upkeep → Table → Table
  unfolding add_job
  add_upkeep env u s = add_job (env.accepts (maintenance u)) (maintenance u) s

  -- scheduleMaintenanceJobs
  unfoldable pub schedule_maintenance_jobs : Env l → Table → Table
  unfolding add_upkeep
  schedule_maintenance_jobs env s = add_upkeep env midnight_refresh (
      add_upkeep env audio_assets
        (add_upkeep env health_check (add_upkeep env year_boundary (add_upkeep env stale_check s))))

  -- initScheduler up to its `await`, and after it with the answer of getPrayerTimes
  unfoldable pub init_begin : Env l → Table → Table
  unfolding clear_jobs schedule_maintenance_jobs
  init_begin env s = schedule_maintenance_jobs env (clear_jobs s)

  unfoldable pub init_finish : Config → Env l → Result (Day Iso) → Table → Table
  unfolding schedule_all plan_day
  init_finish c env (err e) s = s
  init_finish c env (ok d) s = schedule_all c.automation env (plan_day c d prayer_names) s

  unfoldable pub init_scheduler : Config → Env l → Env l → Result (Day Iso) → Table → Table
  unfolding init_begin init_finish
  init_scheduler c env env' times s = init_finish c env' times (init_begin env s)
