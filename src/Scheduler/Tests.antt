-- ===== src/Scheduler/Tests.antt =====
-- Runs of services/core/schedulerService.js with the sample configuration.
use azan_dashboard.Prelude.{
  ℕ, ◌*ℤ◌, ◌≡◌, refl, Option, none, some, [], ◌++◌, ℤ, pos, ◌+ℤ◌, ◌-ℤ◌, arith, All,
}
use azan_dashboard.Result.{ok}
use azan_dashboard.Clock.Utc.{utc}
use azan_dashboard.Prayer.{Prayer, fajr, sunrise, dhuhr, asr, maghrib, isha, Row, prayer_names}
use azan_dashboard.Settings.{adhan, pre_iqamah, get_max_lead_time}
use azan_dashboard.Scheduler.Completeness.{Holds, Plans, init_scheduler-Holds}
use azan_dashboard.Iqamah.{calculate_iqamah, rounded, minutes_to_add}
use azan_dashboard.DayRows.{apply_overrides, build_prayer_rows, build_row, rows_of}
use azan_dashboard.Scheduler.{
  automation, Table, Due, plan_prayer, clear_jobs, schedule_event, iqamah_iso, plan_day, init_begin,
  init_finish, init_scheduler,
}
use azan_dashboard.Scheduler.Timing.{Outcome, schedule_event-Outcome}
use azan_dashboard.Scheduler.Tracking.{here, next, begins, finishes, clear_jobs-Reach}
use azan_dashboard.Scheduler.Plan.{IsTriggered, iqamah_iso-row, plan_day-IsTriggered}
use azan_dashboard.Scheduler.Overlap.{
  tasks, upkeep_tasks, day_tasks, tasks-init_scheduler, tasks-overlap,
}
use azan_dashboard.Scheduler.Soundness.{IsSound, init_scheduler-IsSound}
use azan_dashboard.Samples.{at, day, trigger, config, automation_config, scheduling}

abbrev empty_table : Table
empty_table = record { jobs = []; live = []; next_id = 0; caught_up = [] }

abbrev noon : Due utc
noon = record { at = at 12 0; prayer = dhuhr; event = adhan }

schedule_event-Outcome_sample :
    Outcome utc automation_config scheduling noon empty_table
      (schedule_event utc automation_config scheduling noon empty_table)
schedule_event-Outcome_sample =
    schedule_event-Outcome utc automation_config scheduling noon empty_table

abbrev row : ℕ → Option (Row ℤ)
row h = some (record { start = at h 0; iqamah = some (at h 20) })

abbrev rows : Prayer → Option (Row ℤ)
rows =
    rows_of utc (row 5) (some (record { start = at 6 0; iqamah = none })) (row 12) (row 15) (row 18)
      (row 20)

iqamah_iso-row_example : rows dhuhr ≡ some (record { start = at 12 0; iqamah = some (at 12 20) })
unfolding build_prayer_rows build_row apply_overrides iqamah_iso calculate_iqamah rounded
    minutes_to_add ◌+ℤ◌ ◌*ℤ◌
iqamah_iso-row_example =
    iqamah_iso-row utc config day rows dhuhr (at 12 0) (some (at 12 20)) refl refl refl

abbrev overlapped : Table
overlapped =
    init_finish utc config scheduling (ok day)
      (init_begin utc scheduling (init_begin utc scheduling empty_table))

clear_jobs-Reach_example : ((clear_jobs overlapped).live ≡ []) × ((clear_jobs overlapped).jobs ≡ [])
clear_jobs-Reach_example =
    clear_jobs-Reach utc empty_table overlapped (record { tracked = tt })
      (next
        (next (next here (begins scheduling empty_table))
          (begins scheduling (init_begin utc scheduling empty_table)))
        (finishes config scheduling (ok day)
          (init_begin utc scheduling (init_begin utc scheduling empty_table))))

plan_day-IsTriggered_sample :
    All (IsTriggered utc automation_config) (plan_day utc config day prayer_names)
plan_day-IsTriggered_sample = plan_day-IsTriggered utc config day prayer_names

tasks-init_scheduler_sample :
    tasks (init_scheduler utc config scheduling scheduling (ok day) overlapped)
    ≡ upkeep_tasks utc scheduling ++ day_tasks utc config scheduling (ok day)
tasks-init_scheduler_sample =
    tasks-init_scheduler utc config scheduling scheduling (ok day) overlapped

tasks-overlap_example :
    tasks (
      init_finish utc config scheduling (ok day) (
        init_finish utc config scheduling
          (ok day)
          (init_begin utc scheduling (init_begin utc scheduling empty_table))))
    ≡ upkeep_tasks utc scheduling
      ++ (day_tasks utc config scheduling (ok day) ++ day_tasks utc config scheduling (ok day))
tasks-overlap_example = tasks-overlap utc config scheduling scheduling (ok day) empty_table

init_scheduler-IsSound_example :
    All
      (IsSound utc automation_config scheduling)
      (tasks (init_scheduler utc config scheduling scheduling (ok day) empty_table))
init_scheduler-IsSound_example =
    init_scheduler-IsSound utc config scheduling scheduling (ok day) empty_table

plans : Plans utc config day
unfolding plan_prayer iqamah_iso calculate_iqamah rounded minutes_to_add ◌+ℤ◌ ◌*ℤ◌
plans fajr = (_, refl)
plans sunrise = (_, refl)
plans dhuhr = (_, refl)
plans asr = (_, refl)
plans maghrib = (_, refl)
plans isha = (_, refl)

-- Ten minutes before the iqamah of 12:20, less the longest lead time of an output that is on
init_scheduler-Holds_example :
    Holds
      (automation dhuhr pre_iqamah (at 12 10 -ℤ pos 2000))
      (tasks (init_scheduler utc config scheduling scheduling (ok day) empty_table))
unfolding iqamah_iso calculate_iqamah rounded minutes_to_add ◌+ℤ◌ ◌*ℤ◌ ◌-ℤ◌ get_max_lead_time
init_scheduler-Holds_example =
    init_scheduler-Holds utc config scheduling scheduling day empty_table dhuhr pre_iqamah
      (λ e. some trigger) trigger (at 12 0) (some (at 12 20)) (at 12 10) plans refl refl refl refl
      refl refl refl (ground arith) refl
