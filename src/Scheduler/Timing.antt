-- ===== src/Scheduler/Timing.antt =====
-- scheduleEvent of services/core/schedulerService.js: what happens to one event.
use azan_dashboard.Prelude.{
  ◌≡◌, true, false, [], ◌∷◌, ◌++◌, arith, Bool-cases, inl, inr, ℤ, pos, ◌-ℤ◌, ◌≤ℤ◌, ◌<ℤ◌, ltb_ℤ,
  leb_ℤ,
}
use azan_dashboard.Clock.{Luxon}
use azan_dashboard.Settings.{AutomationConfig}
use azan_dashboard.Scheduler.{
  Table, automation, Due, Env, add_job, is_switched_on, adjusted, schedule_event,
}

-- The instant at which the event's job is to run.
abbrev pub instant : (l : Luxon) → AutomationConfig → Due l → ℤ
instant l a d = l.millis (adjusted l a d)

module _ (l : Luxon) (a : AutomationConfig) (env : Env l) (d : Due l) where
  -- The four ways in which `scheduleEvent` goes.
  pub data Outcome (s : Table) : Table → Type 0 where
    switched_off : is_switched_on a d.event ≡ false → Outcome s s
    missed :
        is_switched_on a d.event ≡ true
        → instant l a d <ℤ l.millis env.now
        → pos 60000 <ℤ l.millis env.now -ℤ instant l a d
        → Outcome s s
    caught :
        is_switched_on a d.event ≡ true
        → instant l a d <ℤ l.millis env.now
        → l.millis env.now -ℤ instant l a d ≤ℤ pos 60000
        → Outcome s (record s { caught_up = s.caught_up ++ (d.prayer, d.event) ∷ [] })
    queued :
        is_switched_on a d.event ≡ true
        → l.millis env.now ≤ℤ instant l a d
        → Outcome s (
            add_job
              (env.accepts (automation d.prayer d.event (instant l a d)))
              (automation d.prayer d.event (instant l a d))
              s)

  -- An event whose switch is off is dropped. Of the others, one whose instant (its date moved
  -- forward by the longest lead time) is past is triggered at once if that is at most 60 seconds ago
  -- and dropped if it is longer; one whose instant is not past becomes a job at that instant, if
  -- node-schedule accepts it.
  pub schedule_event-Outcome : (s : Table) → Outcome s (schedule_event l a env d s)
  unfolding schedule_event
  schedule_event-Outcome s = elim (Bool-cases (is_switched_on a d.event)) [
    | inr off ↦ rw off (switched_off off)
    | inl on ↦ elim (Bool-cases (ltb_ℤ (instant l a d) (l.millis env.now))) [
      | inr later ↦ rw (on, later) (queued on (ground arith))
      | inl past ↦ elim (Bool-cases (leb_ℤ (l.millis env.now -ℤ instant l a d) (pos 60000))) [
        | inl recent ↦ rw (on, past, recent) (caught on (ground arith) (ground arith))
        | inr old ↦ rw (on, past, old) (missed on (ground arith) (ground arith))
      ]
    ]
  ]
