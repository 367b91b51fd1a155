-- ===== src/Automation/OnTime.antt =====
-- triggerEvent of services/core/automationService.js together with scheduleEvent of
-- services/core/schedulerService.js: when the launches of an event begin.
use azan_dashboard.Prelude.{
  ℕ, String, ◌≡◌, refl, sym, true, Option, some, List, [], ◌∷◌, arith, ◌<◌, All, All-append,
  Option-cases, Bool-cases, inl, inr, ℤ, pos, ◌+ℤ◌, ◌-ℤ◌, ◌≤ℤ◌, ◌<ℤ◌, +ℤ_parts, int_laws, map, keep,
  ◌⊎◌,
}
use mathlib.Core.Path.{subst}
use azan_dashboard.Clock.{Luxon, HasMillis}
use azan_dashboard.Prayer.{Prayer}
use azan_dashboard.Settings.{
  Event, Trigger, AutomationConfig, find_trigger, Target, get_active_targets, lead_time, is_enabled,
  target_set, get_max_lead_time,
}
use azan_dashboard.Settings.Lead.{
  as_target, get_max_lead_time-master, get_active_targets-IsCovered, targets-get_active_targets,
}
use azan_dashboard.Scheduler.{Due}
use azan_dashboard.Scheduler.Timing.{instant}
use azan_dashboard.Automation.{
  Env, AudioSource, Launch, execute_target, execute_all, prepare_audio, timeout_ms, trigger_event,
}

timeout-later : (n : ℕ) (wait : ℤ) → wait <ℤ pos (timeout_ms n) +ℤ wait
timeout-later n wait =
    let later : 0 < timeout_ms n = ground arith in omega (arith, +ℤ_parts (pos (timeout_ms n)) wait)

module _ (a : AutomationConfig) (env : Env) where
  -- The launch waits for the rest of the master lead, which is not negative, and its abort comes
  -- after its start.
  abbrev pub IsStaggered : ℤ → Launch → Type 0
  IsStaggered master x =
      (x.wait ≡ master -ℤ lead_time a.outputs x.id) × (pos 0 ≤ℤ x.wait) × (x.wait <ℤ x.deadline)

  -- A target with its own lead time, which the master lead covers.
  abbrev IsOwn : ℤ → Target → Type 0
  IsOwn master t = (t.lead ≡ lead_time a.outputs t.id) × (t.lead ≤ℤ master)

  execute_target-IsStaggered :
      (source : Option AudioSource) (master : ℤ) (t : Target)
      → IsOwn master t
      → All (IsStaggered master) (execute_target env source master t)
  unfolding execute_target
  execute_target-IsStaggered source master t (own, covered) =
      elim (Option-cases (env.timeout_of t.id)) [
        | inl unknown ↦ rw (unknown, execute_target) tt
        | inr (n, known) ↦
            rw (known, execute_target)
              ((rw own, omega int_laws, timeout-later n (master -ℤ t.lead)), tt)
      ]

  execute_all-IsStaggered :
      (source : Option AudioSource) (master : ℤ) (ts : List Target)
      → All (IsOwn master) ts
      → All (IsStaggered master) (execute_all env source master ts)
  unfolding execute_all
  execute_all-IsStaggered source master [] h = tt
  execute_all-IsStaggered source master (t ∷ ts) (h, hs) =
      All-append (IsStaggered master) (execute_target env source master t)
        (execute_all env source master ts) (execute_target-IsStaggered source master t h)
        (execute_all-IsStaggered source master ts hs)

  All-as_target :
      (master : ℤ) (ids : List String)
      → All (λ t. t.lead ≤ℤ master) (map (as_target a.outputs) ids)
      → All (IsOwn master) (map (as_target a.outputs) ids)
  All-as_target master [] h = tt
  All-as_target master (id ∷ ids) (h, hs) = ((refl, h), All-as_target master ids hs)

  active-IsOwn :
      (t : Trigger)
      → All (IsOwn (get_active_targets a t).master_lead) (get_active_targets a t).targets
  active-IsOwn t =
      let m = (get_active_targets a t).master_lead in
      let same = targets-get_active_targets a t in
      subst (All (IsOwn m)) (sym same) (
        All-as_target m (keep (is_enabled a.outputs) (target_set t.targets))
          (subst (All (λ x. x.lead ≤ℤ m)) same (get_active_targets-IsCovered a t)))

  -- The launches of an event: none, or those of a trigger that is enabled and whose audio is ready.
  pub record IsLaunched (p : Prayer) (e : Event) : Type 0 where
    pub trigger : Trigger
    pub found : find_trigger a p e ≡ some trigger
    pub enabled : trigger.enabled ≡ true
    pub ready : (prepare_audio env trigger p e).success ≡ true
    pub launches :
        (trigger_event a env p e).0
        ≡ execute_all env
            (prepare_audio env trigger p e).source
            (get_active_targets a trigger).master_lead
            (get_active_targets a trigger).targets

  pub trigger_event-IsLaunched :
      (p : Prayer) (e : Event) → ((trigger_event a env p e).0 ≡ []) ⊎ IsLaunched p e
  unfolding trigger_event
  trigger_event-IsLaunched p e = elim (Option-cases (find_trigger a p e)) [
    | inl missing ↦ inl (ground arith)
    | inr (t, found) ↦ elim (Bool-cases t.enabled) [
      | inr off ↦ inl (ground arith)
      | inl on ↦ elim (Bool-cases (prepare_audio env t p e).success) [
        | inr refused ↦ inl (ground arith)
        | inl ready ↦ inr (record {
          trigger = t;
          found = found;
          enabled = on;
          ready = ready;
          launches = ground arith;
        })
      ]
    ]
  ]

  trigger_event-IsStaggered :
      (p : Prayer) (e : Event)
      → All (IsStaggered (get_max_lead_time a p e)) (trigger_event a env p e).0
  trigger_event-IsStaggered p e = elim (trigger_event-IsLaunched p e) [
    | inl quiet ↦ rw quiet tt
    | inr x ↦
        let active = get_active_targets a x.trigger in
        let source = (prepare_audio env x.trigger p e).source in
        rw (get_max_lead_time-master a p e x.trigger x.found x.enabled, x.launches)
          (execute_all-IsStaggered source active.master_lead active.targets
            (active-IsOwn x.trigger))
  ]

-- From the schedule to the speakers.
module _ (l : Luxon) (laws : HasMillis l) (a : AutomationConfig) (env : Env) (d : Due l) where
  -- Started when the event's job runs, a launch begins its target's own lead time before the event.
  abbrev pub IsOnTime : Launch → Type 0
  IsOnTime x =
      (instant l a d +ℤ x.wait ≡ l.millis d.at -ℤ lead_time a.outputs x.id)
      × (pos 0 ≤ℤ x.wait)
      × (x.wait <ℤ x.deadline)

  staggered-IsOnTime :
      (x : Launch) → IsStaggered a env (get_max_lead_time a d.prayer d.event) x → IsOnTime x
  staggered-IsOnTime x (wait, soon, live) =
      let master = get_max_lead_time a d.prayer d.event in
      (rw (laws.millis-minus master d.at, wait) (omega int_laws), soon, live)

  All-staggered :
      (xs : List Launch)
      → All (IsStaggered a env (get_max_lead_time a d.prayer d.event)) xs
      → All IsOnTime xs
  All-staggered [] h = tt
  All-staggered (x ∷ xs) (h, hs) = (staggered-IsOnTime x h, All-staggered xs hs)

  -- When the job of an event runs at its instant, every output that is started waits for the rest of
  -- the longest lead time, so that it begins exactly its own lead time before the event's date, the
  -- time that the audio takes to prepare left out; the wait is never negative, and the abort of an
  -- output always comes after its start.
  pub trigger_event-IsOnTime : All IsOnTime (trigger_event a env d.prayer d.event).0
  trigger_event-IsOnTime =
      All-staggered (trigger_event a env d.prayer d.event).0
        (trigger_event-IsStaggered a env d.prayer d.event)
