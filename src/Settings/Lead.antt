-- ===== src/Settings/Lead.antt =====
-- getMaxLeadTime of services/core/schedulerService.js and _getActiveTargets of
-- services/core/automationService.js, compared.
use azan_dashboard.Prelude.{
  String, ◌≡◌, refl, ap, ◌∙◌, true, some, List, [], ◌∷◌, ◌++◌, arith, ℤ, ltb_ℤ, ◌≤ℤ◌, All,
  All-append, if◌then◌else◌, Bool-cases, inl, inr, keep, map, sym, append-nil, append_assoc,
}
use azan_dashboard.Dict.{Dict}
use azan_dashboard.Prayer.{Prayer}
use azan_dashboard.Settings.{
  Event, Trigger, OutputConfig, AutomationConfig, find_trigger, is_enabled, lead_time, raise_lead,
  max_lead_from, get_max_lead_time, Target, ActiveTargets, activate, activate_all,
  get_active_targets, target_set,
}

module _ (outputs : Dict OutputConfig) where
  master_lead-activate :
      (a : ActiveTargets) (id : String)
      → (activate outputs a id).master_lead ≡ raise_lead outputs a.master_lead id
  unfolding activate raise_lead
  master_lead-activate a id = ground arith

  master_lead-activate_all :
      (a : ActiveTargets) (ids : List String)
      → (activate_all outputs a ids).master_lead ≡ max_lead_from outputs a.master_lead ids
  unfolding activate_all max_lead_from
  master_lead-activate_all a [] = refl
  master_lead-activate_all a (id ∷ ids) =
      master_lead-activate_all (activate outputs a id) ids
      ∙ ap (λ (x : ℤ). max_lead_from outputs x ids) (master_lead-activate a id)

  -- The lead of a target is at most the master lead.
  abbrev IsCovered : ℤ → Target → Type 0
  IsCovered m t = t.lead ≤ℤ m

  IsCovered-mono :
      (m n : ℤ) (ts : List Target) → m ≤ℤ n → All (IsCovered m) ts → All (IsCovered n) ts
  IsCovered-mono m n [] h k = tt
  IsCovered-mono m n (t ∷ ts) h (k, ks) = (omega arith, IsCovered-mono m n ts h ks)

  activate-IsCovered :
      (a : ActiveTargets) (id : String)
      → All (IsCovered a.master_lead) a.targets
      → All (IsCovered (activate outputs a id).master_lead) (activate outputs a id).targets
  unfolding activate
  activate-IsCovered a id h = elim (Bool-cases (is_enabled outputs id)) [
    | inr off ↦ rw off h
    | inl on ↦
        let m =
          if ltb_ℤ a.master_lead (lead_time outputs id)
          then lead_time outputs id
          else a.master_lead in
        rw on (
          All-append (IsCovered m) a.targets _
            (IsCovered-mono a.master_lead m a.targets (ground arith) h) (ground arith, tt))
  ]

  activate_all-IsCovered :
      (a : ActiveTargets) (ids : List String)
      → All (IsCovered a.master_lead) a.targets
      → All
          (IsCovered (activate_all outputs a ids).master_lead)
          (activate_all outputs a ids).targets
  unfolding activate_all
  activate_all-IsCovered a [] h = h
  activate_all-IsCovered a (id ∷ ids) h =
      activate_all-IsCovered (activate outputs a id) ids (activate-IsCovered a id h)

  -- The targets with their lead times, in the order of the set.
  abbrev pub as_target : String → Target
  as_target id = record { id = id; lead = lead_time outputs id }

  targets-activate_all :
      (a : ActiveTargets) (ids : List String)
      → (activate_all outputs a ids).targets
        ≡ a.targets ++ map as_target (keep (is_enabled outputs) ids)
  unfolding activate_all activate
  targets-activate_all a [] = sym (append-nil a.targets)
  targets-activate_all a (id ∷ ids) = elim (Bool-cases (is_enabled outputs id)) [
    | inr off ↦ rw (targets-activate_all (activate outputs a id) ids, off)
    | inl on ↦
        rw (targets-activate_all (activate outputs a id) ids, on)
          (append_assoc a.targets (as_target id ∷ [])
            (map as_target (keep (is_enabled outputs) ids)))
  ]

-- The scheduler starts an enabled event exactly as early as its automation then assumes.
pub get_max_lead_time-master :
    (c : AutomationConfig) (p : Prayer) (e : Event) (t : Trigger)
    → find_trigger c p e ≡ some t
    → t.enabled ≡ true
    → get_max_lead_time c p e ≡ (get_active_targets c t).master_lead
unfolding get_max_lead_time get_active_targets
get_max_lead_time-master c p e t found on =
    rw (found, on, get_max_lead_time)
      (sym (master_lead-activate_all c.outputs _ (target_set t.targets)))

-- No target's lead time exceeds the master lead, which is never negative.
pub get_active_targets-IsCovered :
    (c : AutomationConfig) (t : Trigger)
    → All (λ x. x.lead ≤ℤ (get_active_targets c t).master_lead) (get_active_targets c t).targets
unfolding get_active_targets
get_active_targets-IsCovered c t = activate_all-IsCovered c.outputs _ (target_set t.targets) tt

-- The active targets are the enabled ones of the set, in its order, each with its lead time.
pub targets-get_active_targets :
    (c : AutomationConfig) (t : Trigger)
    → (get_active_targets c t).targets
      ≡ map (as_target c.outputs) (keep (is_enabled c.outputs) (target_set t.targets))
unfolding get_active_targets
targets-get_active_targets c t = targets-activate_all c.outputs _ (target_set t.targets)
