-- ===== src/Automation/Once.antt =====
-- The targets of an event in services/core/automationService.js: which outputs are started.
use azan_dashboard.Prelude.{
  ℕ, String, ◌≡◌, refl, ap, Bool, true, false, Option, none, some, List, [], ◌∷◌, ◌++◌, ◌||◌, arith,
  Option-cases, Bool-cases, inl, inr, ℤ, map, keep, eq_iff,
}
use azan_dashboard.Prayer.{Prayer}
use azan_dashboard.Settings.{
  Event, AutomationConfig, get_active_targets, is_enabled, target_set, member, add_all,
}
use azan_dashboard.Settings.Lead.{as_target, targets-get_active_targets}
use azan_dashboard.Automation.{
  Env, AudioSource, Launch, execute_target, execute_all, prepare_audio, trigger_event,
}
use azan_dashboard.Automation.OnTime.{trigger_event-IsLaunched}

abbrev pub IsDistinct : List String → Type 0
IsDistinct [] = Unit
IsDistinct (x ∷ xs) = (member x xs ≡ false) × IsDistinct xs

member-append :
    (x : String) (xs ys : List String) → member x (xs ++ ys) ≡ (member x xs || member x ys)
unfolding member
member-append x [] ys = refl
member-append x (y ∷ xs) ys = ground (arith, member-append x xs ys)

IsDistinct-concat :
    (xs : List String) (x : String)
    → member x xs ≡ false
    → IsDistinct xs
    → IsDistinct (xs ++ x ∷ [])
unfolding member
IsDistinct-concat [] x e h = ground arith
IsDistinct-concat (y ∷ xs) x e (f, h) = (
  ground (arith, member-append y xs (x ∷ []), eq_iff x y, eq_iff y x),
  IsDistinct-concat xs x (ground arith) h,
)

add_all-IsDistinct : (set xs : List String) → IsDistinct set → IsDistinct (add_all set xs)
unfolding add_all
add_all-IsDistinct set [] h = h
add_all-IsDistinct set (x ∷ xs) h = elim (Bool-cases (member x set)) [
  | inl old ↦ rw (old, add_all) (add_all-IsDistinct set xs h)
  | inr new ↦
      rw (new, add_all) (add_all-IsDistinct (set ++ x ∷ []) xs (IsDistinct-concat set x new h))
]

target_set-IsDistinct : (xs : List String) → IsDistinct (target_set xs)
unfolding target_set
target_set-IsDistinct xs = add_all-IsDistinct [] (xs ++ "browser" ∷ []) tt

member-keep :
    (p : String → Bool) (x : String) (xs : List String)
    → member x xs ≡ false
    → member x (keep p xs) ≡ false
unfolding member
member-keep p x [] e = refl
member-keep p x (y ∷ xs) e = ground (arith, member-keep p x xs)

keep-IsDistinct : (p : String → Bool) (xs : List String) → IsDistinct xs → IsDistinct (keep p xs)
keep-IsDistinct p [] h = tt
keep-IsDistinct p (x ∷ xs) (f, h) = elim (Bool-cases (p x)) [
  | inl e ↦ rw e (member-keep p x xs f, keep-IsDistinct p xs h)
  | inr e ↦ rw e (keep-IsDistinct p xs h)
]

abbrev pub ids : List Launch → List String
ids xs = map (λ x. x.id) xs

module _ (a : AutomationConfig) (env : Env) (source : Option AudioSource) (master : ℤ) where
  is_some : Option ℕ → Bool
  is_some none = false
  is_some (some n) = true

  unfoldable is_known : String → Bool
  unfolding is_some
  is_known id = is_some (env.timeout_of id)

  -- The launches' ids are those of the known strategies, in order.
  ids-execute_all :
      (xs : List String)
      → ids (execute_all env source master (map (as_target a.outputs) xs)) ≡ keep is_known xs
  unfolding execute_all execute_target is_known is_some
  ids-execute_all [] = refl
  ids-execute_all (x ∷ xs) =
      let rest = ids-execute_all xs in
      elim (Option-cases (env.timeout_of x)) [
        | inl unknown ↦
            let k : is_known x ≡ false = ap is_some unknown in rw (k, unknown, execute_target) rest
        | inr (n, known) ↦
            let k : is_known x ≡ true = ap is_some known in
            rw (k, known, execute_target) (ap (λ (t : List String). x ∷ t) rest)
      ]

-- An event starts no output twice, however often the configuration names it.
pub trigger_event-IsDistinct :
    (a : AutomationConfig) (env : Env) (p : Prayer) (e : Event)
    → IsDistinct (ids (trigger_event a env p e).0)
trigger_event-IsDistinct a env p e = elim (trigger_event-IsLaunched a env p e) [
  | inl quiet ↦ rw quiet tt
  | inr x ↦
      let source = (prepare_audio env x.trigger p e).source in
      let master = (get_active_targets a x.trigger).master_lead in
      let on = keep (is_enabled a.outputs) (target_set x.trigger.targets) in
      rw
        (x.launches, targets-get_active_targets a x.trigger, ids-execute_all a env source master on)
        (keep-IsDistinct (is_known a env source master) on (
          keep-IsDistinct (is_enabled a.outputs) (target_set x.trigger.targets)
            (target_set-IsDistinct x.trigger.targets)))
]
