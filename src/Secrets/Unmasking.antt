-- ===== src/Secrets/Unmasking.antt =====
-- unmaskParams of utils/configUnmasker.js: what becomes of each sensitive key of one object.
use azan_dashboard.Prelude.{
  String, ◌≡◌, refl, ap, ◌∙◌, true, false, inl, inr, Option, none, some, List, [], ◌∷◌, arith,
  str_eq, eq_iff, if◌then◌else◌, Bool-cases,
}
use azan_dashboard.Settings.{member}
use azan_dashboard.Json.{Value, Members, get, truthy}
use azan_dashboard.Json.Fields.{get-put, get-erase}
use azan_dashboard.Secrets.{is_masked, unmask_key, unmask_params}
-- What may be saved of a sensitive value: no text but an empty, a masked or an encrypted one
use azan_dashboard.Secrets.Processing.{pass, pass-member}

-- What an unmasked key becomes
module _ (current : Option Members) where
  abbrev pub now : String → Option Value
  now name = elim current [ none ↦ none | some m ↦ get name m ]

  abbrev pub kept_value : Option Value → Option Value
  kept_value none = none
  kept_value (some v) = if truthy v then some v else none

  unfoldable pub restored : String → Option Value → Option Value
  unfolding is_masked
  restored name v = if is_masked v then kept_value (now name) else v

  get-unmask_key :
      (name other : String) (params : Members)
      → get other (unmask_key current name params)
        ≡ (if str_eq name other then restored name (get other params) else get other params)
  unfolding unmask_key restored is_masked
  get-unmask_key name other params = elim (Bool-cases (str_eq name other)) [
    | inl own ↦
        grind (arith, get-put, get-erase, eq_iff name other, ap (λ (x : String). get x params))
    | inr apart ↦ grind (arith, get-put, get-erase)
  ]

  pub get-unmask_params :
      (names : List String) (other : String) (params : Members)
      → get other (unmask_params current names params)
        ≡ pass (restored other) names other (get other params)
  unfolding unmask_params
  get-unmask_params [] other params = refl
  get-unmask_params (name ∷ names) other params =
      let v = get other params in
      let own : (if str_eq name other then restored name v else v)
          ≡ (if str_eq name other then restored other v else v) =
        ground (arith, eq_iff name other, ap (λ (x : String). restored x v)) in
      get-unmask_params names other (unmask_key current name params)
      ∙ ap (pass (restored other) names other) (get-unmask_key name other params ∙ own)

  restored_idem :
      (name : String) (v : Option Value)
      → is_masked (kept_value (now name)) ≡ false
      → restored name (restored name v) ≡ restored name v
  unfolding restored
  restored_idem name v h = grind arith

  -- A sensitive parameter that comes back masked takes the current value, or goes if there is none;
  -- one that is not masked is kept. If the current value is not itself the mask, none is left masked.
  pub unmask_params-restored :
      (names : List String) (params : Members) (name : String)
      → member name names ≡ true
      → is_masked (kept_value (now name)) ≡ false
      → (get name (unmask_params current names params)
          ≡ (if is_masked (get name params) then kept_value (now name) else get name params))
        × (is_masked (get name (unmask_params current names params)) ≡ false)
  unfolding restored
  unmask_params-restored names params name own genuine =
      let same =
        get-unmask_params names name params
        ∙ pass-member (restored name) names name (get name params)
            (restored_idem name (get name params) genuine) own in
      (
        same,
        ap is_masked same ∙ elim (Bool-cases (is_masked (get name params))) [
          | inl hidden ↦ rw hidden genuine
          | inr shown ↦ rw shown shown
        ],
      )
