-- ===== src/Controllers/Masking/Restored.antt =====
-- Masking and unmasking: controllers/settingsController.js and utils/configUnmasker.js.
use azan_dashboard.Prelude.{
  String, true, false, ◌≡◌, refl, ap, sym, ◌∙◌, Option, none, some, List, [], ◌∷◌, arith, str_eq,
  eq_iff, if◌then◌else◌, Bool-cases, Option-cases, inl, inr, eq_refl,
}
use mathlib.Core.Path.{subst}
use azan_dashboard.Result.{Error, ok, err, ok-injective}
use azan_dashboard.Settings.{member as contains}
use azan_dashboard.Json.{
  Value, null, bool, num, str, arr, obj, Members, get, member, on_object, in_member, map_members,
  truthy_option,
}
use azan_dashboard.Json.Fields.{
  get-put, get-in_member, at_key, on_option, member-on_option, member-map_members,
}
use azan_dashboard.Registry.{Metadata, sensitive_keys, Strategies, Providers, get_strategy}
use azan_dashboard.Secrets.{masked, is_masked, unmask_params}
use azan_dashboard.Secrets.Processing.{pass, pass-other, pass-member}
use azan_dashboard.Secrets.Unmasking.{kept_value, restored, get-unmask_params}
use azan_dashboard.Store.{output_of}
use azan_dashboard.Store.Saving.Sealed.{param_in, output_of-sources}
use azan_dashboard.Controllers.Masking.{
  mask_key, mask_keys, mask_output, mask_sources, in_outputs, mask_secrets, members_of,
  current_params, unmask_output, unmask_sources, null_outputs, unmask_secrets,
}

-- What a client sees of a sensitive value
abbrev pub hidden : Option Value → Option Value
hidden v = if truthy_option v then some (str masked) else v

get-mask_key :
    (name other : String) (params : Members)
    → get other (mask_key name params)
      ≡ (if str_eq name other then hidden (get other params) else get other params)
unfolding mask_key
get-mask_key name other params = elim (Bool-cases (str_eq name other)) [
  | inl own ↦ grind (arith, get-put, eq_iff name other, ap (λ (x : String). get x params))
  | inr apart ↦ grind (arith, get-put)
]

get-mask_keys :
    (names : List String) (other : String) (params : Members)
    → get other (mask_keys names params) ≡ pass hidden names other (get other params)
unfolding mask_keys
get-mask_keys [] other params = refl
get-mask_keys (name ∷ names) other params =
    get-mask_keys names other (mask_key name params)
    ∙ ap (pass hidden names other) (get-mask_key name other params)

hidden_idem : (v : Option Value) → hidden (hidden v) ≡ hidden v
hidden_idem v = ground arith

err_is_not_ok : {t : Error} {c : Members} → err t ≡ ok c → ⊥
err_is_not_ok e = absurd (ground arith)

-- The empty text is not the mask.
apart : (s : String) → str_eq s "" ≡ true → str_eq s masked ≡ false
apart s e =
    let here : s ≡ "" = ground (arith, eq_iff s "") in
    subst (λ (x : String). str_eq x masked ≡ false) (sym here) refl

module _ (params : Members) where
  restored-hidden :
      (name : String) → restored (some params) name (hidden (get name params)) ≡ get name params
  unfolding restored is_masked
  restored-hidden name = go (get name params)
    where
      go :
          (v : Option Value)
          → (if is_masked (hidden v) then kept_value (some params) v else hidden v) ≡ v
      go none = refl
      go (some null) = refl
      go (some (bool b)) = ground arith
      go (some (num n)) = ground arith
      go (some (arr m)) = ground (arith, eq_refl masked)
      go (some (obj m)) = ground (arith, eq_refl masked)
      go (some (str s)) = elim (Bool-cases (str_eq s "")) [
        | inl empty ↦ ground (arith, apart s empty)
        | inr filled ↦ ground (arith, eq_refl masked)
      ]

  restored-own : (name : String) → restored (some params) name (get name params) ≡ get name params
  unfolding restored is_masked
  restored-own name = go (get name params)
    where
      go : (v : Option Value) → (if is_masked v then kept_value (some params) v else v) ≡ v
      go none = refl
      go (some null) = refl
      go (some (bool b)) = refl
      go (some (num n)) = refl
      go (some (arr m)) = refl
      go (some (obj m)) = refl
      go (some (str s)) = elim (Bool-cases (str_eq s "")) [
        | inl empty ↦ ground (arith, apart s empty)
        | inr filled ↦ ground arith
      ]

  -- A client that sends back what it got changes nothing.
  unmask_params-mask_keys :
      (names : List String) (other : String)
      → get other (unmask_params (some params) names (mask_keys names params)) ≡ get other params
  unmask_params-mask_keys names other =
      let v = get other params in
      let back = restored (some params) other in
      get-unmask_params (some params) names other (mask_keys names params)
      ∙ ap (pass back names other) (get-mask_keys names other params)
      ∙ elim (Bool-cases (contains other names)) [
        | inr apart ↦
            pass-other back names other (pass hidden names other v) apart
            ∙ pass-other hidden names other v apart
        | inl own ↦
            ap (pass back names other) (pass-member hidden names other v (hidden_idem v) own)
            ∙ pass-member back names other (hidden v)
                (ap back (restored-hidden other) ∙ restored-own other ∙ sym (restored-hidden other))
                own
            ∙ restored-hidden other
      ]

-- A loop over the outputs that works on the parameters of those whose strategy is known
abbrev in_params : Strategies → (Metadata → Members → Members) → String → Value → Value
in_params strategies f id v = elim (get_strategy id strategies) [
  | none ↦ v
  | some m ↦ on_object (in_member "params" (f m)) v
]

in_params-known :
    (strategies : Strategies) (f : Metadata → Members → Members) (id : String) (m : Metadata)
    (o : Option Value)
    → get_strategy id strategies ≡ some m
    → member "params" (at_key (in_params strategies f) id o) ≡ on_option (f m) (member "params" o)
in_params-known strategies f id m none known = refl
in_params-known strategies f id m (some v) known =
    let one : in_params strategies f id v ≡ on_object (in_member "params" (f m)) v = ground arith in
    ap (λ (w : Value). member "params" (some w)) one ∙ member-on_option "params" (f m) (some v)

in_params-unknown :
    (strategies : Strategies) (f : Metadata → Members → Members) (id : String) (o : Option Value)
    → get_strategy id strategies ≡ none
    → at_key (in_params strategies f) id o ≡ o
in_params-unknown strategies f id none unknown = refl
in_params-unknown strategies f id (some v) unknown =
    let one : in_params strategies f id v ≡ v = ground arith in ap some one

output_of-in_outputs :
    (f : String → Value → Value) (id : String) (config : Members)
    → output_of id (in_outputs f config) ≡ at_key f id (output_of id config)
output_of-in_outputs f id config =
    let automation = get "automation" config in
    ap (λ (o : Option Value). member id (member "outputs" o))
      (get-in_member "automation" "automation" (in_member "outputs" (map_members f)) config)
    ∙ ap (member id) (member-on_option "outputs" (map_members f) automation)
    ∙ member-map_members f id (member "outputs" automation)

abbrev masking : Metadata → Members → Members
masking m = mask_keys (sensitive_keys m.params)

abbrev unmasking : Option Members → Metadata → Members → Members
unmasking current m = unmask_params current (sensitive_keys m.params)

-- On the parameters of one output
params_back :
    (m : Metadata) (name : String) (p : Option Value)
    → member name (on_option (unmasking (members_of p) m) (on_option (masking m) p)) ≡ member name p
params_back m name none = refl
params_back m name (some (obj params)) =
    unmask_params-mask_keys params (sensitive_keys m.params) name
params_back m name (some (arr params)) =
    unmask_params-mask_keys params (sensitive_keys m.params) name
params_back m name (some null) = refl
params_back m name (some (bool b)) = refl
params_back m name (some (num n)) = refl
params_back m name (some (str s)) = refl

-- On one output
output_back :
    (strategies : Strategies) (config : Members) (id name : String) (o : Option Value)
    → members_of (member "params" o) ≡ current_params id config
    → param_in name
        (at_key (unmask_output strategies config) id (at_key (mask_output strategies) id o))
      ≡ param_in name o
output_back strategies config id name o current = elim (Option-cases (get_strategy id strategies)) [
  | inl unknown ↦ ap (param_in name) (
      in_params-unknown strategies (unmasking (current_params id config)) id
        (at_key (mask_output strategies) id o) unknown
      ∙ in_params-unknown strategies masking id o unknown)
  | inr (m, known) ↦
      ap (member name) (
        in_params-known strategies (unmasking (current_params id config)) id m
          (at_key (mask_output strategies) id o) known
        ∙ ap (on_option (unmasking (current_params id config) m))
            (in_params-known strategies masking id m o known))
      ∙ ap
          (λ (c : Option Members).
            member name (on_option (unmasking c m) (on_option (masking m) (member "params" o))))
          (sym current)
      ∙ params_back m name (member "params" o)
]

-- A client that sends the settings back as it got them changes no parameter of any output: what was
-- masked for it is restored.
pub unmask_secrets-mask_secrets :
    (strategies : Strategies) (providers : Providers) (config c : Members) (id name : String)
    → unmask_secrets strategies providers config (mask_secrets strategies providers config) ≡ ok c
    → param_in name (output_of id c) ≡ param_in name (output_of id config)
unfolding unmask_secrets mask_secrets
unmask_secrets-mask_secrets strategies providers config c id name e =
    let shown = mask_secrets strategies providers config in
    let back = in_outputs (unmask_output strategies config) shown in
    elim (Bool-cases (null_outputs (member "outputs" (get "automation" shown)))) [
      | inl bad ↦ absurd (err_is_not_ok (rw (bad, unmask_secrets) at e))
      | inr fine ↦
          let same = ok-injective (rw (fine, unmask_secrets) at e) in
          ap (λ (x : Members). param_in name (output_of id x)) (sym same)
          ∙ ap (param_in name) (
              output_of-sources (unmask_sources providers config) id back
              ∙ output_of-in_outputs (unmask_output strategies config) id shown
              ∙ ap (at_key (unmask_output strategies config) id) (
                  output_of-sources (mask_sources providers) id
                    (in_outputs (mask_output strategies) config)
                  ∙ output_of-in_outputs (mask_output strategies) id config))
          ∙ output_back strategies config id name (output_of id config) refl
    ]

-- What a client gets of a sensitive parameter of an output is the mask, or a falsy value as it is.
pub mask_secrets-hidden :
    (strategies : Strategies) (providers : Providers) (config : Members) (id name : String)
    (m : Metadata)
    → get_strategy id strategies ≡ some m
    → contains name (sensitive_keys m.params) ≡ true
    → param_in name (output_of id (mask_secrets strategies providers config))
      ≡ hidden (param_in name (output_of id config))
unfolding mask_secrets
mask_secrets-hidden strategies providers config id name m known own =
    ap (param_in name) (
      output_of-sources (mask_sources providers) id (in_outputs (mask_output strategies) config)
      ∙ output_of-in_outputs (mask_output strategies) id config)
    ∙ ap (member name) (in_params-known strategies masking id m (output_of id config) known)
    ∙ go (member "params" (output_of id config))
  where
    members_hidden : (params : Members) → get name (masking m params) ≡ hidden (get name params)
    members_hidden params =
        get-mask_keys (sensitive_keys m.params) name params
        ∙ pass-member hidden (sensitive_keys m.params) name (get name params)
            (hidden_idem (get name params)) own

    go : (p : Option Value) → member name (on_option (masking m) p) ≡ hidden (member name p)
    go none = refl
    go (some (obj params)) = members_hidden params
    go (some (arr params)) = members_hidden params
    go (some null) = refl
    go (some (bool b)) = refl
    go (some (num n)) = refl
    go (some (str s)) = refl
