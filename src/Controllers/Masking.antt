-- ===== src/Controllers/Masking.antt =====
-- _maskSecrets and getPublicSettings of controllers/settingsController.js, and unmaskSecrets of
-- utils/configUnmasker.js: the secrets on their way to a client and back.
pub mod Restored
use azan_dashboard.Prelude.{
  String, Bool, true, false, ◌||◌, Option, none, some, List, [], ◌∷◌, if◌then◌else◌,
}
use azan_dashboard.Result.{Result, ok, err, type_error}
use azan_dashboard.Json.{
  Value, null, str, arr, obj, Members, end, field, get, put, erase, put_option, truthy_option,
  member, on_object, in_member, map_members,
}
use azan_dashboard.Registry.{
  Metadata, sensitive_keys, Strategies, Providers, Requirement, get_strategy, get_provider_class,
  get_secret_requirement_keys,
}
use azan_dashboard.Secrets.{masked, unmask_params}
use azan_dashboard.Store.{erase_path, type_text, output_of}

-- `if (params[key]) params[key] = mask()`
unfoldable pub mask_key : String → Members → Members
unfolding get put
mask_key name params =
    if truthy_option (get name params) then put name (str masked) params else params

unfoldable pub mask_keys : List String → Members → Members
unfolding mask_key
mask_keys [] params = params
mask_keys (name ∷ names) params = mask_keys names (mask_key name params)

-- An output whose strategy is known
abbrev pub mask_output : Strategies → String → Value → Value
mask_output strategies id v = elim (get_strategy id strategies) [
  | none ↦ v
  | some m ↦ on_object (in_member "params" (mask_keys (sensitive_keys m.params))) v
]

-- The provider's metadata of a source whose type is registered
abbrev pub provider_for : Providers → Option Value → Option Metadata
provider_for providers source = elim (type_text source) [
  | none ↦ none
  | some t ↦ elim (get_provider_class t providers) [ err e ↦ none | ok m ↦ some m ]
]

abbrev mask_source : Providers → String → Members → Members
mask_source providers role sources = elim (provider_for providers (get role sources)) [
  | none ↦ sources
  | some m ↦ in_member role (mask_keys (sensitive_keys m.params)) sources
]

abbrev pub mask_sources : Providers → Members → Members
mask_sources providers sources =
    mask_source providers "backup" (mask_source providers "primary" sources)

abbrev pub in_outputs : (String → Value → Value) → Members → Members
in_outputs f config = in_member "automation" (in_member "outputs" (map_members f)) config

unfoldable pub mask_secrets : Strategies → Providers → Members → Members
unfolding mask_keys in_member map_members get_strategy get_provider_class
mask_secrets strategies providers config =
    in_member "sources" (mask_sources providers) (in_outputs (mask_output strategies) config)

-- The members of an object
abbrev pub members_of : Option Value → Option Members
members_of (some (obj m)) = some m
members_of (some (arr m)) = some m
members_of _ = none

-- `currentConfig.automation?.outputs?.[id]?.params`
abbrev pub current_params : String → Members → Option Members
current_params id current = members_of (member "params" (output_of id current))

-- unmaskParams on the params of one output
abbrev pub unmask_output : Strategies → Members → String → Value → Value
unmask_output strategies current id v = elim (get_strategy id strategies) [
  | none ↦ v
  | some m ↦
      on_object
        (in_member "params" (unmask_params (current_params id current) (sensitive_keys m.params))) v
]

abbrev unmask_source : Providers → Members → String → Members → Members
unmask_source providers current role sources = elim (provider_for providers (get role sources)) [
  | none ↦ sources
  | some m ↦
      in_member role
        (unmask_params (members_of (member role (get "sources" current))) (sensitive_keys m.params))
        sources
]

abbrev pub unmask_sources : Providers → Members → Members → Members
unmask_sources providers current sources =
    unmask_source providers current "backup" (unmask_source providers current "primary" sources)

-- `outputConfig.params` of a `null`
abbrev has_null : Members → Bool
has_null end = false
has_null (field k null rest) = true
has_null (field k v rest) = has_null rest

abbrev pub null_outputs : Option Value → Bool
null_outputs (some (obj m)) = has_null m
null_outputs (some (arr m)) = has_null m
null_outputs _ = false

-- unmaskSecrets; a `null` among the outputs throws, and the request's object is dropped.
unfoldable pub unmask_secrets : Strategies → Providers → Members → Members → Result Members
unfolding unmask_params in_member map_members get_strategy get_provider_class
unmask_secrets strategies providers current config =
    if null_outputs (member "outputs" (get "automation" config))
    then err type_error
    else ok (
        in_member "sources" (unmask_sources providers current)
          (in_outputs (unmask_output strategies current) config))

-- The secrets that getPublicSettings deletes from its copy of `automation`
abbrev delete_secrets : List Requirement → Members → Members
delete_secrets [] automation = automation
delete_secrets (r ∷ rs) automation = delete_secrets rs (
    if truthy_option
      (member r.key (member "params" (member r.strategy_id (get "outputs" automation))))
    then erase_path ("outputs" ∷ r.strategy_id ∷ "params" ∷ r.key ∷ []) automation
    else automation)

abbrev automation_of : Members → Members
automation_of config = elim (get "automation" config) [ some (obj a) ↦ a | _ ↦ end ]

-- getPublicSettings; the sources are sent as they are.
unfoldable pub get_public_settings : Strategies → Members → Members
unfolding erase_path get_secret_requirement_keys get put erase
get_public_settings strategies config =
    let automation =
      delete_secrets (get_secret_requirement_keys strategies) (automation_of config) in
    put_option "location" (get "location" config) (
      put_option "prayers" (get "prayers" config) (
        put_option "sources" (get "sources" config) (
          field "automation" (obj (erase "voiceMonkey" automation)) (
            field "system" (obj (put_option "tours" (member "tours" (get "system" config)) end))
              end))))
