-- ===== src/Store/Cleaning.antt =====
-- _cleanSourceData and _validateSources of config/ConfigService.js: what a provider allows in its
-- source.
pub mod Allowed
use azan_dashboard.Prelude.{
  String, Bool, true, false, Option, none, some, List, [], ◌∷◌, map, str_eq, if◌then◌else◌,
}
use azan_dashboard.Result.{Result, ok, err, source_invalid, unknown_provider, ◌>>=◌}
use azan_dashboard.Settings.{member as contains}
use azan_dashboard.Json.{
  Value, arr, obj, Members, end, field, get, truthy_option, member, in_member,
}
use azan_dashboard.Registry.{Param, Metadata, Providers, find_provider, get_provider_class}
use azan_dashboard.Store.{Setup, roles, type_text, each}

-- `type`, `enabled` and the provider's parameters; its sensitive ones are among them.
abbrev pub allowed_keys : Metadata → List String
allowed_keys m = "type" ∷ "enabled" ∷ map (λ (p : Param). p.key) m.params

-- Every other key is deleted.
unfoldable pub keep_keys : List String → Members → Members
unfolding contains
keep_keys allowed end = end
keep_keys allowed (field k v rest) =
    let others = keep_keys allowed rest in if contains k allowed then field k v others else others

-- The provider of a source that has a type
abbrev pub provider_of : Providers → Option Value → Option Metadata
provider_of providers source = elim (type_text source) [
  | none ↦ none
  | some t ↦ if str_eq t "" then none else find_provider t providers
]

-- One role
unfoldable pub clean_role : Providers → String → Members → Members
unfolding keep_keys find_provider in_member
clean_role providers role sources = elim (provider_of providers (get role sources)) [
  | none ↦ sources
  | some m ↦ in_member role (keep_keys (allowed_keys m)) sources
]

unfoldable pub clean_source_data : Providers → Members → Members
unfolding clean_role in_member
clean_source_data providers config =
    in_member "sources"
      (λ sources. clean_role providers "backup" (clean_role providers "primary" sources)) config

-- A source with a type; a type that is not a text is not registered.
unfoldable pub validate_typed : Setup → String → Value → Result Value
unfolding get_provider_class
validate_typed st role source = elim (type_text (some source)) [
  | none ↦ err unknown_provider
  | some t ↦ do
    m ← get_provider_class t st.providers
    if st.fits_schema role m source then ok source else err (source_invalid role)
]

-- One role: the configuration is not changed.
unfoldable pub validate_source : Setup → String → Members → Result Members
unfolding validate_typed
validate_source st role config = elim (member role (get "sources" config)) [
  | none ↦ ok config
  | some source ↦
      if truthy_option (member "type" (some source))
      then (do v ← validate_typed st role source; ok config)
      else ok config
]

unfoldable pub validate_sources : Setup → Members → Result Members
unfolding validate_source
validate_sources st config =
    if truthy_option (get "sources" config)
    then each (validate_source st) roles config
    else ok config
