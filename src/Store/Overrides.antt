-- ===== src/Store/Overrides.antt =====
-- _applyEnvOverrides and _stripSecrets of config/ConfigService.js, and migrateEnvSecrets of
-- services/system/migrationService.js: what the environment does to a configuration.
pub mod Precedence
use azan_dashboard.Prelude.{
  String, Bool, true, false, ◌&&◌, Option, none, some, List, [], ◌∷◌, ◌++◌, str_eq, if◌then◌else◌,
  not,
}
use azan_dashboard.Text.{upper}
use azan_dashboard.Result.{Result, ok, err, ◌>>=◌}
use azan_dashboard.Settings.{member as contains}
use azan_dashboard.Json.{
  Value, bool, str, obj, Members, end, field, get, put, truthy_option, member,
}
use azan_dashboard.Migration.{change_child, ensure}
use azan_dashboard.Registry.{
  Metadata, sensitive_keys, Providers, Requirement, get_secret_requirement_keys,
}
use azan_dashboard.Store.{
  Environment, Setup, roles, env_value, env_key, wired, has_type, each, erase_path,
}

-- `if (value) config[parent][key] = value`
unfoldable pub assign : String → String → Option String → Members → Result Members
unfolding change_child
assign parent key none config = ok config
assign parent key (some s) config = change_child parent (λ a. ok (put key (str s) a)) config

-- The parameter of an output, in the objects on the way to it, each made where it is missing
unfoldable pub set_param : Value → String → String → String → Members → Result Members
unfolding change_child
set_param made id key value automation =
    change_child "outputs"
      (λ outputs.
        change_child id
          (λ output.
            change_child "params" (λ params. ok (put key (str value) params))
              (ensure "params" (obj end) output))
          (ensure id made outputs))
      (ensure "outputs" (obj end) automation)

abbrev pub new_output : Value
new_output = obj (field "params" (obj end) end)

-- One secret of an output, of _applyEnvOverrides
unfoldable pub override_output : Environment → Requirement → Members → Result Members
unfolding env_value env_key change_child set_param
override_output env r config = elim (env_value (env_key r.strategy_id r.key) env) [
  | none ↦ ok config
  | some v ↦ change_child "automation" (set_param new_output r.strategy_id r.key v) config
]

-- `if (source?.type === provider.id) source[key] = value`
unfoldable pub override_source : String → String → String → String → Members → Result Members
unfolding change_child
override_source id key value role config =
    if has_type id (member role (get "sources" config))
    then change_child "sources" (change_child role (λ source. ok (put key (str value) source)))
        config
    else ok config

abbrev pub override_sources : Environment → Metadata → String → Members → Result Members
override_sources env provider key config = elim (env_value (upper key) env) [
  | none ↦ ok config
  | some v ↦ each (override_source provider.id key v) roles config
]

abbrev pub override_provider : Environment → String × Metadata → Members → Result Members
override_provider env (t, provider) config =
    each (override_sources env provider) (sensitive_keys provider.params) config

unfoldable pub apply_env_overrides : Setup → Environment → Members → Result Members
unfolding assign env_value upper override_output override_source wired get_secret_requirement_keys
apply_env_overrides st env config =
    if truthy_option (get "automation" config)
    then (do
      c1 ← assign "automation" "baseUrl" (env_value "BASE_URL" env) config
      c2 ← assign "automation" "pythonServiceUrl" (env_value "PYTHON_SERVICE_URL" env) c1
      strategies ← wired st
      c3 ← each (override_output env) (get_secret_requirement_keys strategies) c2
      each (override_provider env) st.providers c3)
    else ok config

-- `if (process.env[name]) delete …` along a path
unfoldable pub strip_path : Environment → String → List String → Members → Members
unfolding env_value erase_path
strip_path env name path config = elim (env_value name env) [
  | none ↦ config
  | some v ↦ erase_path path config
]

abbrev pub param_path : Requirement → List String
param_path r = "automation" ∷ "outputs" ∷ r.strategy_id ∷ "params" ∷ r.key ∷ []

unfoldable pub strip_outputs : Environment → List Requirement → Members → Members
unfolding strip_path env_key
strip_outputs env [] config = config
strip_outputs env (r ∷ rs) config =
    strip_outputs env rs (strip_path env (env_key r.strategy_id r.key) (param_path r) config)

abbrev strip_keys : String → List String → Members → Members
strip_keys role [] config = config
strip_keys role (key ∷ keys) config =
    strip_keys role keys (erase_path ("sources" ∷ role ∷ key ∷ []) config)

-- A source loses every sensitive key of its provider.
abbrev strip_roles : Metadata → List String → Members → Members
strip_roles provider [] config = config
strip_roles provider (role ∷ rs) config = strip_roles provider rs (
    if has_type provider.id (member role (get "sources" config))
    then strip_keys role (sensitive_keys provider.params) config
    else config)

unfoldable pub strip_sources : Providers → Members → Members
unfolding erase_path
strip_sources [] config = config
strip_sources ((t, provider) ∷ rest) config = strip_sources rest (strip_roles provider roles config)

unfoldable pub strip_secrets : Setup → Environment → Members → Result Members
unfolding strip_path strip_outputs strip_sources wired get_secret_requirement_keys
strip_secrets st env config =
    if truthy_option (get "automation" config)
    then (do
      strategies ← wired st
      ok (
          strip_sources st.providers (
            strip_outputs env (get_secret_requirement_keys strategies) (
              strip_path env "PYTHON_SERVICE_URL" ("automation" ∷ "pythonServiceUrl" ∷ [])
                (strip_path env "BASE_URL" ("automation" ∷ "baseUrl" ∷ []) config)))))
    else ok (strip_sources st.providers config)
