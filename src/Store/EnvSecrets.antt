-- ===== src/Store/EnvSecrets.antt =====
-- migrateEnvSecrets of services/system/migrationService.js: secrets of the environment move into the
-- configuration.
pub mod Kept
pub mod Placed
pub mod Stored
use azan_dashboard.Prelude.{
  String, Bool, true, false, ◌&&◌, Option, none, some, List, [], ◌∷◌, ◌++◌, str_eq, if◌then◌else◌,
  not,
}
use azan_dashboard.Text.{upper}
use azan_dashboard.Result.{Result, ok, err, ◌>>=◌}
use azan_dashboard.Settings.{member as contains}
use azan_dashboard.Json.{
  Value, bool, str, obj, Members, end, field, get, put, truthy_option, member,
}
use azan_dashboard.Migration.{change_child, ensure}
use azan_dashboard.Registry.{
  Metadata, sensitive_keys, Providers, Requirement, get_secret_requirement_keys,
}
use azan_dashboard.Store.{Environment, Setup, roles, env_value, env_key, wired, has_type}
use azan_dashboard.Store.Overrides.{set_param}

-- What migrateEnvSecrets returns; `changed` is that there are migrated keys.
pub record Migrated : Type 0 where
  pub config : Members
  pub migrated_keys : List String
  pub changed : Bool

abbrev pub disabled_output : Value
disabled_output = obj (field "enabled" (bool false) (field "params" (obj end) end))

-- `config.automation.outputs[id].params[key]`
abbrev pub param : Requirement → Members → Option Value
param r config =
    member r.key
      (member "params" (member r.strategy_id (member "outputs" (get "automation" config))))

-- The objects on the way to the parameters of an output
unfoldable pub make_output : String → Members → Result Members
unfolding change_child
make_output id config =
    change_child "automation"
      (λ automation.
        change_child "outputs"
          (λ outputs.
            change_child id (λ output. ok (ensure "params" (obj end) output))
              (ensure id disabled_output outputs))
          (ensure "outputs" (obj end) automation))
      (ensure "automation" (obj end) config)

-- Only a parameter that is not there is set.
unfoldable pub place_secret : Requirement → String → String → Migrated → Members → Result Migrated
unfolding change_child set_param
place_secret r name v m made =
    if truthy_option (param r made) then ok (record m { config = made }) else (do
      c ← change_child "automation" (set_param disabled_output r.strategy_id r.key v) made
      ok (record { config = c; migrated_keys = m.migrated_keys ++ name ∷ []; changed = true }))

unfoldable pub migrate_output : Environment → Requirement → Migrated → Result Migrated
unfolding env_value env_key make_output place_secret
migrate_output env r m =
    let name = env_key r.strategy_id r.key in
    elim (env_value name env) [
      | none ↦ ok m
      | some v ↦ do made ← make_output r.strategy_id m.config; place_secret r name v m made
    ]

unfoldable pub migrate_outputs : Environment → List Requirement → Migrated → Result Migrated
unfolding migrate_output
migrate_outputs env [] m = ok m
migrate_outputs env (r ∷ rs) m = elim (migrate_output env r m) [
  | err e ↦ err e
  | ok m' ↦ migrate_outputs env rs m'
]

abbrev add_key : String → List String → List String
add_key name keys = if contains name keys then keys else keys ++ name ∷ []

-- One role, for a key that the environment sets
unfoldable pub migrate_source : String → String → String → String → Migrated → Result Migrated
unfolding change_child contains upper
migrate_source id key value role m =
    let source = member role (get "sources" m.config) in
    if has_type id source && not (truthy_option (member key source))
    then (do
      c ← change_child "sources" (change_child role (λ s. ok (put key (str value) s))) m.config
      ok (record {
        config = c;
        migrated_keys = add_key (upper key) m.migrated_keys;
        changed = true;
      }))
    else ok m

abbrev pub migrate_key : Environment → String → String → Migrated → Result Migrated
migrate_key env id key m = elim (env_value (upper key) env) [
  | none ↦ ok m
  | some v ↦ do m' ← migrate_source id key v "primary" m; migrate_source id key v "backup" m'
]

abbrev pub migrate_keys : Environment → String → List String → Migrated → Result Migrated
migrate_keys env id [] m = ok m
migrate_keys env id (key ∷ keys) m = elim (migrate_key env id key m) [
  | err e ↦ err e
  | ok m' ↦ migrate_keys env id keys m'
]

unfoldable pub migrate_providers : Environment → Providers → Migrated → Result Migrated
unfolding migrate_source env_value upper
migrate_providers env [] m = ok m
migrate_providers env ((t, p) ∷ rest) m = elim (migrate_keys env p.id (sensitive_keys p.params) m) [
  | err e ↦ err e
  | ok m' ↦ migrate_providers env rest m'
]

unfoldable pub migrate_env_secrets : Setup → Environment → Members → Result Migrated
unfolding migrate_outputs migrate_providers wired get_secret_requirement_keys
migrate_env_secrets st env config = do
  strategies ← wired st
  m ←
      migrate_outputs env (get_secret_requirement_keys strategies)
        (record { config = config; migrated_keys = []; changed = false })
  migrate_providers env st.providers m
