-- ===== src/Registry.antt =====
-- The registries of plug-ins: outputs/OutputFactory.js, with getSecretRequirementKeys of
-- outputs/BaseOutput.js, and providers/ProviderFactory.js. A class is its metadata.
pub mod Secret
mod Tests
use azan_dashboard.Prelude.{
  String, Bool, true, false, Option, none, some, List, [], ◌∷◌, ◌++◌, map, keep, str_eq,
  if◌then◌else◌,
}
use azan_dashboard.Result.{Result, ok, err, unknown_provider}
use azan_dashboard.Dict.{Dict, lookup, insert}

-- An entry of `metadata.params` or `metadata.parameters`
pub record Param : Type 0 where
  pub key : String
  pub sensitive : Bool
  pub options : List String

pub record Metadata : Type 0 where
  pub id : String
  pub params : List Param

-- `params.filter((p) => p.sensitive).map((p) => p.key)`
abbrev pub sensitive_keys : List Param → List String
sensitive_keys params = map (λ (p : Param). p.key) (keep (λ (p : Param). p.sensitive) params)

-- The Map of the output strategies
abbrev pub Strategies : Type 0
Strategies = Dict Metadata

-- OutputFactory.register: `none` where the metadata has no id
unfoldable pub register : Metadata → Strategies → Option Strategies
unfolding insert
register m strategies = if str_eq m.id "" then none else some (insert m.id m strategies)

-- The registrations one after the other
unfoldable pub register_all : List Metadata → Strategies → Option Strategies
unfolding register
register_all [] strategies = some strategies
register_all (m ∷ ms) strategies = elim (register m strategies) [
  | none ↦ none
  | some next ↦ register_all ms next
]

-- OutputFactory.getStrategy
unfoldable pub get_strategy : String → Strategies → Option Metadata
unfolding lookup
get_strategy id strategies = lookup id strategies

-- `{ strategyId, key }`
pub record Requirement : Type 0 where
  pub strategy_id : String
  pub key : String

abbrev pub requirements_of : String → List String → List Requirement
requirements_of id keys = map (λ (k : String). record { strategy_id = id; key = k }) keys

-- OutputFactory.getSecretRequirementKeys
unfoldable pub get_secret_requirement_keys : Strategies → List Requirement
get_secret_requirement_keys [] = []
get_secret_requirement_keys ((id, m) ∷ strategies) =
    requirements_of id (sensitive_keys m.params) ++ get_secret_requirement_keys strategies

-- The Map of the provider classes; getRegisteredProviders are its values.
abbrev pub Providers : Type 0
Providers = Dict Metadata

unfoldable pub get_provider_class : String → Providers → Result Metadata
unfolding lookup
get_provider_class type providers = elim (lookup type providers) [
  | none ↦ err unknown_provider
  | some m ↦ ok m
]

-- `providers.find((p) => p.id === type)`
unfoldable pub find_provider : String → Providers → Option Metadata
find_provider type [] = none
find_provider type ((t, m) ∷ rest) = if str_eq m.id type then some m else find_provider type rest
