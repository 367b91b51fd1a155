-- ===== src/Store.antt =====
-- config/ConfigService.js: the settings store. zod and the files behind fs are parameters; an
-- exception is an error result. A configuration is an object of JSON values.
pub mod Outputs
pub mod Paths
pub mod Overrides
pub mod EnvSecrets
pub mod Cleaning
pub mod Constraints
pub mod Saving
pub mod Loading
pub mod Service
mod Tests
use azan_dashboard.Prelude.{
  String, Bool, true, false, ◌&&◌, Option, none, some, List, [], ◌∷◌, str_eq, if◌then◌else◌,
  or_else,
}
use azan_dashboard.Text.{concat, upper}
use azan_dashboard.Result.{Result, ok, err, not_wired, ◌>>=◌}
use azan_dashboard.Dict.{Dict, lookup}
use azan_dashboard.Json.{
  Value, str, arr, obj, Members, end, field, get, put, erase, truthy_option, member, in_member,
  map_members,
}
use azan_dashboard.Migration.{change_child, ensure}
use azan_dashboard.Registry.{Strategies, Providers, Metadata}
use azan_dashboard.Secrets.{Cipher}

-- `process.env`
abbrev pub Environment : Type 0
Environment = Dict String

-- The plug-ins, zod and the cipher
pub record Setup : Type 0 where
  pub cipher : Cipher
  -- The output strategies behind the two resolvers, `none` until they are wired
  pub strategies : Option Strategies
  pub providers : Providers
  -- configSchema.parse, `none` for a ZodError
  pub parse : Members → Option Value
  -- `validationSchema.parse(source)` of a provider's schema, extended for the backup role
  pub fits_schema : String → Metadata → Value → Bool

-- The two roles of a source, as the keys of `sources`
abbrev pub roles : List String
roles = "primary" ∷ "backup" ∷ []

-- `process.env[key]` where it is truthy
unfoldable pub env_value : String → Environment → Option String
unfolding lookup
env_value key env = elim (lookup key env) [
  | none ↦ none
  | some s ↦ if str_eq s "" then none else some s
]

-- `${strategyId.toUpperCase()}_${key.toUpperCase()}`
unfoldable pub env_key : String → String → String
unfolding concat upper
env_key id key = concat (upper id) (concat "_" (upper key))

unfoldable pub wired : Setup → Result Strategies
wired st = elim st.strategies [ none ↦ err not_wired | some s ↦ ok s ]

-- `source?.type === id`
abbrev pub has_type : String → Option Value → Bool
has_type id source = elim (member "type" source) [ some (str t) ↦ str_eq t id | _ ↦ false ]

-- The text of `source.type`, `none` for a type that is not a text
abbrev pub type_text : Option Value → Option String
type_text source = elim (member "type" source) [ some (str t) ↦ some t | _ ↦ none ]

-- `for (const x of xs) …` where a round may throw
abbrev pub each {ℓ} :
    {A : Type ℓ} → (A → Members → Result Members) → List A → Members → Result Members
each act [] c = ok c
each act (x ∷ xs) c = elim (act x c) [ err e ↦ err e | ok c' ↦ each act xs c' ]

-- `for (const [id, output] of Object.entries(config.automation.outputs))`, where there are outputs
unfoldable pub each_output :
    (Strategies → String → Value → Value) → Setup → Members → Result Members
unfolding wired map_members in_member
each_output f st config =
    if truthy_option (member "outputs" (get "automation" config))
    then (do
      strategies ← wired st
      ok (in_member "automation" (in_member "outputs" (map_members (f strategies))) config))
    else ok config

-- `config.automation?.outputs?.[id]`
abbrev pub output_of : String → Members → Option Value
output_of id config = member id (member "outputs" (get "automation" config))

-- `delete o[k1]…[kn]` where all but the last are there
unfoldable pub erase_path : List String → Members → Members
unfolding get put erase
erase_path [] m = m
erase_path (key ∷ []) m = erase key m
erase_path (key ∷ rest) m = elim (get key m) [
  | some (obj c) ↦ put key (obj (erase_path rest c)) m
  | some (arr c) ↦ put key (arr (erase_path rest c)) m
  | _ ↦ m
]
