-- ===== src/Store/Service.antt =====
-- config/ConfigService.js: init, get, reload and update on the state of the service, and
-- deleteEnvValue of utils/envManager.js, which reload starts and does not await.
pub mod Refinement
pub mod Runs
use azan_dashboard.Prelude.{
  String, Bool, true, false, Option, none, some, List, [], ◌∷◌, ◌++◌, if◌then◌else◌,
}
use azan_dashboard.Result.{
  Error, Result, ok, err, critical_configuration, not_initialised, save_in_progress,
}
use azan_dashboard.Dict.{Dict, lookup, remove, spread}
use azan_dashboard.Json.{Value, Members, merge_members}
use azan_dashboard.Migration.{migrate_config}
use azan_dashboard.Store.{Environment, Setup, env_value}
use azan_dashboard.Store.EnvSecrets.{Migrated}
use azan_dashboard.Store.Saving.{Disk, Fault, Content, holds, save_local}
use azan_dashboard.Store.Loading.{
  is_newer, gather, settle, candidate, validate_candidate, current_local, shipped_config,
}

pub record State : Type 0 where
  -- `_config`, `_isInitialized`, `_isSaving`
  pub config : Option Value
  pub is_initialised : Bool
  pub is_saving : Bool
  pub disk : Disk
  pub env : Environment
  -- The .env file, as dotenv reads it
  pub dotenv : Dict String
  -- Keys whose deletion from .env has been started
  pub deleting : List String

-- What runs on the service: a new state and a value or an exception
abbrev pub Job {ℓ} : Type ℓ → Type ℓ
Job A = State → State × Result A

abbrev pub continue {ℓ κ} :
    {A : Type ℓ} {B : Type κ} → State × Result A → (A → Job B) → State × Result B
continue (s, err e) next = (s, err e)
continue (s, ok a) next = next a s

infixl 5 ◌>>=◌
abbrev pub ◌>>=◌ {ℓ κ} : {A : Type ℓ} {B : Type κ} → Job A → (A → Job B) → Job B
(job >>= next) s = continue (job s) next

-- A computation that leaves the state alone
abbrev pub lift {ℓ} : {A : Type ℓ} → (State → Result A) → Job A
lift f s = (s, f s)

abbrev pub on_disk {ℓ} : {A : Type ℓ} → State → Disk × Result A → State × Result A
on_disk s (d, r) = (record s { disk = d }, r)

unfoldable pub save : Setup → Fault → Members → Job Members
unfolding save_local
save st f config s = on_disk s (save_local st s.env f config s.disk)

-- `dotenv.config({ override: true })`
unfoldable pub load_env : Job Environment
unfolding spread
load_env s = let env = spread s.env s.dotenv in (record s { env = env }, ok env)

-- What throws while the local file is loaded is logged, and the defaults are used.
abbrev pub or_defaults : Members → State × Result Members → State × Result Members
or_defaults shipped (s, ok config) = (s, ok config)
or_defaults shipped (s, err e) = (s, ok shipped)

-- A local file whose version is raised is saved first.
unfoldable pub merge_local : Setup → Fault → Members → Members → Job Members
unfolding migrate_config is_newer merge_members save
merge_local st f shipped local = do
  migrated ← lift (λ s. migrate_config local)
  if is_newer migrated local
      then (do saved ← save st f migrated; lift (λ s. ok (merge_members shipped migrated)))
      else lift (λ s. ok (merge_members shipped local))

unfoldable pub load_local : Setup → Fault → Members → Job Members
unfolding merge_local
load_local st f shipped s = elim s.disk.local [
  | some (holds local) ↦ or_defaults shipped (merge_local st f shipped local s)
  | _ ↦ (s, ok shipped)
]

-- `_saveLocal(envMigrated)`, and the deletions from .env that follow
unfoldable pub keep_secrets : Setup → Fault → Migrated → Job Members
unfolding save
keep_secrets st f m =
    if m.changed
    then (do
      saved ← save st f m.config
      λ s. (record s { deleting = s.deleting ++ m.migrated_keys }, ok m.config))
    else lift (λ s. ok m.config)

unfoldable pub install : Value → Job Value
install v s = (record s { config = some v }, ok v)

-- The saves that may be made, in order
pub record Faults : Type 0 where
  pub updating : Fault
  pub migrating : Fault
  pub securing : Fault

unfoldable pub reload : Setup → Faults → Job Value
unfolding load_env load_local keep_secrets install gather settle shipped_config
reload st fs = do
  env ← load_env
  shipped ← lift (λ s. shipped_config s.disk.shipped)
  raw ← load_local st fs.migrating shipped
  m ← lift (λ s. gather st env raw)
  config ← keep_secrets st fs.securing m
  v ← lift (λ s. settle st env config)
  install v

unfoldable pub required : String → Environment → Result String
unfolding env_value
required name env = elim (env_value name env) [
  | none ↦ err (critical_configuration name)
  | some value ↦ ok value
]

unfoldable pub initialise : Setup → Faults → Job Value
unfolding reload required
initialise st fs = do
  v ← reload st fs
  secret ← lift (λ s. required "JWT_SECRET" s.env)
  salt ← lift (λ s. required "ENCRYPTION_SALT" s.env)
  λ s. (record s { is_initialised = true }, ok v)

-- The configuration is left to `get`: init returns nothing.
abbrev pub silent : State × Result Value → State × Option Error
silent (s, ok v) = (s, none)
silent (s, err e) = (s, some e)

unfoldable pub init : Setup → Faults → State → State × Option Error
unfolding initialise
init st fs s = if s.is_initialised then (s, none) else silent (initialise st fs s)

unfoldable pub get_config : State → Result Value
get_config s = elim s.config [ none ↦ err not_initialised | some v ↦ ok v ]

-- The body of update's try
unfoldable pub update_body : Setup → Faults → Members → Job Value
unfolding save reload current_local candidate validate_candidate shipped_config
update_body st fs partial = do
  current ← lift (λ s. current_local s.disk.local)
  new_local ← lift (λ s. candidate st s.env current partial)
  shipped ← lift (λ s. shipped_config s.disk.shipped)
  full ← lift (λ s. validate_candidate st s.env shipped new_local)
  saved ← save st fs.updating new_local
  reload st fs

abbrev pub finally : State × Result Value → State × Result Value
finally (s, r) = (record s { is_saving = false }, r)

-- update returns nothing; what it puts into effect is left to `get`.
unfoldable pub update : Setup → Faults → Members → State → State × Option Error
unfolding update_body
update st fs partial s =
    if s.is_saving
    then (s, some save_in_progress)
    else silent (finally (update_body st fs partial (record s { is_saving = true })))

abbrev pub is_set : String → Dict String → Bool
unfolding lookup
is_set key m = elim (lookup key m) [ none ↦ false | some v ↦ true ]

-- deleteEnvValue, from what it has read of .env on: a line that is there goes, in the file and in
-- the process.
unfoldable pub delete_env_value : String → Dict String → State → State
unfolding remove
delete_env_value key read s =
    if is_set key read then record s { env = remove key s.env; dotenv = remove key read } else s
