-- ===== src/Store/Tests.antt =====
-- A store with one secret in the environment, a lead time out of range and a file system that fails
-- once.
use azan_dashboard.Prelude.{String, true, false, ◌≡◌, refl, Option, none, some, List, [], ◌∷◌, pos}
use azan_dashboard.Text.{concat, includes, upper}
use azan_dashboard.Result.{Error, ok, err}
use azan_dashboard.Dict.{lookup}
use azan_dashboard.Settings.{member as contains}
use azan_dashboard.Json.{
  Value, num, str, obj, Members, end, field, get, put, member, in_member, map_members,
}
use azan_dashboard.Migration.{change_child}
use azan_dashboard.Registry.{
  Metadata, Strategies, get_strategy, find_provider, get_secret_requirement_keys,
}
use azan_dashboard.Secrets.{Cipher, process_keys}
use azan_dashboard.Secrets.Processing.{IsCipher}
use azan_dashboard.Store.{Setup, Environment, env_value, env_key, wired, each_output, output_of}
use azan_dashboard.Store.Overrides.{apply_env_overrides, assign, override_output, override_source}
use azan_dashboard.Store.Overrides.Precedence.{AreSet, apply_env_overrides-AreSet}
use azan_dashboard.Store.EnvSecrets.{Migrated, migrate_env_secrets}
use azan_dashboard.Store.EnvSecrets.Stored.{AreStored, migrate_env_secrets-AreStored}
use azan_dashboard.Store.Cleaning.{clean_source_data}
use azan_dashboard.Store.Cleaning.Allowed.{source_of, source_of-clean_source_data}
use azan_dashboard.Store.Constraints.{validate_constraints, constrain, clamp}
use azan_dashboard.Store.Constraints.Bounds.{IsWithin, validate_constraints-IsWithin}
use azan_dashboard.Store.Saving.{
  Content, holds, Disk, Fault, save_local, process_sensitive_fields, process_sources, replace_file,
}
use azan_dashboard.Store.Saving.Sealed.{param_in}
use azan_dashboard.Store.Service.{State, Faults, update}
use azan_dashboard.Store.Service.Refinement.{view}
use azan_dashboard.Store.Service.Runs.{
  Operation, initialising, updating, deleting, run, IsKept, run-IsKept,
}

first : String → Option String
first String.[] = none
first (String.◌∷◌ c s) = some s

abbrev marking : Cipher
unfolding concat
marking = record { encrypt = λ s key. some (concat ":" s); decrypt = λ s key. first s }

marking-IsCipher : IsCipher marking "key"
unfolding includes concat first
marking-IsCipher = record {
  cipher_text = λ s. concat ":" s;
  encrypt-cipher_text = λ s. refl;
  colon-cipher_text = λ s. refl;
  decrypt-cipher_text = λ s. refl;
}

abbrev monkey : Metadata
monkey = record {
  id = "monkey";
  params = (record { key = "token"; sensitive = true; options = [] }) ∷ [];
}

abbrev aladhan : Metadata
aladhan = record {
  id = "aladhan";
  params = (record { key = "city"; sensitive = false; options = [] }) ∷ [];
}

abbrev strategies : Strategies
strategies = ("monkey", monkey) ∷ []

abbrev setup : Setup
setup = record {
  cipher = marking;
  strategies = some strategies;
  providers = ("aladhan", aladhan) ∷ [];
  parse = λ c. some (obj c);
  fits_schema = λ role m v. true;
}

abbrev env : Environment
env = ("JWT_SECRET", "key") ∷ ("ENCRYPTION_SALT", "salt") ∷ ("MONKEY_TOKEN", "secret") ∷ []

abbrev config : Members
config = field "version" (num (pos 5)) (
    field "automation"
      (obj (
        field "outputs"
          (obj (
            field "monkey"
              (obj (
                field "leadTimeMs" (num (pos 90000))
                  (field "params" (obj (field "token" (str "old") end)) end)))
              end))
          end))
      (field "sources"
        (obj (
          field "primary"
            (obj (
              field "type" (str "aladhan")
                (field "city" (str "London") (field "guid" (str "7") end))))
            end))
        end))

abbrev smooth : Fault
smooth = record {
  torn = false;
  write_fails = false;
  read_fails = false;
  rename_fails = false;
  unlink_fails = false;
}

abbrev disk : Disk
disk = record { shipped = holds config; local = none; temp = none }

constrained : Members
unfolding validate_constraints each_output wired in_member map_members constrain clamp get put
    get_strategy lookup
constrained = elim (validate_constraints setup config) [ ok c ↦ c | err e ↦ end ]

validate_constraints-IsWithin_example : IsWithin (pos 30000)
unfolding validate_constraints each_output wired in_member map_members constrain clamp get put
    get_strategy lookup constrained contains
validate_constraints-IsWithin_example =
    validate_constraints-IsWithin setup strategies config constrained "monkey" monkey (pos 30000)
      refl refl refl refl

-- What the file holds: the token is encrypted.
saved : Members
unfolding save_local process_sensitive_fields process_keys process_sources replace_file each_output
    wired in_member map_members get put get_strategy lookup env_value
saved = elim (save_local setup env smooth config disk).1 [ ok c ↦ c | err e ↦ end ]

source_of-clean_source_data_example :
    member "guid" (source_of "primary" (clean_source_data setup.providers config)) ≡ none
unfolding contains get find_provider
source_of-clean_source_data_example =
    source_of-clean_source_data setup.providers "primary" "guid" config refl

overridden : Members
unfolding apply_env_overrides assign override_output override_source env_value env_key upper concat
    wired get put change_child lookup
overridden = elim (apply_env_overrides setup env config) [ ok c ↦ c | err e ↦ end ]

apply_env_overrides-AreSet_example : AreSet env (get_secret_requirement_keys strategies) overridden
unfolding apply_env_overrides assign override_output override_source env_value env_key upper concat
    wired get put change_child lookup overridden
apply_env_overrides-AreSet_example =
    apply_env_overrides-AreSet setup env strategies config overridden refl refl refl

moved : Migrated
unfolding migrate_env_secrets
moved = elim (migrate_env_secrets setup env config) [
  | ok m ↦ m
  | err e ↦ record { config = end; migrated_keys = []; changed = false }
]

migrate_env_secrets-AreStored_example :
    AreStored env (get_secret_requirement_keys strategies) config moved.config
unfolding moved migrate_env_secrets get put
migrate_env_secrets-AreStored_example =
    migrate_env_secrets-AreStored setup env strategies config moved refl refl

-- The defaults that come with the program have no token.
abbrev defaults : Members
defaults = field "version" (num (pos 5)) (field "automation" (obj end) end)

abbrev state : State
state = record {
  config = none;
  is_initialised = false;
  is_saving = false;
  disk = record { shipped = holds defaults; local = none; temp = none };
  env = env;
  dotenv = [];
  deleting = [];
}

-- The second save of an update is torn.
abbrev faults : Faults
faults = record { updating = smooth; migrating = smooth; securing = record smooth { torn = true } }

abbrev changes : Members
changes = field "version" (num (pos 5)) end

abbrev operations : List Operation
operations =
    initialising faults
    ∷ updating faults changes
    ∷ deleting "MONKEY_TOKEN" (("MONKEY_TOKEN", "secret") ∷ [])
    ∷ []

run-IsKept_example : IsKept setup (view state) (run setup operations state)
run-IsKept_example = run-IsKept setup operations state refl

abbrev calm : Faults
calm = record { updating = smooth; migrating = smooth; securing = smooth }

abbrev token : Members
token =
    field "automation"
      (obj (
        field "outputs"
          (obj
            (field "monkey" (obj (field "params" (obj (field "token" (str "new") end)) end)) end))
          end))
      end

updated : State × Option Error
unfolding update
updated = update setup calm token state

-- The update strips the token that the environment sets, and the reload that ends it writes the
-- environment's token to the local file.
written : Option Content → Option Value
written (some (holds m)) = param_in "token" (output_of "monkey" m)
written _ = none

update_sample : written (updated.0).disk.local ≡ some (str ":secret")
unfolding update updated written get put includes
update_sample = refl
