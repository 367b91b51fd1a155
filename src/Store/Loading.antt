-- ===== src/Store/Loading.antt =====
-- config/ConfigService.js: the parts of reload and update that only compute.
use azan_dashboard.Prelude.{Bool, Option, none, some, ℤ, pos, ltb_ℤ}
use azan_dashboard.Result.{Result, ok, err, validation_failed, unreadable, ◌>>=◌}
use azan_dashboard.Json.{Value, num, Members, end, get, merge_members}
use azan_dashboard.Migration.{migrate_config}
use azan_dashboard.Secrets.{decrypting}
use azan_dashboard.Store.{Environment, Setup}
use azan_dashboard.Store.Overrides.{apply_env_overrides, strip_secrets}
use azan_dashboard.Store.EnvSecrets.{Migrated, migrate_env_secrets}
use azan_dashboard.Store.Cleaning.{clean_source_data, validate_sources}
use azan_dashboard.Store.Constraints.{validate_constraints}
use azan_dashboard.Store.Saving.{process_sensitive_fields, Content, blank, broken, holds}

-- `config.version || 0`. A version that is neither missing nor a number counts as 0: it stays as it
-- is in a migration, and no such value is greater than itself.
abbrev version : Members → ℤ
version config = elim (get "version" config) [ some (num n) ↦ n | _ ↦ pos 0 ]

-- `(migratedLocal.version || 0) > (localConfig.version || 0)`
unfoldable pub is_newer : Members → Members → Bool
is_newer migrated local = ltb_ℤ (version local) (version migrated)

-- reload, from the merged files up to the secrets of the environment
unfoldable pub gather : Setup → Environment → Members → Result Migrated
unfolding process_sensitive_fields migrate_config migrate_env_secrets
gather st env raw = do
  decrypted ← process_sensitive_fields st env decrypting raw
  migrated ← migrate_config decrypted
  migrate_env_secrets st env migrated

unfoldable pub parse_config : Setup → Members → Result Value
parse_config st config = elim (st.parse config) [ none ↦ err validation_failed | some v ↦ ok v ]

-- reload, from the environment's overrides on
unfoldable pub settle : Setup → Environment → Members → Result Value
unfolding apply_env_overrides validate_constraints clean_source_data validate_sources parse_config
settle st env config = do
  overridden ← apply_env_overrides st env config
  constrained ← validate_constraints st overridden
  valid ← validate_sources st (clean_source_data st.providers constrained)
  parse_config st valid

-- update: what is to be saved, from the local settings and the changes
unfoldable pub candidate : Setup → Environment → Members → Members → Result Members
unfolding strip_secrets clean_source_data merge_members
candidate st env current partial =
    strip_secrets st env (clean_source_data st.providers (merge_members current partial))

-- update: the full configuration that the candidate would give
unfoldable pub validate_candidate : Setup → Environment → Members → Members → Result Members
unfolding apply_env_overrides merge_members parse_config validate_sources
validate_candidate st env shipped new_local = do
  full ← apply_env_overrides st env (merge_members shipped new_local)
  v ← parse_config st full
  validate_sources st full

-- update: a missing, blank or broken local file counts as an empty one.
unfoldable pub current_local : Option Content → Result Members
current_local none = ok end
current_local (some blank) = ok end
current_local (some broken) = ok end
current_local (some (holds m)) = ok m
current_local (some _) = err unreadable

-- JSON.parse of default.json
unfoldable pub shipped_config : Content → Result Members
shipped_config (holds m) = ok m
shipped_config _ = err unreadable
