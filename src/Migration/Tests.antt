-- ===== src/Migration/Tests.antt =====
-- A configuration of the first version with a legacy output.
use azan_dashboard.Prelude.{◌≡◌, refl, true, false, some, pos, ◌⊎◌, arith, eq_iff}
use azan_dashboard.Result.{ok}
use azan_dashboard.Json.{bool, num, str, obj, Members, end, field, get, put, erase}
use azan_dashboard.Migration.{version_key, health_checks, change_child, migrate_config}
use azan_dashboard.Migration.Steps.{IsApart}
use azan_dashboard.Migration.Version.{
  is_old, migrate_config-version, migrate_config_idem, migrate_config-kept,
}

abbrev legacy : Members
legacy =
    field "automation"
      (obj
        (field "voiceMonkey" (obj (field "enabled" (bool true) (field "token" (str "t") end))) end))
      (field "location" (str "London") end)

abbrev migrated : Members
migrated =
    field "automation"
      (obj (
        field "outputs"
          (obj (
            field "voicemonkey"
              (obj (
                field "enabled" (bool true) (
                  field "leadTimeMs" (num (pos 0))
                    (field "params" (obj (field "token" (str "t") end)) end))))
              end))
          end))
      (field "location" (str "London") (
        field "version" (num (pos 5)) (
          field "system" (obj (field "healthChecks" health_checks end))
            (field "security" (obj (field "tokenVersion" (num (pos 1)) end)) end))))

migrate_config_sample : migrate_config legacy ≡ ok migrated
unfolding migrate_config change_child get put erase
migrate_config_sample = refl

migrate_config-version_example :
    ((is_old legacy ≡ true) × (get version_key migrated ≡ some (num (pos 5))))
    ⊎ ((is_old legacy ≡ false) × (legacy ≡ migrated))
migrate_config-version_example = migrate_config-version legacy migrated migrate_config_sample

migrate_config-idem_sample : migrate_config migrated ≡ ok migrated
migrate_config-idem_sample = migrate_config_idem legacy migrated migrate_config_sample

location-IsApart : IsApart "location"
location-IsApart = record {
  automation = refl;
  sources = refl;
  calculation = refl;
  system = refl;
  security = refl;
}

migrate_config-kept_sample : get "location" migrated ≡ get "location" legacy
migrate_config-kept_sample =
    migrate_config-kept "location" legacy migrated location-IsApart
      (ground (arith, eq_iff "location" "version")) migrate_config_sample
