-- ===== src/Migration.antt =====
-- services/system/migrationService.js, migrateConfig: the version steps of a configuration object.
-- Classes are strict mode code, so that setting a key of a primitive throws.
pub mod Steps
pub mod Version
mod Tests
use azan_dashboard.Prelude.{
  String, Bool, true, false, ◌&&◌, Option, none, some, ℤ, pos, str_eq, if◌then◌else◌, ◌==◌, negsuc,
}
use azan_dashboard.Result.{Result, ok, err, type_error, ◌>>=◌}
use azan_dashboard.Json.{
  Value, null, bool, num, str, arr, obj, Members, end, field, get, put, erase, put_option, truthy,
  truthy_option, member,
}

abbrev pub on_members : (Members → Value) → Result Members → Result Value
on_members make (ok c) = ok (make c)
on_members make (err e) = err e

-- A value whose members are changed: a primitive throws.
abbrev pub change_value : (Members → Result Members) → Option Value → Result Value
change_value change (some (obj c)) = on_members obj (change c)
change_value change (some (arr c)) = on_members arr (change c)
change_value change _ = err type_error

-- `o[key].k = …` for a truthy `o[key]`, where `change` changes its members
unfoldable pub change_child : String → (Members → Result Members) → Members → Result Members
change_child key change m = do v ← change_value change (get key m); ok (put key v m)

-- `if (!o[key]) o[key] = made`
abbrev pub ensure : String → Value → Members → Members
ensure key made m = if truthy_option (get key m) then m else put key made m

-- `!!legacy.enabled`, with the parameters that are there
abbrev pub strategy_of : Option Value → Value
strategy_of legacy = obj (
    field "enabled" (bool (truthy_option (member "enabled" legacy))) (
      field "leadTimeMs" (num (pos 0)) (
        field "params"
          (obj (
            put_option "token" (member "token" legacy)
              (put_option "device" (member "device" legacy) end)))
          end)))

-- The legacy VoiceMonkey settings become the output strategy.
unfoldable pub move_voice_monkey : Members → Result Members
unfolding change_child
move_voice_monkey a =
    if truthy_option (get "voiceMonkey" a)
    then (do
      a' ←
          change_child "outputs" (λ o. ok (put "voicemonkey" (strategy_of (get "voiceMonkey" a)) o))
            a
      ok (erase "voiceMonkey" a'))
    else ok a

abbrev pub version_key : String
version_key = "version"

unfoldable pub migrate_v1_to_v2 : Members → Result Members
unfolding move_voice_monkey change_child
migrate_v1_to_v2 config =
    change_child "automation" (λ a. move_voice_monkey (ensure "outputs" (obj end) a))
      (ensure "automation" (obj end) (put version_key (num (pos 2)) config))

abbrev is_text : String → Option Value → Bool
is_text s (some (str t)) = str_eq t s
is_text s _ = false

-- The calculation fields, as they are or missing
abbrev pub move_calculation : Option Value → Members → Members
move_calculation calculation primary =
    put_option "midnightMode" (member "midnightMode" calculation) (
      put_option "latitudeAdjustmentMethod" (member "latitudeAdjustmentMethod" calculation) (
        put_option "madhab" (member "madhab" calculation)
          (put_option "method" (member "method" calculation) primary)))

abbrev pub sources_moved : Members → Result Members
sources_moved config =
    if is_text "aladhan" (member "type" (member "primary" (get "sources" config)))
    then change_child "sources"
        (change_child "primary" (λ p. ok (move_calculation (get "calculation" config) p))) config
    else ok config

unfoldable pub migrate_v2_to_v3 : Members → Result Members
unfolding change_child
migrate_v2_to_v3 config =
    let v3 = put version_key (num (pos 3)) config in
    if truthy_option (get "calculation" v3)
      && (truthy_option (get "sources" v3) && truthy_option (member "primary" (get "sources" v3)))
    then (do moved ← sources_moved v3; ok (erase "calculation" moved))
    else ok v3

abbrev pub health_checks : Value
health_checks = obj (field "api" (bool true) (field "tts" (bool true) end))

unfoldable pub migrate_v3_to_v4 : Members → Result Members
unfolding change_child
migrate_v3_to_v4 config =
    let v4 = put version_key (num (pos 4)) config in
    if truthy_option (get "system" v4)
    then (if truthy_option (member "healthChecks" (get "system" v4))
        then ok v4
        else change_child "system" (λ s. ok (put "healthChecks" health_checks s)) v4)
    else ok (put "system" (obj (field "healthChecks" health_checks end)) v4)

abbrev is_defined : Option Value → Bool
is_defined none = false
is_defined (some v) = true

unfoldable pub migrate_v4_to_v5 : Members → Result Members
unfolding change_child
migrate_v4_to_v5 config =
    let v5 = put version_key (num (pos 5)) config in
    if truthy_option (get "security" v5)
    then (if is_defined (member "tokenVersion" (get "security" v5))
        then ok v5
        else change_child "security" (λ s. ok (put "tokenVersion" (num (pos 1)) s)) v5)
    else ok (put "security" (obj (field "tokenVersion" (num (pos 1)) end)) v5)

-- `config.version === n`
abbrev pub has_version : ℤ → Members → Bool
has_version (pos n) config = elim (get version_key config) [
  | some (num (pos k)) ↦ k == n
  | _ ↦ false
]
has_version (negsuc n) config = false

-- `if (test) config = step(config)`
abbrev pub step_if : Bool → (Members → Result Members) → Members → Result Members
step_if true step config = step config
step_if false step config = ok config

abbrev is_first : Members → Bool
is_first config =
    if truthy_option (get version_key config) then has_version (pos 1) config else true

unfoldable pub migrate_config : Members → Result Members
unfolding migrate_v1_to_v2 migrate_v2_to_v3 migrate_v3_to_v4 migrate_v4_to_v5
migrate_config c1 = do
  c2 ← step_if (is_first c1) migrate_v1_to_v2 c1
  c3 ← step_if (has_version (pos 2) c2) migrate_v2_to_v3 c2
  c4 ← step_if (has_version (pos 3) c3) migrate_v3_to_v4 c3
  step_if (has_version (pos 4) c4) migrate_v4_to_v5 c4
