-- ===== src/Store/Saving.antt =====
-- config/ConfigService.js: _processSensitiveFields over a whole configuration, and _saveLocal, which
-- writes the local file by way of a temporary one.
pub mod Atomic
pub mod Sealed
use azan_dashboard.Prelude.{
  String, Bool, true, false, ◌&&◌, Option, none, some, List, [], ◌∷◌, str_eq, if◌then◌else◌,
}
use azan_dashboard.Result.{Result, ok, err, critical_configuration, save_failed, ◌>>=◌}
use azan_dashboard.Json.{
  Value, arr, obj, Members, end, field, get, put, truthy_option, member, on_object, in_member,
}
use azan_dashboard.Registry.{
  Metadata, sensitive_keys, Strategies, Providers, get_strategy, get_provider_class,
}
use azan_dashboard.Secrets.{Cipher, Mode, encrypting, process_keys}
use azan_dashboard.Store.{Environment, Setup, env_value, each_output, type_text}

-- _getEncryptionKey
abbrev pub get_encryption_key : Environment → Result String
get_encryption_key env = elim (env_value "JWT_SECRET" env) [
  | none ↦ err (critical_configuration "JWT_SECRET")
  | some key ↦ ok key
]

abbrev pub process_params : Cipher → String → Mode → Metadata → Members → Members
process_params c key mode m = process_keys c key mode (sensitive_keys m.params)

-- An output whose strategy is known: its `params`
abbrev pub process_output : Cipher → String → Mode → Strategies → String → Value → Value
process_output c key mode strategies id v = elim (get_strategy id strategies) [
  | none ↦ v
  | some m ↦ on_object (in_member "params" (process_params c key mode m)) v
]

-- A source whose type is registered
abbrev process_source : Cipher → String → Mode → Providers → String → Members → Members
process_source c key mode providers role sources = elim (type_text (get role sources)) [
  | none ↦ sources
  | some t ↦ elim (get_provider_class t providers) [
    | err e ↦ sources
    | ok m ↦ in_member role (process_params c key mode m) sources
  ]
]

unfoldable pub process_sources : Cipher → String → Mode → Providers → Members → Members
unfolding process_keys get_provider_class in_member
process_sources c key mode providers sources =
    process_source c key mode providers "backup"
      (process_source c key mode providers "primary" sources)

unfoldable pub process_sensitive_fields : Setup → Environment → Mode → Members → Result Members
unfolding env_value process_keys get_strategy process_sources in_member each_output
process_sensitive_fields st env mode config = do
  key ← get_encryption_key env
  c ← each_output (process_output st.cipher key mode) st config
  ok (in_member "sources" (process_sources st.cipher key mode st.providers) c)

-- What reading and parsing a file comes to: text that is blank, no JSON or not readable, or an object
pub data Content : Type 0 where
  blank broken unreadable : Content
  holds : Members → Content

-- The files, `none` for one that does not exist: default.json, local.json and local.json.tmp
pub record Disk : Type 0 where
  pub shipped : Content
  pub local : Option Content
  pub temp : Option Content

-- How one save meets the file system: whether only a part of the text is written, which is no JSON,
-- and which of writeFile, readFile, rename and unlink fail.
pub record Fault : Type 0 where
  pub torn : Bool
  pub write_fails : Bool
  pub read_fails : Bool
  pub rename_fails : Bool
  pub unlink_fails : Bool

abbrev pub written : Fault → Members → Content
written f copy = if f.torn then broken else holds copy

-- JSON.parse of what was read back
abbrev pub parses : Content → Bool
parses (holds m) = true
parses _ = false

abbrev pub give_up : Fault → Disk → Disk × Result Members
give_up f d = (if f.unlink_fails then d else record d { temp = none }, err save_failed)

-- The steps on the files, for the text of an encrypted copy
unfoldable pub replace_file : Fault → Members → Disk → Disk × Result Members
replace_file f copy d =
    let d1 = record d { temp = some (written f copy) } in
    if f.write_fails
    then give_up f d1
    else if f.read_fails
    then give_up f d1
    else if parses (written f copy)
    then (if f.rename_fails
        then give_up f d1
        else (record d1 { local = d1.temp; temp = none }, ok copy))
    else give_up f d1

-- _saveLocal: what throws before the files are touched leaves them alone.
unfoldable pub save_local : Setup → Environment → Fault → Members → Disk → Disk × Result Members
unfolding process_sensitive_fields replace_file
save_local st env f config d = elim (process_sensitive_fields st env encrypting config) [
  | err e ↦ (d, err e)
  | ok copy ↦ replace_file f copy d
]
