-- ===== src/Playback.antt =====
-- outputs/BaseOutput.js: execute and _checkSidecarCompatibility, which every output shares. What the
-- outputs do with a source, and the file system, are parameters; what throws is `failed`.
pub mod Played
mod Tests
use azan_dashboard.Prelude.{
  String, Bool, true, false, ◌&&◌, Option, none, some, List, if◌then◌else◌,
}
use azan_dashboard.Settings.{member as contains}
use azan_dashboard.Json.{Value, bool, member}
use azan_dashboard.Sources.{
  Paths, Raw, ExecutionSource, file, link, is_within_root, normalize_source,
}

-- `supportedSourceTypes` and `id` of an output's metadata
pub record Output : Type 0 where
  pub id : String
  pub supported : List String

-- The two roots, the path of a file's sidecar, `access` of an audio file, and a sidecar as it parses
pub record Files : Type 0 where
  pub project_root : String
  pub sidecar_root : String
  pub meta_path : String → String
  pub exists : String → Bool
  pub read_sidecar : String → Option Value

abbrev pub is_false : Option Value → Bool
is_false (some (bool false)) = true
is_false _ = false

-- `sidecar.compatibility?.[meta.id]?.valid === false`
abbrev pub is_rejected : String → Option Value → Bool
is_rejected id sidecar = is_false (member "valid" (member id (member "compatibility" sidecar)))

-- Whether _checkSidecarCompatibility answers false
unfoldable pub is_incompatible : Paths → Files → Output → String → Bool
unfolding is_within_root
is_incompatible p files output target =
    if is_within_root p files.project_root target
    then (let meta = files.meta_path target in
        if is_within_root p files.sidecar_root meta
        then is_rejected output.id (files.read_sidecar meta)
        else false)
    else false

-- What an execution comes to: nothing for a file that is not compatible, or a source that the output
-- plays
pub data Execution : Type 0 where
  failed skipped : Execution
  played : ExecutionSource → Execution

abbrev pub type_of : ExecutionSource → String
type_of (file target url) = "file"
type_of (link url) = "url"

abbrev pub dispatch : Paths → Files → Output → ExecutionSource → Execution
dispatch p files output (link url) = played (link url)
dispatch p files output (file target url) =
    if files.exists target
    then (if is_incompatible p files output target then skipped else played (file target url))
    else failed

abbrev pub execute_supported : Paths → Files → Output → ExecutionSource → Execution
execute_supported p files output source =
    if contains (type_of source) output.supported then dispatch p files output source else failed

-- execute, with the source of the payload
unfoldable pub execute : Paths → Files → Output → Option Raw → Execution
unfolding normalize_source contains is_incompatible
execute p files output none = failed
execute p files output (some raw) = elim (normalize_source p raw) [
  | none ↦ failed
  | some source ↦ execute_supported p files output source
]
