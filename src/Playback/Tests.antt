-- ===== src/Playback/Tests.antt =====
-- A file with a sidecar that accepts it.
use azan_dashboard.Prelude.{true, refl, none, some, [], ◌∷◌}
use azan_dashboard.Text.{concat, starts_with}
use azan_dashboard.Settings.{member as contains}
use azan_dashboard.Json.{bool, obj, end, field, get}
use azan_dashboard.Sources.{
  Paths, Raw, file, behind, without_slash, is_within_root, build_file_source, normalize_source,
}
use azan_dashboard.Playback.{Output, Files, is_incompatible, execute}
use azan_dashboard.Playback.Played.{IsPlayable, execute-IsPlayable}

abbrev plain : Paths
plain = record {
  is_absolute = λ s. starts_with "/" s;
  normalize = λ s. s;
  relative = λ from to. "a";
  with_slashes = λ s. s;
  audio_root = "/audio";
  below_root = λ s. concat "/audio/" s;
}

abbrev files : Files
files = record {
  project_root = "/audio";
  sidecar_root = "/meta";
  meta_path = λ s. s;
  exists = λ s. true;
  read_sidecar = λ s. some (
      obj (
        field "compatibility" (obj (field "local" (obj (field "valid" (bool true) end)) end)) end));
}

abbrev local_output : Output
local_output = record { id = "local"; supported = "file" ∷ [] }

abbrev azan : Raw
azan = record { type = none; path = some "azan.mp3"; file_path = none; url = none }

execute-IsPlayable_example :
    IsPlayable plain files local_output (file "/audio/azan.mp3" "/public/audio/azan.mp3")
unfolding execute normalize_source build_file_source without_slash behind concat is_within_root
    contains is_incompatible starts_with get
execute-IsPlayable_example =
    execute-IsPlayable plain files local_output (some azan)
      (file "/audio/azan.mp3" "/public/audio/azan.mp3") refl
