-- ===== src/Sources/Tests.antt =====
-- Sources with paths that are kept as they are, below /audio/.
use azan_dashboard.Prelude.{String, ◌≡◌, refl, true, false, Option, none, some}
use azan_dashboard.Text.{concat}
use azan_dashboard.Sources.{
  Paths, Raw, file, behind, without_slash, has_protocol, ends_scheme, is_http, is_within_root,
  build_file_source, normalize_source,
}
use azan_dashboard.Sources.Safe.{IsSafe, normalize_source-IsSafe}

-- Absolute paths are those below /audio/, whose relative path is the rest.
abbrev below : String → Option String
below s = behind (λ c. c) "/audio/" s

abbrev plain : Paths
plain = record {
  is_absolute = λ s. elim (behind (λ c. c) "/" s) [ none ↦ false | some t ↦ true ];
  normalize = λ s. s;
  relative = λ from to. elim (behind (λ c. c) "/audio/" to) [ none ↦ ".." | some t ↦ t ];
  with_slashes = λ s. s;
  audio_root = "/audio";
  below_root = λ s. concat "/audio/" s;
}

abbrev azan : Raw
azan = record { type = none; path = some "custom/azan.mp3"; file_path = none; url = none }

abbrev script : Raw
script = record { type = none; path = none; file_path = none; url = some "javascript:alert(1)" }

has_protocol_sample : has_protocol "HTTPS://example.org" ≡ true
unfolding has_protocol ends_scheme
has_protocol_sample = refl

is_http_sample : is_http "HTTPS://example.org" ≡ true
unfolding is_http behind
is_http_sample = refl

script_sample : normalize_source plain script ≡ none
unfolding normalize_source has_protocol ends_scheme is_http behind
script_sample = refl

normalize_source-IsSafe_example :
    IsSafe plain (file "/audio/custom/azan.mp3" "/public/audio/custom/azan.mp3")
unfolding normalize_source build_file_source without_slash behind concat is_within_root
normalize_source-IsSafe_example =
    normalize_source-IsSafe plain azan
      (file "/audio/custom/azan.mp3" "/public/audio/custom/azan.mp3") refl
