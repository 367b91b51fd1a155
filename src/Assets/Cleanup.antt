-- ===== src/Assets/Cleanup.antt =====
-- services/system/audioAssetService.js: cleanupCache and cleanupTempAudio.
pub mod Ages
use azan_dashboard.Prelude.{
  ℕ, ◌-◌, ◌*◌, ltb, String, Bool, true, false, not, ◌&&◌, ◌||◌, Option, none, some, List, [], ◌∷◌,
  if◌then◌else◌,
}
use azan_dashboard.Text.{lower}
use azan_dashboard.Settings.{member}
use azan_dashboard.Dict.{Dict, remove}
use azan_dashboard.Json.{Members}
use azan_dashboard.Assets.{Shelf}

-- In milliseconds
abbrev pub cache_max_age : ℕ
cache_max_age = 30 * 24 * 60 * 60 * 1000

abbrev pub temp_max_age : ℕ
temp_max_age = 60 * 60 * 1000

-- `now - stats.mtimeMs > MAX_AGE`
abbrev pub is_older : ℕ → ℕ → ℕ → Bool
is_older max now time = ltb max (now - time)

-- A file and, if it can be deleted, its sidecar are gone.
abbrev pub without : (String → Bool) → String → Shelf → Shelf
without drops file shelf = record {
  audio = remove file shelf.audio;
  meta = if drops file then remove file shelf.meta else shelf.meta;
}

-- The loop over the files that were listed; `deletes` says of a file whether its unlink succeeds,
-- and one that fails ends the loop. The sidecar goes if it can.
unfoldable pub clean_listed : (String → Bool) → (String → Bool) → ℕ → Dict ℕ → Shelf → Shelf
unfolding remove
clean_listed deletes drops now [] shelf = shelf
clean_listed deletes drops now ((file, time) ∷ files) shelf =
    elim (is_older cache_max_age now time) [
      | false ↦ clean_listed deletes drops now files shelf
      | true ↦ elim (deletes file) [
        | false ↦ shelf
        | true ↦ clean_listed deletes drops now files (without drops file shelf)
      ]
    ]

unfoldable pub cleanup_cache : (String → Bool) → (String → Bool) → ℕ → Shelf → Shelf
unfolding clean_listed
cleanup_cache deletes drops now shelf = clean_listed deletes drops now shelf.audio shelf

abbrev pub audio_extensions : List String
audio_extensions = ".mp3" ∷ ".wav" ∷ ".aac" ∷ ".ogg" ∷ ".opus" ∷ ".flac" ∷ ".m4a" ∷ []

-- `audioExtensions.includes(path.extname(file).toLowerCase())`
unfoldable pub is_audio : (String → String) → String → Bool
unfolding lower member
is_audio extname file = member (lower (extname file)) audio_extensions

unfoldable pub clean_temp_listed :
    (String → String) → (String → Bool) → Bool → ℕ → Dict ℕ → Dict ℕ → Dict ℕ
unfolding is_audio remove
clean_temp_listed extname deletes force now [] temp = temp
clean_temp_listed extname deletes force now ((file, time) ∷ files) temp =
    elim (is_audio extname file && (force || is_older temp_max_age now time)) [
      | false ↦ clean_temp_listed extname deletes force now files temp
      | true ↦ elim (deletes file) [
        | false ↦ temp
        | true ↦ clean_temp_listed extname deletes force now files (remove file temp)
      ]
    ]

unfoldable pub cleanup_temp_audio : (String → String) → (String → Bool) → Bool → ℕ → Dict ℕ → Dict ℕ
unfolding clean_temp_listed
cleanup_temp_audio extname deletes force now temp =
    clean_temp_listed extname deletes force now temp temp
