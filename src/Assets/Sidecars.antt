-- ===== src/Assets/Sidecars.antt =====
-- The sidecars of existing files: analyzeFile, generateMetadataForExistingFiles and ensureTestAudio
-- of services/system/audioAssetService.js, and services/system/assetMigrationService.js. What a
-- failed step leaves is written out; console output is left out.
pub mod Verdicts
use azan_dashboard.Prelude.{
  ℕ, String, Bool, true, false, not, ◌&&◌, ◌||◌, Option, none, some, List, [], ◌∷◌, str_eq,
  if◌then◌else◌,
}
use azan_dashboard.Text.{includes_text}
use azan_dashboard.Dict.{Dict, lookup, insert, remove}
use azan_dashboard.Json.{
  Value, bool, str, obj, Members, end, field, get, put, member, truthy_option, assign_members,
}
use azan_dashboard.Assets.{
  Answer, fulfilled, rejected, ◌>>=◌, Shelf, Tools, Validator, analyse_audio_file,
  analyse_and_enrich,
}
use azan_dashboard.Assets.Cleanup.{is_audio}

-- The two directories with sidecars
pub record Library : Type 0 where
  pub custom : Shelf
  pub cache : Shelf

-- The sidecar as an object, an empty one where it is missing or no JSON
abbrev pub existing : String → Shelf → Members
existing file shelf = elim (lookup file shelf.meta) [ some (some m) ↦ m | _ ↦ end ]

abbrev pub with_meta : String → Members → Shelf → Shelf
with_meta file m shelf = record shelf { meta = insert file (some m) shelf.meta }

-- analyzeFile, for the path of a file and its base name: the sidecar is taken from the cache if the
-- path has the text `cache` anywhere, and what was there keeps the keys that the analysis lacks.
unfoldable pub analyze_file : Tools → String → String → Library → Library × Answer Members
unfolding analyse_and_enrich includes_text lookup insert assign_members
analyze_file tools audio_path file library = elim (analyse_and_enrich tools audio_path) [
  | rejected message ↦ (library, rejected message)
  | fulfilled enriched ↦
      if includes_text "cache" audio_path
      then (let final = assign_members (existing file library.cache) enriched in
          (record library { cache = with_meta file final library.cache }, fulfilled final))
      else (let final = assign_members (existing file library.custom) enriched in
          (record library { custom = with_meta file final library.custom }, fulfilled final))
]

-- `<file>.json` and `<file>.meta.json` beside the audio files, by the file's name
pub record Legacy : Type 0 where
  pub plain : Dict (Option Members)
  pub redundant : Dict (Option Members)

-- The old sidecar that is read, if any
abbrev pub legacy_data : String → Legacy → Members
legacy_data file old = elim (lookup file old.plain) [
  | some (some m) ↦ m
  | _ ↦ elim (lookup file old.redundant) [ some (some m) ↦ m | _ ↦ end ]
]

abbrev protect : String → Members → Members
protect file m = if str_eq file "azan.mp3" then put "protected" (bool true) m else m

-- One file that has no sidecar
unfoldable pub generate_metadata : Tools → String → Shelf × Legacy → Shelf × Legacy
unfolding analyse_and_enrich lookup insert remove assign_members put
generate_metadata tools file (shelf, old) = elim (analyse_and_enrich tools file) [
  | rejected message ↦ (shelf, old)
  | fulfilled enriched ↦ (
    with_meta file (assign_members (protect file (legacy_data file old)) enriched) shelf,
    record { plain = remove file old.plain; redundant = remove file old.redundant },
  )
]

abbrev pub has_meta : String → Shelf → Bool
has_meta file shelf = elim (lookup file shelf.meta) [ none ↦ false | some m ↦ true ]

-- The loop over the audio files of one directory
unfoldable pub generate_missing : Tools → List String → Shelf × Legacy → Shelf × Legacy
unfolding generate_metadata is_audio lookup
generate_missing tools [] s = s
generate_missing tools (file ∷ files) s = generate_missing tools files (
    if is_audio tools.extname file && not (has_meta file s.0)
    then generate_metadata tools file s
    else s)

-- _migrateFile: `none` where nothing was changed. The verdicts are collected one output after the
-- other, and a sidecar without format or bitrate is analysed again before each missing one.
abbrev pub refreshed : Tools → String → Members → Answer Members
refreshed tools file m =
    if truthy_option (get "format" m) && truthy_option (get "bitrate" m)
    then fulfilled m
    else (do basic ← analyse_audio_file tools file; fulfilled (assign_members m basic))

pub record Checked : Type 0 where
  pub metadata : Members
  pub compatibility : Members
  pub needs_update : Bool

abbrev pub judged : Validator → Value → Members → Checked → Checked
judged v verdict m c = record {
  metadata = m;
  compatibility = put v.id verdict c.compatibility;
  needs_update = true;
}

unfoldable pub add_missing : Tools → String → List Validator → Checked → Answer Checked
unfolding analyse_audio_file assign_members get put
add_missing tools file [] c = fulfilled c
add_missing tools file (v ∷ vs) c = elim (truthy_option (get v.id c.compatibility)) [
  | true ↦ add_missing tools file vs c
  | false ↦ elim (refreshed tools file c.metadata) [
    | rejected message ↦ rejected message
    | fulfilled m ↦ elim (v.validate_asset file m) [
      | rejected message ↦ rejected message
      | fulfilled verdict ↦ add_missing tools file vs (judged v verdict m c)
    ]
  ]
]

-- `metadata.compatibility || {}`, which is an object where it is there
abbrev pub object_or_new : Option Value → Members
object_or_new (some (obj c)) = c
object_or_new _ = end

abbrev pub compatibility_in : Members → Members
compatibility_in m = object_or_new (get "compatibility" m)

-- The sidecar that is written
abbrev pub migrated : Tools → Checked → Members
migrated tools c =
    put "updatedAt" (str tools.iso_now) (put "compatibility" (obj c.compatibility) c.metadata)

abbrev pub write_checked : Tools → String → Shelf → Answer Checked → Shelf × Bool
write_checked tools file shelf (rejected message) = (shelf, false)
write_checked tools file shelf (fulfilled c) =
    if c.needs_update then (with_meta file (migrated tools c) shelf, true) else (shelf, false)

abbrev pub unchecked : Members → Checked
unchecked m = record { metadata = m; compatibility = compatibility_in m; needs_update = false }

abbrev pub migrate_entry : Tools → String → Shelf → Option (Option Members) → Shelf × Bool
migrate_entry tools file shelf (some (some m)) =
    write_checked tools file shelf (add_missing tools file tools.validators (unchecked m))
migrate_entry tools file shelf _ = (shelf, false)

unfoldable pub migrate_file : Tools → String → Shelf → Shelf × Bool
unfolding add_missing lookup insert put
migrate_file tools file shelf = migrate_entry tools file shelf (lookup file shelf.meta)
