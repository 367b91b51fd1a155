-- ===== src/Controllers/Files.antt =====
-- The audio files of controllers/settingsController.js: sanitizeFilename, uploadFile and
-- deleteFile. node's path module and the failures of the file system are parameters; a copy that
-- fails leaves nothing.
pub mod Coherence
pub mod Closure
pub mod Guarded
use Prim.Native.Char.{code}
use Prim.Native.String.{[], ◌∷◌}
use azan_dashboard.Prelude.{
  ℕ, ◌==◌, leb, String, Bool, true, false, not, ◌&&◌, ◌||◌, Option, none, some, List, ◌++◌, length,
  keep, str_eq, if◌then◌else◌,
}
use azan_dashboard.Text.{concat, starts_with}
use azan_dashboard.Settings.{member as contains}
use azan_dashboard.Dict.{Dict, lookup, insert, remove}
use azan_dashboard.Json.{
  Value, str, obj, Members, end, field, get, put, member, truthy_option, assign_members,
}
use azan_dashboard.Assets.{Answer, fulfilled, rejected, Tools, analyse_audio_file, enrich_metadata}
use azan_dashboard.Sources.{is_letter, between}
use azan_dashboard.Controllers.Listing.{Folder, Site, Cached, invalidate_file_cache}

-- path.basename, path.isAbsolute, path.join of the custom directory and a name, and path.relative of
-- a directory and what path.resolve makes of it and a name
pub record Paths : Type 0 where
  pub basename : String → String
  pub is_absolute : String → Bool
  pub target_path : String → String
  pub audio_relative : String → String
  pub meta_relative : String → String

-- `[\w._-]`
abbrev is_safe : ℕ → Bool
is_safe c = is_letter c || (between b'0' b'9' c || (c == b'_' || (c == b'.' || c == b'-')))

-- `s.replace(/[^\w._-]/g, "_")`
unfoldable pub replace_unsafe : String → String
unfolding concat
replace_unsafe [] = []
replace_unsafe (c ∷ s) =
    let rest = replace_unsafe s in if is_safe (code c) then c ∷ rest else concat "_" rest

-- sanitizeFilename: `none` is the exception.
unfoldable pub sanitize_filename : Paths → Option Value → Option String
unfolding replace_unsafe
sanitize_filename p (some (str raw)) =
    let cleaned = replace_unsafe (p.basename raw) in
    if str_eq raw ""
    then none
    else if str_eq cleaned ""
        || (not (str_eq cleaned raw) || (str_eq cleaned "." || str_eq cleaned ".."))
    then none
    else some cleaned
sanitize_filename p _ = none

-- The containment check of a relative path
abbrev pub is_contained : Paths → String → Bool
is_contained p rel = str_eq rel "" || (not (starts_with ".." rel) && not (p.is_absolute rel))

-- The state: the directories, the files in the directory for uploads, and _fileListCache
pub record State : Type 0 where
  pub site : Site
  pub temp : List String
  pub cached : Option Cached

-- What is answered: a success, or the status of a failure
pub data Reply : Type 0 where
  success : Reply
  failed : ℕ → Reply

abbrev pub with_custom : Folder → State → State
with_custom folder s = record s { site = record s.site { custom_folder = folder } }

-- `access` of an audio file
abbrev pub has_audio : String → Folder → Bool
has_audio name folder = contains name folder.audio

abbrev other_than : String → String → Bool
other_than name f = not (str_eq f name)

abbrev pub without_audio : String → Folder → Folder
without_audio name folder = record folder { audio = keep (other_than name) folder.audio }

-- `metadata.protected` of a sidecar that is JSON
abbrev pub protects : Option (Option Value) → Bool
protects (some (some v)) = truthy_option (member "protected" (some v))
protects _ = false

abbrev pub is_protected : String → Folder → Bool
is_protected name folder = protects (lookup name folder.sidecars)

-- The audio file is deleted if it is there; `none` if that throws.
abbrev pub erase_audio : Bool → String → Folder → Option (Folder × Bool)
erase_audio unlinks name folder =
    if has_audio name folder
    then (if unlinks then some (without_audio name folder, true) else none)
    else some (folder, false)

-- The same for the sidecar
abbrev pub erase_sidecar : Bool → String → Folder → Option (Folder × Bool)
erase_sidecar unlinks name folder = elim (lookup name folder.sidecars) [
  | none ↦ some (folder, false)
  | some m ↦
      if unlinks
      then some (record folder { sidecars = remove name folder.sidecars }, true)
      else none
]

-- The list is dropped if anything was deleted.
abbrev pub finish_delete : Bool → State → State × Reply
finish_delete true s = (record s { cached = invalidate_file_cache }, success)
finish_delete false s = (s, failed 404)

abbrev pub behind_sidecar : Bool → Folder → State → Option (Folder × Bool) → State × Reply
behind_sidecar a first s none = (with_custom first s, failed 500)
behind_sidecar a first s (some (second, m)) = finish_delete (a || m) (with_custom second s)

abbrev pub behind_audio : Bool → String → State → Option (Folder × Bool) → State × Reply
behind_audio meta_unlinks name s none = (s, failed 500)
behind_audio meta_unlinks name s (some (first, a)) =
    behind_sidecar a first s (erase_sidecar meta_unlinks name first)

unfoldable pub delete_parts : Bool → Bool → String → State → State × Reply
unfolding contains lookup remove
delete_parts audio_unlinks meta_unlinks name s =
    behind_audio meta_unlinks name s (erase_audio audio_unlinks name s.site.custom_folder)

-- deleteFile, with whether the sidecar can be read and the two unlinks succeed: a sidecar that
-- cannot be read protects nothing.
unfoldable pub delete_file :
    Paths → (reads audio_unlinks meta_unlinks : Bool) → Option Value → State → State × Reply
unfolding sanitize_filename starts_with delete_parts
delete_file p reads audio_unlinks meta_unlinks filename s = elim (sanitize_filename p filename) [
  | none ↦ (s, failed 400)
  | some name ↦
      if not (is_contained p (p.audio_relative name) && is_contained p (p.meta_relative name))
      then (s, failed 400)
      else if reads && is_protected name s.site.custom_folder
      then (s, failed 403)
      else delete_parts audio_unlinks meta_unlinks name s
]

-- `req.file` of multer
pub record Upload : Type 0 where
  pub path : String
  pub filename : String

-- Which steps succeed: making the directories, listing the custom one, the copy, the unlink behind it, the unlink of a
-- clean-up and the write of the sidecar
pub record Steps : Type 0 where
  pub makes : Bool
  pub lists : Bool
  pub copies : Bool
  pub moves : Bool
  pub drops : Bool
  pub writes : Bool

abbrev pub max_files : ℕ
max_files = 500

abbrev drop_temp : Bool → String → State → State
drop_temp drops path s = record s { temp = if drops then keep (other_than path) s.temp else s.temp }

-- The check of the content
abbrev text_member : Option Value → String
text_member (some (str t)) = t
text_member _ = ""

unfoldable pub check_content : Tools → String → Answer Members
unfolding analyse_audio_file get starts_with
check_content tools path = elim (analyse_audio_file tools path) [
  | rejected message ↦ rejected message
  | fulfilled basic ↦
      if starts_with "audio/" (text_member (get "mimeType" basic))
      then fulfilled basic
      else rejected "Invalid file format: Not a valid audio file"
]

-- copyFile puts a new file into the list, or over the file of that name.
abbrev pub with_audio : String → Folder → Folder
with_audio name folder = record folder {
  audio =
      if contains name folder.audio then folder.audio else folder.audio ++ List.◌∷◌ name List.[];
}

abbrev pub with_sidecar : String → Members → Folder → Folder
with_sidecar name m folder = record folder { sidecars = insert name (some (obj m)) folder.sidecars }

-- The sidecar is written, and the list is dropped.
abbrev pub finish_upload : Steps → String → State → Answer Members → State × Reply
finish_upload steps filename s (rejected message) = (s, failed 500)
finish_upload steps filename s (fulfilled enriched) =
    let written = with_custom (with_sidecar filename enriched s.site.custom_folder) s in
    if steps.writes
    then (record written { cached = invalidate_file_cache }, success)
    else (s, failed 500)

-- Behind the check: the copy, the unlink and the sidecar
unfoldable pub store_upload : Paths → Tools → Steps → Upload → Members → State → State × Reply
unfolding contains insert enrich_metadata
store_upload p tools steps u basic s =
    let copied = with_custom (with_audio u.filename s.site.custom_folder) s in
    if not steps.copies
    then (drop_temp steps.drops u.path s, failed 500)
    else if not steps.moves
    then (drop_temp steps.drops u.path copied, failed 500)
    else finish_upload steps u.filename (drop_temp true u.path copied)
        (enrich_metadata tools (p.target_path u.filename) basic)

unfoldable pub store_checked :
    Paths → Tools → Steps → Upload → State → Answer Members → State × Reply
unfolding store_upload
store_checked p tools steps u s (rejected message) = (drop_temp steps.drops u.path s, failed 400)
store_checked p tools steps u s (fulfilled basic) = store_upload p tools steps u basic s

-- `readdir(targetDir).catch(() => [])`
abbrev pub existing_files : Bool → Folder → List String
existing_files lists folder = if lists then folder.audio else List.[]

-- uploadFile
unfoldable pub upload_file : Paths → Tools → Steps → Option Upload → State → State × Reply
unfolding check_content store_checked
upload_file p tools steps none s = (s, failed 400)
upload_file p tools steps (some u) s =
    if not steps.makes
    then (drop_temp steps.drops u.path s, failed 500)
    else if leb max_files (length (existing_files steps.lists s.site.custom_folder))
    then (drop_temp steps.drops u.path s, failed 400)
    else store_checked p tools steps u s (check_content tools u.path)
