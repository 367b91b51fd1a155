-- ===== src/Controllers/Listing.antt =====
-- The list of audio files of controllers/systemController.js: getAudioFiles with
-- _getAudioFilesWithMetadata and its cache. The directories can be made; a page and a limit are
-- what parseInt makes of them, `none` for NaN; path.extname is a parameter.
pub mod Pages
use azan_dashboard.Prelude.{
  ℕ, zero, suc, ◌-◌, ◌+◌, ◌*◌, ◌/◌, ltb, leb, String, Bool, true, false, Option, none, some, List,
  [], ◌∷◌, ◌++◌, map, keep, length, drop, take, if◌then◌else◌, ℤ, pos, negsuc, ◌+ℤ◌, ◌-ℤ◌, ◌*ℤ◌,
}
use azan_dashboard.Text.{concat}
use azan_dashboard.Result.{Result, ok, err, type_error, ◌>>=◌}
use azan_dashboard.Dict.{Dict, lookup}
use azan_dashboard.Json.{Value, null, obj, end, member, truthy_option}
use azan_dashboard.Assets.Cleanup.{is_audio}

-- `type`
pub data Kind : Type 0 where
  custom cache : Kind

abbrev pub kind_text : Kind → String
kind_text custom = "custom"
kind_text cache = "cache"

-- A directory of audio files, and the directory of their sidecars, by the name of the audio file,
-- `none` for one that is no JSON
pub record Folder : Type 0 where
  pub audio : List String
  pub sidecars : Dict (Option Value)

pub record Site : Type 0 where
  pub custom_folder : Folder
  pub cache_folder : Folder

pub record AudioFile : Type 0 where
  pub name : String
  pub kind : Kind
  pub path : String
  pub url : String
  pub metadata : Value

-- How the file system answers one scan: whether each directory can be listed, and each sidecar read
pub record Scan : Type 0 where
  pub custom_lists : Bool
  pub cache_lists : Bool
  pub reads : Kind → String → Bool

abbrev pub flawless : Scan
flawless = record { custom_lists = true; cache_lists = true; reads = λ kind f. true }

-- getFileEntries
abbrev pub get_file_entries : (String → String) → Bool → Folder → List String
get_file_entries extname lists folder = if lists then keep (is_audio extname) folder.audio else []

-- The sidecar of a file, `{}` where it is missing, not readable or no JSON
abbrev pub parsed : Option (Option Value) → Value
parsed (some (some v)) = v
parsed _ = obj end

abbrev pub metadata_of : Bool → Folder → String → Value
metadata_of reads folder f = if reads then parsed (lookup f folder.sidecars) else obj end

unfoldable pub describe : (String → Bool) → Kind → Folder → String → AudioFile
unfolding concat lookup
describe reads kind folder f = record {
  name = f;
  kind = kind;
  path = concat (kind_text kind) (concat "/" f);
  url = concat "/public/audio/" (concat (kind_text kind) (concat "/" f));
  metadata = metadata_of (reads f) folder f;
}

-- allResults
abbrev pub all_results : (String → String) → Scan → Site → List AudioFile
all_results extname scan site =
    map (describe (scan.reads custom) custom site.custom_folder)
      (get_file_entries extname scan.custom_lists site.custom_folder)
    ++ map (describe (scan.reads cache) cache site.cache_folder)
        (get_file_entries extname scan.cache_lists site.cache_folder)

-- `file.metadata.hidden`, which throws for a sidecar that is `null`
abbrev pub is_hidden : Value → Result Bool
is_hidden null = err type_error
is_hidden v = ok (truthy_option (member "hidden" (some v)))

unfoldable pub filter_shown : List AudioFile → Result (List AudioFile)
filter_shown [] = ok []
filter_shown (f ∷ fs) = is_hidden f.metadata >>= λ (hidden : Bool).
    filter_shown fs >>= λ (rest : List AudioFile). ok (if hidden then rest else f ∷ rest)

-- A bound of `slice`, from the end if it is negative
abbrev slice_index : ℕ → ℤ → ℕ
slice_index n (pos i) = i
slice_index n (negsuc i) = n - suc i

-- `xs.slice(from, to)`
unfoldable pub slice {ℓ} : {A : Type ℓ} → ℤ → ℤ → List A → List A
slice from to xs =
    let start = slice_index (length xs) from in
    take (slice_index (length xs) to - start) (drop start xs)

-- `Math.ceil(total / limit)` of a limit other than 0
abbrev pub ceil_div : ℕ → ℤ → ℤ
ceil_div total (pos n) = pos ((total + (n - 1)) / n)
ceil_div total (negsuc n) = pos 0 -ℤ pos (total / suc n)

-- What is answered
pub record Page : Type 0 where
  pub files : List AudioFile
  pub total : ℕ
  pub page : ℤ
  pub limit : ℤ
  pub total_pages : ℤ

unfoldable pub paginate : ℤ → ℤ → List AudioFile → Page
unfolding slice ◌+ℤ◌ ◌-ℤ◌ ◌*ℤ◌
paginate page limit all =
    let start = (page -ℤ pos 1) *ℤ limit in
    record {
      files = slice start (start +ℤ limit) all;
      total = length all;
      page = page;
      limit = limit;
      total_pages = ceil_div (length all) limit;
    }

-- _fileListCache with data: the time of the scan and the files
pub record Cached : Type 0 where
  pub timestamp : ℕ
  pub data_of : List AudioFile

-- _CACHE_TTL, in milliseconds
abbrev pub cache_ttl : ℕ
cache_ttl = 60000

-- invalidateFileCache
abbrev pub invalidate_file_cache : Option Cached
invalidate_file_cache = none

-- The data of a cache that is fresh
abbrev pub cached_files : ℕ → Option Cached → Option (List AudioFile)
cached_files now none = none
cached_files now (some c) = if ltb (now - c.timestamp) cache_ttl then some c.data_of else none

-- _getAudioFilesWithMetadata
unfoldable pub get_audio_files_with_metadata :
    (String → String) → Scan → Site → ℕ → ℤ → ℤ → Option Cached → Option Cached × Result Page
unfolding paginate filter_shown is_audio describe
get_audio_files_with_metadata extname scan site now page limit cached =
    elim (cached_files now cached) [
      | some all ↦ (cached, ok (paginate page limit all))
      | none ↦ elim (filter_shown (all_results extname scan site)) [
        | err thrown ↦ (cached, err thrown)
        | ok shown ↦
            (some (record { timestamp = now; data_of = shown }), ok (paginate page limit shown))
      ]
    ]

-- `parseInt(text) || fallback`
abbrev pub or_default : Option ℤ → ℤ → ℤ
or_default none fallback = fallback
or_default (some (pos zero)) fallback = fallback
or_default (some n) fallback = n

-- getAudioFiles
unfoldable pub get_audio_files :
    (String → String)
    → Scan
    → Site
    → ℕ
    → Option ℤ
    → Option ℤ
    → Option Cached
    → Option Cached × Result Page
unfolding get_audio_files_with_metadata
get_audio_files extname scan site now page limit cached =
    get_audio_files_with_metadata extname scan site now (or_default page (pos 1))
      (or_default limit (pos 50)) cached
