-- ===== src/Sources.antt =====
-- utils/normalizeSource.js and utils/pathUtils.js: what an audio source may point to. node's path
-- module is a parameter. An exception is `none`.
pub mod Safe
mod Tests
use Prim.Native.Char.{code}
use Prim.Native.String.{[], ◌∷◌}
use azan_dashboard.Text.{concat}
use azan_dashboard.Prelude.{
  ℕ, ◌+◌, ◌==◌, leb, String, Bool, true, false, not, ◌&&◌, ◌||◌, Option, none, some, str_eq,
  if◌then◌else◌,
}

pub record Paths : Type 0 where
  pub is_absolute : String → Bool
  pub normalize : String → String
  -- path.relative(from, to)
  pub relative : String → String → String
  -- `text.split(path.sep).join("/")`
  pub with_slashes : String → String
  -- AUDIO_ROOT, and `${AUDIO_ROOT}${path.sep}${relativePath}`
  pub audio_root : String
  pub below_root : String → String

-- The fields of a raw source; `none` is one that is not a text.
pub record Raw : Type 0 where
  pub type : Option String
  pub path : Option String
  pub file_path : Option String
  pub url : Option String

-- `{ type: "file", filePath, url }` and `{ type: "url", url }`
pub data ExecutionSource : Type 0 where
  file : String → String → ExecutionSource
  link : String → ExecutionSource

-- The text behind a prefix, under a map of code points
unfoldable pub behind : (ℕ → ℕ) → String → String → Option String
behind fold [] s = some s
behind fold (p ∷ ps) [] = none
behind fold (p ∷ ps) (c ∷ s) =
    let rest = behind fold ps s in if fold (code c) == code p then rest else none

abbrev pub between : ℕ → ℕ → ℕ → Bool
between a b c = leb a c && leb c b

abbrev pub is_letter : ℕ → Bool
is_letter c = between b'a' b'z' c || between b'A' b'Z' c

abbrev pub lower : ℕ → ℕ
lower c = if between b'A' b'Z' c then c + 32 else c

abbrev pub same : ℕ → ℕ
same c = c

abbrev pub is_scheme_char : ℕ → Bool
is_scheme_char c = is_letter c || (between b'0' b'9' c || (c == b'+' || (c == b'.' || c == b'-')))

unfoldable pub ends_scheme : String → Bool
ends_scheme [] = false
ends_scheme (c ∷ s) =
    let rest = ends_scheme s in
    if code c == b':' then true else if is_scheme_char (code c) then rest else false

-- _hasProtocol: /^[a-zA-Z][a-zA-Z0-9+.-]*:/i
unfoldable pub has_protocol : String → Bool
unfolding ends_scheme
has_protocol [] = false
has_protocol (c ∷ s) = if is_letter (code c) then ends_scheme s else false

abbrev is_there : Option String → Bool
is_there none = false
is_there (some s) = true

-- _validateUrlProtocol: /^https?:\/\//i
unfoldable pub is_http : String → Bool
unfolding behind
is_http s = is_there (behind lower "http://" s) || is_there (behind lower "https://" s)

-- A text that is there and not empty
abbrev pub filled : Option String → Option String
filled none = none
filled (some s) = if str_eq s "" then none else some s

-- `source.path.replace(/^\//, "")`
unfoldable pub without_slash : String → String
without_slash [] = []
without_slash (c ∷ s) = if code c == b'/' then s else c ∷ s

abbrev pub public_prefix : String
public_prefix = "/public/audio/"

-- utils/pathUtils.js
unfoldable pub is_within_root : Paths → String → String → Bool
unfolding behind
is_within_root p root target =
    if p.is_absolute root && p.is_absolute target
    then (let rel = p.relative (p.normalize root) (p.normalize target) in
        str_eq rel "" || (not (is_there (behind same ".." rel)) && not (p.is_absolute rel)))
    else false

abbrev pub relative_path : Paths → (path file_path url : Option String) → Option String
relative_path p (some x) file_path url = some (without_slash x)
relative_path p none (some f) url = some (p.relative p.audio_root f)
relative_path p none none none = none
relative_path p none none (some u) = behind same public_prefix u

abbrev pub absolute_path : Paths → Option String → String → String
absolute_path p none rel = p.normalize (p.below_root rel)
absolute_path p (some f) rel = p.normalize f

abbrev pub url_of : Option String → String → String
url_of none rel = concat public_prefix rel
url_of (some u) rel = u

-- _buildFileSource, with the fields that are there
unfoldable pub build_file_source :
    Paths → (path file_path url : Option String) → Option ExecutionSource
unfolding is_within_root without_slash behind concat
build_file_source p path file_path url = elim (relative_path p path file_path url) [
  | none ↦ none
  | some raw ↦
      let rel = p.with_slashes raw in
      let target = absolute_path p file_path rel in
      if is_within_root p p.audio_root target then some (file target (url_of url rel)) else none
]

-- `hasUrl && _hasProtocol(source.url)`
abbrev pub has_remote : Option String → Bool
has_remote none = false
has_remote (some u) = has_protocol u

-- A url that is validated
abbrev pub checked_link : Option String → Option ExecutionSource
checked_link none = none
checked_link (some u) = if is_http u then some (link u) else none

abbrev pub is_allowed : Option String → Bool
is_allowed none = true
is_allowed (some u) = if has_protocol u then is_http u else true

-- The branch of `type: "file"`
abbrev pub typed_file : Paths → (file_path url : Option String) → Option ExecutionSource
typed_file p none none = none
typed_file p file_path url = if is_allowed url then build_file_source p none file_path url else none

abbrev pub untyped : Paths → (path file_path url : Option String) → Option ExecutionSource
untyped p path file_path url =
    if has_remote url then checked_link url else build_file_source p path file_path url

abbrev pub is_type : String → Option String → Bool
is_type t none = false
is_type t (some s) = str_eq s t

-- Of the guard for a source without path, filePath and url, the throw is that of _buildFileSource.
unfoldable pub normalize_source : Paths → Raw → Option ExecutionSource
unfolding has_protocol is_http build_file_source
normalize_source p raw =
    if is_type "file" raw.type
    then typed_file p (filled raw.file_path) (filled raw.url)
    else if is_type "url" raw.type
    then checked_link (filled raw.url)
    else untyped p (filled raw.path) (filled raw.file_path) (filled raw.url)
