-- ===== src/Assets.antt =====
-- services/system/audioAssetService.js with utils/audioValidator.js: the audio files with their
-- sidecars, and how a file is analysed. music-metadata and the outputs' own validations are
-- parameters; what throws is `rejected` with its message.
pub mod Speech
pub mod Cleanup
pub mod Sync
pub mod Sidecars
mod Tests
use azan_dashboard.Prelude.{
  ℕ, String, Bool, true, false, ◌&&◌, ◌||◌, Option, none, some, List, [], ◌∷◌, str_eq,
  if◌then◌else◌, ℤ, pos, ◌≡◌, refl, arith, ◌⊎◌, inl, inr,
}
use azan_dashboard.Text.{concat, includes, includes_text, lower}
use azan_dashboard.Dict.{Dict, lookup, insert}
use azan_dashboard.Json.{
  Value, num, str, obj, Members, end, field, get, put, put_option, assign_members,
}

-- Allsettled results
pub data Answer {ℓ} (A : Type ℓ) : Type ℓ where
  fulfilled : A → Answer A
  rejected : String → Answer A

infixl 5 ◌>>=◌
abbrev pub ◌>>=◌ {ℓ κ} : {A : Type ℓ} {B : Type κ} → Answer A → (A → Answer B) → Answer B
rejected message >>= next = rejected message
fulfilled a >>= next = next a

-- What returns has returned at its first step.
pub from_answer {ℓ κ} :
    {A : Type ℓ} {B : Type κ} (r : Answer A) (k : A → Answer B) (b : B)
    → (r >>= k) ≡ fulfilled b
    → (a : A) × (r ≡ fulfilled a) × (k a ≡ fulfilled b)
from_answer (fulfilled a) k b e = (a, refl, e)
from_answer (rejected message) k b e = absurd (ground arith)

pub fulfilled-injective {ℓ} : {A : Type ℓ} {a b : A} → fulfilled a ≡ fulfilled b → a ≡ b
fulfilled-injective e = ground arith

pub Answer-cases {ℓ} :
    {A : Type ℓ} (r : Answer A) → ((a : A) × (r ≡ fulfilled a)) ⊎ ((s : String) × (r ≡ rejected s))
Answer-cases (fulfilled a) = inl (a, refl)
Answer-cases (rejected message) = inr (message, refl)

-- `metadata.format` of music-metadata
pub record Format : Type 0 where
  pub container : Option String
  pub codec : Option String
  pub bitrate : Option Value
  pub sample_rate : Option Value
  pub duration : Option Value
  pub lossless : Bool

-- A directory of audio files, by name, with the times of their last change; and the directory of
-- their sidecars, by the name of the audio file, `none` for one that is no JSON object.
pub record Shelf : Type 0 where
  pub audio : Dict ℕ
  pub meta : Dict (Option Members)

-- An output's validateAsset, which may throw
pub record Validator : Type 0 where
  pub id : String
  pub validate_asset : String → Members → Answer Value

-- What the service relies on: parseFile and the size of a file, path.extname, the outputs, the text
-- of the current time
pub record Tools : Type 0 where
  pub parse_file : String → Answer Format
  pub size : String → ℕ
  pub extname : String → String
  pub validators : List Validator
  pub iso_now : String

abbrev text_of : Option String → String
text_of none = ""
text_of (some s) = s

-- getMimeType: the codec, the container, the extension, and what is left
abbrev mime_by_extension : Bool → String → String
mime_by_extension lossless ext =
    if str_eq ext ".mp3"
    then "audio/mpeg"
    else if str_eq ext ".wav"
    then "audio/wav"
    else if str_eq ext ".aac"
    then "audio/aac"
    else if str_eq ext ".ogg"
    then "audio/ogg"
    else if str_eq ext ".opus"
    then "audio/opus"
    else if str_eq ext ".flac"
    then "audio/flac"
    else if lossless
    then "audio/wav"
    else "audio/mpeg"

abbrev mime_by_container : Bool → String → String → String → String
mime_by_container lossless container codec ext =
    if str_eq container "wav" || str_eq container "wave"
    then "audio/wav"
    else if str_eq container "ogg"
    then "audio/ogg"
    else if str_eq container "adts"
    then "audio/aac"
    else if str_eq container "flac"
    then "audio/flac"
    else if str_eq container "mpeg" && includes b'3' codec
    then "audio/mpeg"
    else mime_by_extension lossless ext

unfoldable pub get_mime_type : Format → String → String
unfolding lower includes includes_text
get_mime_type f extension =
    let container = lower (text_of f.container) in
    let codec = lower (text_of f.codec) in
    let ext = lower extension in
    if str_eq codec "opus"
    then "audio/opus"
    else if includes_text "aac" codec
    then "audio/aac"
    else mime_by_container f.lossless container codec ext

abbrev text_value : Option String → Option Value
text_value none = none
text_value (some s) = some (str s)

-- The object that analyseAudioFile returns, less its undefined members
unfoldable pub basic_metadata : Tools → String → Format → Members
unfolding get_mime_type
basic_metadata tools file f = put_option "format" (text_value f.container) (
    put_option "codec" (text_value f.codec) (
      put_option "bitrate" f.bitrate (
        put_option "sampleRate" f.sample_rate (
          put_option "duration" f.duration (
            field "size" (num (pos (tools.size file)))
              (field "mimeType" (str (get_mime_type f (tools.extname file))) end))))))

unfoldable pub analyse_audio_file : Tools → String → Answer Members
unfolding basic_metadata
analyse_audio_file tools file = do
  f ← tools.parse_file file
  fulfilled (basic_metadata tools file f)

-- The loop of enrichMetadata over the outputs
unfoldable pub compatibility_of : List Validator → String → Members → Members → Answer Members
unfolding put
compatibility_of [] file basic done = fulfilled done
compatibility_of (v ∷ vs) file basic done = elim (v.validate_asset file basic) [
  | rejected message ↦ rejected message
  | fulfilled verdict ↦ compatibility_of vs file basic (put v.id verdict done)
]

unfoldable pub enrich_metadata : Tools → String → Members → Answer Members
unfolding compatibility_of put
enrich_metadata tools file basic = do
  compatibility ← compatibility_of tools.validators file basic end
  fulfilled (put "updatedAt" (str tools.iso_now) (put "compatibility" (obj compatibility) basic))

-- Both, as every caller does them
unfoldable pub analyse_and_enrich : Tools → String → Answer Members
unfolding analyse_audio_file enrich_metadata
analyse_and_enrich tools file = do
  basic ← analyse_audio_file tools file
  enrich_metadata tools file basic
