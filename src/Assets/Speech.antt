-- ===== src/Assets/Speech.antt =====
-- services/system/audioAssetService.js: resolveTemplate, ensureTTSFile and previewTTS. The speech
-- service, the health check, the quota, number-to-words and the hash are parameters.
pub mod Current
pub mod Apart
use azan_dashboard.Prelude.{
  ℕ, ◌+◌, ◌-◌, ◌*◌, ltb, String, Bool, true, false, ◌&&◌, Option, none, some, List, [], ◌∷◌, str_eq,
  if◌then◌else◌, or_else,
}
use azan_dashboard.Text.{concat, capitalise, replace_all, text_length, lower}
use azan_dashboard.Dict.{Dict, lookup, insert}
use azan_dashboard.Json.{Value, str, Members, end, field, get, assign_members}
use azan_dashboard.Sources.{filled}
use azan_dashboard.Assets.{Answer, fulfilled, rejected, Shelf, Tools, analyse_and_enrich}

-- A trigger's settings, as far as speech goes
pub record Settings : Type 0 where
  pub enabled : Bool
  pub type : String
  pub template : Option String
  pub offset_minutes : Option ℕ
  pub voice : Option String

pub record Task : Type 0 where
  pub prayer : String
  pub event : String
  pub template : String
  pub offset_minutes : Option ℕ
  pub voice : Option String

-- `automation.pythonServiceUrl` and `automation.defaultVoice`
pub record SpeechConfig : Type 0 where
  pub service_url : Option String
  pub default_voice : Option String

-- The services around one call, at one time. `synthesise` is the POST to generate-tts with its
-- url, text, file name and voice, `quota` is checkQuota; both give the message of a failure.
pub record World : Type 0 where
  pub tools : Tools
  pub now : ℕ
  -- ARABIC_NAMES and number-to-words
  pub arabic_names : Dict String
  pub to_words : ℕ → String
  pub is_healthy : Bool
  pub quota : ℕ → Option String
  pub synthesise : String → String → String → String → Option String

abbrev arabic_name : Dict String → String → String
arabic_name names key = elim (lookup key names) [ none ↦ key | some name ↦ name ]

unfoldable pub resolve_template : Dict String → (ℕ → String) → String → String → Option ℕ → String
unfolding replace_all capitalise lookup
resolve_template names to_words template key offset =
    let named =
      replace_all "{prayerArabic}" (arabic_name names key)
        (replace_all "{prayerEnglish}" (capitalise key) template) in
    elim offset [ none ↦ named | some n ↦ replace_all "{minutes}" (to_words n) named ]

-- TTS_FILENAME_PATTERN
unfoldable pub file_name : Task → String
unfolding concat
file_name task = concat "tts_" (concat task.prayer (concat "_" (concat task.event ".mp3")))

abbrev pub url_of : SpeechConfig → String
url_of config = elim (filled config.service_url) [ none ↦ "http://localhost:8000" | some url ↦ url ]

unfoldable pub voice_of : Task → SpeechConfig → String
voice_of task config = elim (or_else (filled task.voice) (filled config.default_voice)) [
  | none ↦ "ar-SA-HamedNeural"
  | some v ↦ v
]

unfoldable pub spoken : World → Task → String
unfolding resolve_template
spoken w task =
    resolve_template w.arabic_names w.to_words task.template task.prayer task.offset_minutes

-- `meta[key] === text`
abbrev pub says : String → String → Members → Bool
says key text meta = elim (get key meta) [ some (str s) ↦ str_eq s text | _ ↦ false ]

abbrev pub sidecar_says : String → String → Option (Option Members) → Bool
sidecar_says text voice (some (some meta)) = says "text" text meta && says "voice" voice meta
sidecar_says text voice _ = false

abbrev pub files_say : String → String → Option ℕ → Option (Option Members) → Bool
files_say text voice none meta = false
files_say text voice (some time) meta = sidecar_says text voice meta

-- Both files are there, and the sidecar has the text and the voice.
unfoldable pub is_current : String → String → String → Shelf → Bool
unfolding lookup get
is_current file text voice shelf =
    files_say text voice (lookup file shelf.audio) (lookup file shelf.meta)

-- The result of ensureTTSFile
pub record Ensured : Type 0 where
  pub success : Bool
  pub message : String
  pub generated : Bool

abbrev pub failed : String → Answer Ensured
failed message = fulfilled (record { success = false; message = message; generated = false })

-- The sidecar of a generated file
abbrev pub sidecar : World → String → String → Members → Members
sidecar w text voice enriched =
    assign_members
      (field "text" (str text)
        (field "voice" (str voice) (field "generatedAt" (str w.tools.iso_now) end)))
      enriched

-- Behind the analysis of a generated file
abbrev pub write_sidecar :
    World → String → String → String → Shelf → Answer Members → Shelf × Answer Ensured
write_sidecar w file text voice shelf (rejected message) = (shelf, failed message)
write_sidecar w file text voice shelf (fulfilled enriched) = (
  record shelf { meta = insert file (some (sidecar w text voice enriched)) shelf.meta },
  fulfilled (record { success = true; message = "Successfully generated"; generated = true }),
)

-- The try block: the service writes the file, which is then analysed.
unfoldable pub generate : World → String → String → String → String → Shelf → Shelf × Answer Ensured
unfolding insert analyse_and_enrich assign_members
generate w url file text voice shelf = elim (w.synthesise url text file voice) [
  | some message ↦ (shelf, failed message)
  | none ↦
      write_sidecar w file text voice (record shelf { audio = insert file w.now shelf.audio })
        (analyse_and_enrich w.tools file)
]

abbrev pub offline : String
offline = "TTS Service Offline. Generation will be attempted again at trigger time."

-- The checks before anything is generated; an exceeded quota throws.
unfoldable pub generate_if_allowed :
    World → String → String → String → String → Shelf → Shelf × Answer Ensured
unfolding generate text_length concat
generate_if_allowed w url file text voice shelf =
    if w.is_healthy
    then elim (w.quota (text_length text * 1024)) [
      | some message ↦ (shelf, rejected (concat "Storage Limit Exceeded: " message))
      | none ↦ generate w url file text voice shelf
    ]
    else (shelf, failed offline)

abbrev pub up_to_date : Answer Ensured
up_to_date = fulfilled (record { success = true; message = "Valid file exists"; generated = false })

unfoldable pub ensure_tts_file : World → SpeechConfig → Task → Shelf → Shelf × Answer Ensured
unfolding is_current generate_if_allowed insert spoken voice_of file_name
ensure_tts_file w config task shelf =
    let file = file_name task in
    let text = spoken w task in
    let voice = voice_of task config in
    if is_current file text voice shelf
    then (record shelf { audio = insert file w.now shelf.audio }, up_to_date)
    else generate_if_allowed w (url_of config) file text voice shelf
