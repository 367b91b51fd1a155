-- ===== src/Diagnostics.antt =====
-- services/system/diagnosticsService.js: getTTSStatus. path.basename is a parameter; a sidecar that
-- is JSON but no object is left out.
pub mod Verdicts
mod Tests
use azan_dashboard.Prelude.{
  ℕ, String, Bool, true, false, Option, none, some, List, [], ◌∷◌, str_eq, if◌then◌else◌,
}
use azan_dashboard.Text.{concat}
use azan_dashboard.Dict.{Dict, lookup}
use azan_dashboard.Json.{Value, Members, get}
use azan_dashboard.Sources.{filled}
use azan_dashboard.Assets.{Shelf}
use azan_dashboard.Assets.Speech.{Settings, resolve_template, says}
use azan_dashboard.Assets.Sync.{prayer_names}

-- A trigger: the settings of its speech, and its file and address
pub record Trigger : Type 0 where
  pub settings : Settings
  pub path : Option String
  pub url : Option String

-- `{ status, detail }`
pub data Status : Type 0 where
  disabled missing mismatch corrupt unknown : Status
  link : Option String → Status
  custom_file : String → Status
  generated : Option Value → Status

-- ARABIC_NAMES, number-to-words and path.basename
pub record Words : Type 0 where
  pub arabic_names : Dict String
  pub to_words : ℕ → String
  pub basename : String → String

-- `tts_${prayer}_${event}.mp3`
unfoldable pub expected_filename : String → String → String
unfolding concat
expected_filename prayer event = concat "tts_" (concat prayer (concat "_" (concat event ".mp3")))

-- resolveTemplate throws for a template that is missing.
abbrev pub compare_text : Option String → Members → Status
compare_text none meta = corrupt
compare_text (some text) meta =
    if says "text" text meta then generated (get "generatedAt" meta) else mismatch

abbrev pub expected_text : Words → String → Settings → Option String
expected_text w prayer s = elim s.template [
  | none ↦ none
  | some template ↦
      some (resolve_template w.arabic_names w.to_words template prayer s.offset_minutes)
]

abbrev pub check_files : Option String → Option ℕ → Option (Option Members) → Status
check_files text none meta = missing
check_files text (some time) none = missing
check_files text (some time) (some none) = corrupt
check_files text (some time) (some (some meta)) = compare_text text meta

-- The check of one file of speech
unfoldable pub check_task : Words → String → String → Settings → Shelf → Status
unfolding expected_filename resolve_template lookup get
check_task w prayer event s cache =
    let file = expected_filename prayer event in
    check_files (expected_text w prayer s) (lookup file cache.audio) (lookup file cache.meta)

-- `triggerConfig.type || "file"`
abbrev pub audio_type : Settings → String
audio_type s = if str_eq s.type "" then "file" else s.type

abbrev pub file_detail : Words → Option String → String
file_detail w path = elim (filled path) [ none ↦ "Unknown" | some p ↦ w.basename p ]

unfoldable pub event_status : Words → String → String → Option Trigger → Shelf → Status
unfolding check_task
event_status w prayer event none cache = disabled
event_status w prayer event (some t) cache =
    if t.settings.enabled
    then (let type = audio_type t.settings in
        if str_eq type "url"
        then link t.url
        else if str_eq type "file"
        then custom_file (file_detail w t.path)
        else if str_eq type "tts"
        then check_task w prayer event t.settings cache
        else unknown)
    else disabled

-- `triggers[prayer] || {}`
abbrev pub Triggers : Type 0
Triggers = String → Option (Dict Trigger)

unfoldable pub trigger_of : Triggers → String → String → Option Trigger
unfolding lookup
trigger_of triggers prayer event = elim (triggers prayer) [
  | none ↦ none
  | some events ↦ lookup event events
]

abbrev pub events_of : String → List String
events_of prayer =
    if str_eq prayer "sunrise"
    then "preAdhan" ∷ "adhan" ∷ []
    else "preAdhan" ∷ "adhan" ∷ "preIqamah" ∷ "iqamah" ∷ []

unfoldable pub statuses : Words → Triggers → String → List String → Shelf → Dict Status
unfolding event_status trigger_of
statuses w triggers prayer [] cache = []
statuses w triggers prayer (event ∷ events) cache =
    (event, event_status w prayer event (trigger_of triggers prayer event) cache)
    ∷ statuses w triggers prayer events cache

unfoldable pub all_statuses : Words → Triggers → List String → Shelf → Dict (Dict Status)
unfolding statuses
all_statuses w triggers [] cache = []
all_statuses w triggers (prayer ∷ prayers) cache =
    (prayer, statuses w triggers prayer (events_of prayer) cache)
    ∷ all_statuses w triggers prayers cache

-- getTTSStatus
unfoldable pub get_tts_status : Words → Triggers → Shelf → Dict (Dict Status)
unfolding all_statuses
get_tts_status w triggers cache = all_statuses w triggers prayer_names cache
