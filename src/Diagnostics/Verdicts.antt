-- ===== src/Diagnostics/Verdicts.antt =====
-- What services/system/diagnosticsService.js reports and what ensureTTSFile of
-- services/system/audioAssetService.js makes of the same files.
use azan_dashboard.Prelude.{
  ℕ, String, Bool, true, false, ◌&&◌, ◌≡◌, refl, ap, sym, ◌∙◌, Option, none, some, List, [], ◌∷◌,
  arith, str_eq, eq_iff, if◌then◌else◌, inl, inr, Bool-cases, Option-cases,
}
use mathlib.Core.Path.{subst}
use azan_dashboard.Settings.{member as contains}
use azan_dashboard.Dict.{Dict, lookup}
use azan_dashboard.Json.{Members}
use azan_dashboard.Sources.{filled}
use azan_dashboard.Assets.{Shelf}
use azan_dashboard.Assets.Speech.{
  Settings, Task, World, resolve_template, file_name, spoken, says, files_say, is_current,
}
use azan_dashboard.Assets.Sync.{prayer_names, task_of}
use azan_dashboard.Diagnostics.{
  Trigger, Status, disabled, unknown, link, custom_file, file_detail, generated, Words,
  expected_filename, check_files, expected_text, check_task, audio_type, event_status, Triggers,
  trigger_of, events_of, statuses, all_statuses, get_tts_status,
}

abbrev pub words_of : World → (String → String) → Words
words_of w basename = record {
  arabic_names = w.arabic_names;
  to_words = w.to_words;
  basename = basename;
}

-- `result[prayer][event]`
abbrev pub reported : String → String → Dict (Dict Status) → Option Status
reported prayer event report = elim (lookup prayer report) [
  | none ↦ none
  | some events ↦ lookup event events
]

abbrev pub is_generated : Option Status → Bool
is_generated (some (generated d)) = true
is_generated _ = false

-- The voice in a sidecar
abbrev pub has_voice : String → Option (Option Members) → Bool
has_voice voice (some (some meta)) = says "voice" voice meta
has_voice voice _ = false

module _ (w : Words) (triggers : Triggers) (cache : Shelf) where
  lookup-statuses :
      (prayer event : String) (events : List String)
      → contains event events ≡ true
      → lookup event (statuses w triggers prayer events cache)
        ≡ some (event_status w prayer event (trigger_of triggers prayer event) cache)
  unfolding statuses contains lookup
  lookup-statuses prayer event [] h = absurd (ground arith)
  lookup-statuses prayer event (e ∷ events) h = elim (Bool-cases (str_eq e event)) [
    | inl own ↦
        let same : e ≡ event = ground (arith, eq_iff e event) in
        rw own (
          ap (λ (x : String). some (event_status w prayer x (trigger_of triggers prayer x) cache))
            same)
    | inr other ↦ rw other (lookup-statuses prayer event events (rw other at h))
  ]

  reported-all_statuses :
      (prayer event : String) (prayers : List String)
      → contains prayer prayers ≡ true
      → contains event (events_of prayer) ≡ true
      → reported prayer event (all_statuses w triggers prayers cache)
        ≡ some (event_status w prayer event (trigger_of triggers prayer event) cache)
  unfolding all_statuses contains lookup
  reported-all_statuses prayer event [] h k = absurd (ground arith)
  reported-all_statuses prayer event (p ∷ prayers) h k = elim (Bool-cases (str_eq p prayer)) [
    | inl own ↦
        let same : p ≡ prayer = ground (arith, eq_iff p prayer) in
        rw (own, reported, all_statuses)
          (ap (λ (x : String). lookup event (statuses w triggers x (events_of x) cache)) same
            ∙ lookup-statuses prayer event (events_of prayer) k)
    | inr other ↦
        rw (other, reported, all_statuses)
          (reported-all_statuses prayer event prayers (rw other at h) k)
  ]

filled-some : (o : Option String) (x : String) → filled o ≡ some x → o ≡ some x
filled-some none x e = absurd (ground arith)
filled-some (some y) x e = ground arith

-- A trigger that makes a task
pub record IsSpeech (prayer event : String) (s : Settings) (task : Task) : Type 0 where
  pub enabled : s.enabled ≡ true
  pub type : s.type ≡ "tts"
  pub template : s.template ≡ some task.template
  pub offset : task.offset_minutes ≡ s.offset_minutes
  pub own_prayer : task.prayer ≡ prayer
  pub own_event : task.event ≡ event

none_is_not_some : {t : Task} → none ≡ some t → ⊥
none_is_not_some e = absurd (ground arith)

some-injective : {t u : Task} → some t ≡ some u → t ≡ u
some-injective e = ground arith

task_of-IsSpeech :
    (prayer event : String) (s : Settings) (task : Task)
    → task_of prayer event s ≡ some task
    → IsSpeech prayer event s task
unfolding task_of
task_of-IsSpeech prayer event s task e = elim (Option-cases (filled s.template)) [
  | inl bare ↦ absurd (none_is_not_some (rw (bare, task_of) at e))
  | inr (text, there) ↦ elim (Bool-cases (s.enabled && str_eq s.type "tts")) [
    | inr off ↦ absurd (none_is_not_some (rw (there, off, task_of) at e))
    | inl on ↦
        let one : Task = record {
          prayer = prayer;
          event = event;
          template = text;
          offset_minutes = s.offset_minutes;
          voice = s.voice;
        } in
        let made : IsSpeech prayer event s one = record {
          enabled = ground arith;
          type = ground (arith, eq_iff s.type "tts");
          template = filled-some s.template text there;
          offset = refl;
          own_prayer = refl;
          own_event = refl;
        } in
        subst (IsSpeech prayer event s) (some-injective (rw (there, on, task_of) at e)) made
  ]
]

files_say-check_files :
    (text voice : String) (time : Option ℕ) (meta : Option (Option Members))
    → files_say text voice time meta
      ≡ (is_generated (some (check_files (some text) time meta)) && has_voice voice meta)
files_say-check_files text voice none meta = refl
files_say-check_files text voice (some time) none = refl
files_say-check_files text voice (some time) (some none) = refl
files_say-check_files text voice (some time) (some (some meta)) = ground arith

spoken_branch :
    (a b c d : Status) (on : Bool) (type : String)
    → on ≡ true
    → type ≡ "tts"
    → (if on
        then (if str_eq type "url"
            then a
            else if str_eq type "file"
            then b
            else if str_eq type "tts"
            then c
            else d)
        else disabled)
      ≡ c
spoken_branch a b c d on type e f = rw e (
    subst
      (λ (x : String).
        (if str_eq x "url"
          then a
          else if str_eq x "file"
          then b
          else if str_eq x "tts"
          then c
          else d)
        ≡ c)
      (sym f) refl)

expected_text-IsSpeech :
    (w : World) (basename : String → String) (prayer event : String) (s : Settings) (task : Task)
    → IsSpeech prayer event s task
    → expected_text (words_of w basename) prayer s ≡ some (spoken w task)
unfolding spoken
expected_text-IsSpeech w basename prayer event s task h = rw h.template (
    ap
      (λ (p : String).
        some (resolve_template w.arabic_names w.to_words task.template p s.offset_minutes))
      (sym h.own_prayer)
    ∙ ap
        (λ (n : Option ℕ).
          some (resolve_template w.arabic_names w.to_words task.template task.prayer n))
        (sym h.offset))

expected_filename-IsSpeech :
    (prayer event : String) (s : Settings) (task : Task)
    → IsSpeech prayer event s task
    → expected_filename prayer event ≡ file_name task
unfolding expected_filename file_name
expected_filename-IsSpeech prayer event s task h =
    ap (λ (p : String). expected_filename p event) (sym h.own_prayer)
    ∙ ap (expected_filename task.prayer) (sym h.own_event)

-- A trigger of speech is checked by its file.
event_status-IsSpeech :
    (w : World) (basename : String → String) (prayer event : String) (t : Trigger) (task : Task)
    (cache : Shelf)
    → IsSpeech prayer event t.settings task
    → event_status (words_of w basename) prayer event (some t) cache
      ≡ check_files
          (some (spoken w task))
          (lookup (file_name task) cache.audio)
          (lookup (file_name task) cache.meta)
unfolding event_status check_task
event_status-IsSpeech w basename prayer event t task cache h =
    let words = words_of w basename in
    let s = t.settings in
    let named : audio_type s ≡ "tts" =
      subst (λ (x : String). (if str_eq x "" then "file" else x) ≡ "tts") (sym h.type) refl in
    spoken_branch (link t.url) (custom_file (file_detail words t.path))
      (check_task words prayer event s cache) unknown s.enabled (audio_type s) h.enabled named
    ∙ ap
        (λ (text : Option String).
          check_files text (lookup (expected_filename prayer event) cache.audio)
            (lookup (expected_filename prayer event) cache.meta))
        (expected_text-IsSpeech w basename prayer event s task h)
    ∙ ap
        (λ (file : String).
          check_files (some (spoken w task)) (lookup file cache.audio) (lookup file cache.meta))
        (expected_filename-IsSpeech prayer event s task h)

-- Of an event whose trigger is spoken, the report says that its file is generated, and the sidecar
-- names a voice, just if ensureTTSFile takes the file for up to date under that voice.
pub is_current-get_tts_status :
    (w : World) (basename : String → String) (triggers : Triggers) (prayer event voice : String)
    (t : Trigger) (task : Task) (cache : Shelf)
    → contains prayer prayer_names ≡ true
    → contains event (events_of prayer) ≡ true
    → trigger_of triggers prayer event ≡ some t
    → task_of prayer event t.settings ≡ some task
    → is_current (file_name task) (spoken w task) voice cache ≡ (
        is_generated (reported prayer event (get_tts_status (words_of w basename) triggers cache))
        && has_voice voice (lookup (file_name task) cache.meta))
unfolding is_current get_tts_status
is_current-get_tts_status w basename triggers prayer event voice t task cache day known found made =
    let words = words_of w basename in
    let meta = lookup (file_name task) cache.meta in
    files_say-check_files (spoken w task) voice (lookup (file_name task) cache.audio) meta
    ∙ ap (λ (r : Option Status). is_generated r && has_voice voice meta)
        (sym (
          reported-all_statuses words triggers cache prayer event prayer_names day known
          ∙ ap (λ (x : Option Trigger). some (event_status words prayer event x cache)) found
          ∙ ap some (
              event_status-IsSpeech w basename prayer event t task cache
                (task_of-IsSpeech prayer event t.settings task made))))
