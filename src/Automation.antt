-- ===== src/Automation.antt =====
-- services/core/automationService.js: from a trigger to the launches of its targets. The output
-- strategies, the audio files and the speech service answer through `Env`; promises are launches
-- with the time that they wait and the time after which they are aborted.
pub mod OnTime
pub mod Once
mod Tests
use azan_dashboard.Prelude.{
  ℕ, ◌==◌, String, Bool, true, false, Option, none, some, List, [], ◌∷◌, ◌++◌, str_eq,
  if◌then◌else◌, ℤ, pos, ◌+ℤ◌, ◌-ℤ◌, keep,
}
use azan_dashboard.Prayer.{Prayer, fajr, sunrise, dhuhr, asr, maghrib, isha}
use azan_dashboard.Settings.{
  Event, pre_adhan, adhan, pre_iqamah, iqamah, Action, tts, file, url, Trigger, AutomationConfig,
  find_trigger, Target, ActiveTargets, get_active_targets,
}
use Prim.Native.String.{◌++◌ as append}

abbrev pub prayer_text : Prayer → String
prayer_text fajr = "fajr"
prayer_text sunrise = "sunrise"
prayer_text dhuhr = "dhuhr"
prayer_text asr = "asr"
prayer_text maghrib = "maghrib"
prayer_text isha = "isha"

abbrev pub event_text : Event → String
event_text pre_adhan = "preAdhan"
event_text adhan = "adhan"
event_text pre_iqamah = "preIqamah"
event_text iqamah = "iqamah"

-- `{ path }` and `{ url }`
pub data AudioSource : Type 0 where
  path link : String → AudioSource

-- A text that is there and not empty
abbrev pub non_empty : Option String → Option String
non_empty none = none
non_empty (some s) = if str_eq s "" then none else some s

abbrev pub tts_filename : Prayer → Event → String
tts_filename p e =
    append "tts_" (append (prayer_text p) (append "_" (append (event_text e) ".mp3")))

abbrev pub as_path : Option String → Option AudioSource
as_path none = none
as_path (some s) = some (path s)

abbrev pub as_link : Option String → Option AudioSource
as_link none = none
as_link (some s) = some (link s)

unfoldable pub get_audio_source : Trigger → Prayer → Event → Option AudioSource
get_audio_source t p e = elim t.type [
  | tts ↦ some (path (append "cache/" (tts_filename p e)))
  | file ↦ as_path (non_empty t.path)
  | url ↦ as_link (non_empty t.link)
]

-- What ensureTTSFile comes to: done, refused, or an exception.
pub data Speech : Type 0 where
  generated refused failed : Speech

pub record Env : Type 0 where
  pub speech : Prayer → Event → Speech
  -- normalizeSource makes the source a file that fs.access finds
  pub is_present : AudioSource → Bool
  -- `metadata.timeoutMs` of a strategy, `none` where OutputFactory has no such strategy
  pub timeout_of : String → Option ℕ

-- The texts that are broadcast as LOG messages
pub data Log : Type 0 where
  speech_offline file_missing triggering : Prayer → Event → Log

-- _validateAndPrepareAudio: the source where it succeeds, and what is broadcast
pub record Prepared : Type 0 where
  pub success : Bool
  pub source : Option AudioSource
  pub logs : List Log

abbrev refuse : List Log → Prepared
refuse logs = record { success = false; source = none; logs = logs }

abbrev file_is_present : Env → Option AudioSource → Bool
file_is_present env none = false
file_is_present env (some s) = env.is_present s

unfoldable pub prepare_audio : Env → Trigger → Prayer → Event → Prepared
unfolding get_audio_source
prepare_audio env t p e =
    let source = get_audio_source t p e in
    let ready : Prepared = record { success = true; source = source; logs = [] } in
    elim t.type [
      | tts ↦ elim (env.speech p e) [
        | generated ↦ ready
        | refused ↦ refuse (speech_offline p e ∷ [])
        | failed ↦ refuse []
      ]
      | file ↦ if file_is_present env source then ready else refuse (file_missing p e ∷ [])
      | url ↦ ready
    ]

-- A strategy that is started: after `wait` milliseconds, and aborted after `deadline`.
pub record Launch : Type 0 where
  pub id : String
  pub wait : ℤ
  pub deadline : ℤ
  pub source : Option AudioSource

-- `metadata.timeoutMs || 5000`
abbrev pub timeout_ms : ℕ → ℕ
timeout_ms n = if n == 0 then 5000 else n

-- _executeTarget; an unknown strategy is logged and dropped.
unfoldable pub execute_target : Env → Option AudioSource → ℤ → Target → List Launch
execute_target env source master t = elim (env.timeout_of t.id) [
  | none ↦ []
  | some n ↦
      (record {
        id = t.id;
        wait = master -ℤ t.lead;
        deadline = pos (timeout_ms n) +ℤ (master -ℤ t.lead);
        source = source;
      })
      ∷ []
]

unfoldable pub execute_all : Env → Option AudioSource → ℤ → List Target → List Launch
unfolding execute_target
execute_all env source master [] = []
execute_all env source master (t ∷ ts) =
    execute_target env source master t ++ execute_all env source master ts

abbrev nothing : List Log → List Launch × List Log
nothing logs = ([], logs)

abbrev launch_all :
    AutomationConfig → Env → Trigger → Prayer → Event → Prepared → List Launch × List Log
launch_all a env t p e prepared =
    let active = get_active_targets a t in
    if prepared.success
    then (
      execute_all env prepared.source active.master_lead active.targets,
      prepared.logs ++ triggering p e ∷ [],
    )
    else nothing prepared.logs

unfoldable pub trigger_event : AutomationConfig → Env → Prayer → Event → List Launch × List Log
unfolding prepare_audio execute_all
trigger_event a env p e = elim (find_trigger a p e) [
  | none ↦ nothing []
  | some t ↦ if t.enabled then launch_all a env t p e (prepare_audio env t p e) else nothing []
]
