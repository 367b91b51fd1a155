-- ===== src/Assets/Tests.antt =====
-- Two tasks of which the second meets a speech service that fails, and an old file in the cache.
use azan_dashboard.Prelude.{
  ℕ, zero, suc, Bool, true, false, ◌≡◌, refl, ap, sym, Option, none, some, [], ◌∷◌,
}
use azan_dashboard.Settings.{member}
use azan_dashboard.Dict.{Dict, lookup, insert}
use azan_dashboard.Json.{bool, str, obj, end, field, truthy}
use azan_dashboard.Assets.{fulfilled, fulfilled-injective, Format, Shelf, Tools, Validator}
use azan_dashboard.Assets.Speech.{
  Settings, Task, SpeechConfig, World, file_name, voice_of, spoken, is_current, Ensured, up_to_date,
  ensure_tts_file,
}
use azan_dashboard.Assets.Speech.Current.{ensure_tts_file-again}
use azan_dashboard.Assets.Cleanup.{cleanup_cache}
use azan_dashboard.Assets.Cleanup.Ages.{cleanup_cache-aged_out}
use azan_dashboard.Assets.Sync.{
  Triggers, all_tasks, answers_of, Site, Cleaning, warning_of, sync_audio_assets,
}
use azan_dashboard.Assets.Sync.Coverage.{sync_audio_assets-IsCurrent}
use azan_dashboard.Assets.Sidecars.{migrate_file}
use azan_dashboard.Assets.Sidecars.Verdicts.{HasRealVerdicts, migrate_file-once}

abbrev format : Format
format = record {
  container = some "MPEG";
  codec = some "MPEG 1 Layer 3";
  bitrate = none;
  sample_rate = none;
  duration = none;
  lossless = false;
}

abbrev judge : Validator
judge = record {
  id = "local";
  validate_asset = λ file m. fulfilled (obj (field "valid" (bool true) end));
}

abbrev tools : Tools
tools = record {
  parse_file = λ file. fulfilled format;
  size = λ file. 100;
  extname = λ file. ".mp3";
  validators = judge ∷ [];
  iso_now = "2025-01-01T00:00:00.000Z";
}

abbrev world : World
world = record {
  tools = tools;
  now = 5000;
  arabic_names = [];
  to_words = λ n. "ten";
  is_healthy = true;
  quota = λ bytes. none;
  synthesise = λ url text file voice. none;
}

-- Later the speech service is offline.
abbrev later : World
later = record world { now = 6000; is_healthy = false }

abbrev speech : SpeechConfig
speech = record { service_url = none; default_voice = none }

abbrev fajr : Task
fajr = record {
  prayer = "fajr";
  event = "adhan";
  template = "Now";
  offset_minutes = none;
  voice = none;
}

abbrev empty : Shelf
empty = record { audio = []; meta = [] }

made : Shelf
unfolding ensure_tts_file
made = (ensure_tts_file world speech fajr empty).0

ensured : Ensured
ensured = record { success = true; message = "Successfully generated"; generated = true }

ensure_tts_file-again_sample :
    ensure_tts_file later speech fajr made
    ≡ (record made { audio = insert (file_name fajr) 6000 made.audio }, up_to_date)
unfolding made ensured ensure_tts_file spoken
ensure_tts_file-again_sample =
    ensure_tts_file-again world later speech fajr empty made ensured refl refl refl

abbrev aged : Shelf
aged = record { audio = ("old.mp3", 0) ∷ ("new.mp3", 2591999000) ∷ []; meta = [] }

cleanup_cache-aged_out_example :
    lookup "old.mp3" (cleanup_cache (λ f. true) (λ f. true) 2592000001 aged).audio ≡ none
unfolding lookup
cleanup_cache-aged_out_example =
    cleanup_cache-aged_out (λ f. true) 2592000001 "old.mp3" aged (refl, (refl, tt))

abbrev announcement : Settings
announcement = record {
  enabled = true;
  type = "tts";
  template = some "Now";
  offset_minutes = none;
  voice = none;
}

abbrev entries : Bool → Option (Dict Settings)
entries true = some (("adhan", announcement) ∷ [])
entries false = none

abbrev triggers : Triggers
unfolding member
triggers prayer = entries (member prayer ("fajr" ∷ "isha" ∷ []))

abbrev worlds : ℕ → World
worlds zero = world
worlds (suc n) = later

abbrev cleaning : Cleaning
cleaning = record { now = 7000; deletes = λ f. true; drops = λ f. true; extname = λ f. ".mp3" }

abbrev site : Site
site = record { cache = empty; temp = [] }

sync_audio_assets-IsCurrent_example :
    is_current
      (file_name fajr)
      (spoken world fajr)
      (voice_of fajr speech)
      (sync_audio_assets worlds cleaning speech (some triggers) false site).0.cache
    ≡ true
unfolding all_tasks answers_of file_name ensured triggers warning_of
sync_audio_assets-IsCurrent_example =
    sync_audio_assets-IsCurrent worlds cleaning speech triggers false site 0 fajr
      (fulfilled ensured) ((refl, tt), (tt, tt)) tt refl refl refl refl

abbrev unjudged : Shelf
unjudged = record {
  audio = ("a.mp3", 0) ∷ [];
  meta = ("a.mp3", some (field "format" (str "MPEG") end)) ∷ [];
}

judged : Shelf
unfolding migrate_file
judged = (migrate_file tools "a.mp3" unjudged).0

judge-HasRealVerdicts : HasRealVerdicts judge
judge-HasRealVerdicts file m verdict e = ap truthy (sym (fulfilled-injective e))

migrate_file-once_sample : migrate_file tools "a.mp3" judged ≡ (judged, false)
unfolding judged migrate_file
migrate_file-once_sample =
    migrate_file-once tools "a.mp3" unjudged judged (judge-HasRealVerdicts, tt) refl
