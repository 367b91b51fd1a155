-- ===== src/Diagnostics/Tests.antt =====
-- The file of one spoken trigger, generated in another voice than the one that is asked for.
use azan_dashboard.Prelude.{
  String, true, ◌&&◌, ◌≡◌, refl, none, some, [], ◌∷◌, str_eq, if◌then◌else◌,
}
use azan_dashboard.Settings.{member as contains}
use azan_dashboard.Dict.{lookup}
use azan_dashboard.Json.{str, end, field}
use azan_dashboard.Assets.{rejected, Shelf}
use azan_dashboard.Assets.Speech.{Settings, Task, World, file_name, spoken, is_current}
use azan_dashboard.Assets.Sync.{task_of}
use azan_dashboard.Diagnostics.{Trigger, Triggers, trigger_of, get_tts_status}
use azan_dashboard.Diagnostics.Verdicts.{
  words_of, reported, is_generated, has_voice, is_current-get_tts_status,
}

abbrev world : World
world = record {
  tools = record {
    parse_file = λ file. rejected "broken";
    size = λ file. 1;
    extname = λ file. ".mp3";
    validators = [];
    iso_now = "";
  };
  now = 5000;
  arabic_names = [];
  to_words = λ n. "ten";
  is_healthy = true;
  quota = λ bytes. none;
  synthesise = λ url text file voice. none;
}

abbrev settings : Settings
settings = record {
  enabled = true;
  type = "tts";
  template = some "Now";
  offset_minutes = none;
  voice = some "new";
}

abbrev trigger : Trigger
trigger = record { settings = settings; path = none; url = none }

abbrev task : Task
task = record {
  prayer = "fajr";
  event = "adhan";
  template = "Now";
  offset_minutes = none;
  voice = some "new";
}

abbrev triggers : Triggers
triggers prayer = if str_eq prayer "fajr" then some (("adhan", trigger) ∷ []) else none

abbrev cache : Shelf
cache = record {
  audio = ("tts_fajr_adhan.mp3", 1000) ∷ [];
  meta =
      ("tts_fajr_adhan.mp3", some (field "text" (str "Now") (field "voice" (str "old") end))) ∷ [];
}

abbrev same_name : String → String
same_name s = s

is_current-get_tts_status_example : is_current (file_name task) (spoken world task) "new" cache ≡ (
    is_generated
      (reported "fajr" "adhan" (get_tts_status (words_of world same_name) triggers cache))
    && has_voice "new" (lookup (file_name task) cache.meta))
unfolding contains trigger_of lookup task_of
is_current-get_tts_status_example =
    is_current-get_tts_status world same_name triggers "fajr" "adhan" "new" trigger task cache refl
      refl refl refl

-- The report says that the file is generated, although the voice is the old one.
get_tts_status_sample :
    is_generated
      (reported "fajr" "adhan" (get_tts_status (words_of world same_name) triggers cache))
    ≡ true
unfolding get_tts_status lookup
get_tts_status_sample = refl
