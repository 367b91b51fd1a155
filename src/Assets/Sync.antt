-- ===== src/Assets/Sync.antt =====
-- services/system/audioAssetService.js: syncAudioAssets. The limiter lets three tasks run at a time;
-- each of them reads and writes the files of its own name only, so that they are run in order here,
-- each in its own world.
pub mod Listing
pub mod Coverage
use azan_dashboard.Prelude.{
  ℕ, suc, String, Bool, true, false, ◌&&◌, not, Option, none, some, List, [], ◌∷◌, ◌++◌, str_eq,
  if◌then◌else◌,
}
use azan_dashboard.Text.{concat, capitalise, spaced}
use azan_dashboard.Sources.{filled}
use azan_dashboard.Dict.{Dict}
use azan_dashboard.Json.{Members}
use azan_dashboard.Assets.{Answer, fulfilled, rejected, Shelf}
use azan_dashboard.Assets.Speech.{Settings, Task, SpeechConfig, World, Ensured, ensure_tts_file}
use azan_dashboard.Assets.Cleanup.{cleanup_cache, cleanup_temp_audio}

abbrev pub prayer_names : List String
prayer_names = "fajr" ∷ "sunrise" ∷ "dhuhr" ∷ "asr" ∷ "maghrib" ∷ "isha" ∷ []

-- `settings.enabled && settings.type === "tts" && settings.template`
unfoldable pub task_of : String → String → Settings → Option Task
task_of prayer event s = elim (filled s.template) [
  | none ↦ none
  | some template ↦
      if s.enabled && str_eq s.type "tts"
      then some (record {
        prayer = prayer;
        event = event;
        template = template;
        offset_minutes = s.offset_minutes;
        voice = s.voice;
      })
      else none
]

unfoldable pub tasks_of : String → Dict Settings → List Task
unfolding task_of
tasks_of prayer [] = []
tasks_of prayer ((event, s) ∷ rest) =
    let others = tasks_of prayer rest in
    elim (task_of prayer event s) [ none ↦ others | some task ↦ task ∷ others ]

-- `config.automation?.triggers`, by prayer
abbrev pub Triggers : Type 0
Triggers = String → Option (Dict Settings)

unfoldable pub all_tasks : Triggers → List String → List Task
unfolding tasks_of
all_tasks triggers [] = []
all_tasks triggers (prayer ∷ prayers) =
    let others = all_tasks triggers prayers in
    elim (triggers prayer) [ none ↦ others | some entries ↦ tasks_of prayer entries ++ others ]

-- Promise.allSettled over the tasks
unfoldable pub run_tasks :
    (ℕ → World) → SpeechConfig → ℕ → List Task → Shelf → Shelf × List (Answer Ensured)
unfolding ensure_tts_file
run_tasks worlds config n [] shelf = (shelf, [])
run_tasks worlds config n (task ∷ tasks) shelf =
    let (shelf', answer) = ensure_tts_file (worlds n) config task shelf in
    let (last, answers) = run_tasks worlds config (suc n) tasks shelf' in (last, answer ∷ answers)

unfoldable pub nice_name : Task → String
unfolding concat capitalise spaced
nice_name task = concat (capitalise task.prayer) (concat " " (capitalise (spaced task.event)))

unfoldable pub warning_of : Task → Answer Ensured → List String
unfolding nice_name concat
warning_of task (rejected message) = concat (nice_name task) (concat ": " message) ∷ []
warning_of task (fulfilled e) =
    if e.success then [] else concat (nice_name task) (concat ": " e.message) ∷ []

unfoldable pub warnings_of : List Task → List (Answer Ensured) → List String
unfolding warning_of
warnings_of [] answers = []
warnings_of (task ∷ tasks) [] = []
warnings_of (task ∷ tasks) (answer ∷ answers) = warning_of task answer ++ warnings_of tasks answers

-- A directory after unlink was called on each of its files
unfoldable pub keep_undeletable {ℓ} : {V : Type ℓ} → (String → Bool) → Dict V → Dict V
keep_undeletable deletes [] = []
keep_undeletable deletes ((file, v) ∷ rest) =
    let others = keep_undeletable deletes rest in
    if deletes file then others else (file, v) ∷ others

unfoldable pub force_clean : (String → Bool) → Bool → Shelf → Shelf
unfolding keep_undeletable
force_clean deletes force shelf =
    if force
    then record {
      audio = keep_undeletable deletes shelf.audio;
      meta = keep_undeletable deletes shelf.meta;
    }
    else shelf

-- The directories, the cleanups' time and what they can delete
pub record Site : Type 0 where
  pub cache : Shelf
  pub temp : Dict ℕ

pub record Cleaning : Type 0 where
  pub now : ℕ
  pub deletes : String → Bool
  pub drops : String → Bool
  pub extname : String → String

abbrev pub cleaned : Cleaning → Shelf → Dict ℕ → Site
cleaned c shelf temp = record {
  cache = cleanup_cache c.deletes c.drops c.now shelf;
  temp = cleanup_temp_audio c.extname c.deletes false c.now temp;
}

-- What the tasks come to
unfoldable pub answers_of :
    (ℕ → World) → Cleaning → SpeechConfig → Triggers → Bool → Site → List (Answer Ensured)
unfolding all_tasks run_tasks force_clean
answers_of worlds c config t force site =
    (run_tasks worlds config 0 (all_tasks t prayer_names)
      (force_clean c.deletes force site.cache)).1

-- The site after the synchronisation, and its warnings
unfoldable pub sync_audio_assets :
    (ℕ → World) → Cleaning → SpeechConfig → Option Triggers → Bool → Site → Site × List String
unfolding all_tasks run_tasks warnings_of force_clean cleanup_cache cleanup_temp_audio answers_of
sync_audio_assets worlds c config none force site =
    (record site { cache = force_clean c.deletes force site.cache }, [])
sync_audio_assets worlds c config (some t) force site = (
  cleaned c
      (run_tasks worlds config 0 (all_tasks t prayer_names)
        (force_clean c.deletes force site.cache)).0
      site.temp,
  warnings_of (all_tasks t prayer_names) (answers_of worlds c config t force site),
)
