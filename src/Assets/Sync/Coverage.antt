-- ===== src/Assets/Sync/Coverage.antt =====
-- What syncAudioAssets of services/system/audioAssetService.js leaves in the cache.
use azan_dashboard.Prelude.{
  ℕ, zero, suc, ◌+◌, String, Bool, true, false, ◌≡◌, refl, ap, ◌∙◌, Option, some, List, [], ◌∷◌,
  All, get_elem?, arith, str_eq, Bool-cases, inl, inr,
}
use mathlib.Core.Path.{subst}
use mathlib.Core.Option.{some-injective}
use azan_dashboard.Dict.{lookup, HasDistinctKeys}
use azan_dashboard.Assets.{Answer, fulfilled, rejected, Shelf}
use azan_dashboard.Assets.Speech.{
  Task, SpeechConfig, World, Ensured, file_name, voice_of, spoken, is_current, files_say,
  ensure_tts_file,
}
use azan_dashboard.Assets.Speech.Current.{IsServed, ensure_tts_file-IsServed}
use azan_dashboard.Assets.Speech.Apart.{ensure_tts_file-SameFile}
use azan_dashboard.Assets.Sync.Listing.{run_tasks-HasDistinctKeys, force_clean-HasDistinctKeys}
use azan_dashboard.Assets.Cleanup.{cache_max_age, is_older, cleanup_cache}
use azan_dashboard.Assets.Cleanup.Ages.{SameFile, cleanup_cache-SameFile}
use azan_dashboard.Assets.Sync.{
  run_tasks, warning_of, Triggers, all_tasks, prayer_names, force_clean, Site, Cleaning, answers_of,
  sync_audio_assets,
}

-- No later task of the list has the file of an earlier one.
abbrev pub HaveOwnFiles : List Task → Type 0
HaveOwnFiles [] = Unit
HaveOwnFiles (task ∷ tasks) =
    All (λ (t : Task). str_eq (file_name t) (file_name task) ≡ false) tasks × HaveOwnFiles tasks

IsServed-same :
    (file text voice : String) (time : ℕ) (after before : Shelf)
    → SameFile file after before
    → IsServed file text voice time before
    → IsServed file text voice time after
unfolding is_current
IsServed-same file text voice time after before (a, m) (found, current) = (
  a ∙ found,
  ap (λ (x : Option ℕ). files_say text voice x (lookup file after.meta)) a
      ∙ ap (files_say text voice (lookup file before.audio)) m
      ∙ current,
)

module _ (worlds : ℕ → World) (config : SpeechConfig) where
  run_tasks-SameFile :
      (other : String) (n : ℕ) (tasks : List Task) (shelf : Shelf)
      → All (λ (t : Task). str_eq (file_name t) other ≡ false) tasks
      → SameFile other (run_tasks worlds config n tasks shelf).0 shelf
  unfolding run_tasks
  run_tasks-SameFile other n [] shelf h = (refl, refl)
  run_tasks-SameFile other n (task ∷ tasks) shelf (apart, h) =
      let (a, m) =
        run_tasks-SameFile other (suc n) tasks (ensure_tts_file (worlds n) config task shelf).0 h in
      let (a', m') = ensure_tts_file-SameFile (worlds n) config task shelf other apart in
      (a ∙ a', m ∙ m')

  -- The task, in the world of a place
  abbrev ServedIn : ℕ → Task → Shelf → Type 0
  ServedIn k task shelf =
      IsServed (file_name task) (spoken (worlds k) task) (voice_of task config) (worlds k).now shelf

  unwarned-IsServed :
      (n : ℕ) (task : Task) (shelf : Shelf) (r : Shelf × Answer Ensured)
      → ensure_tts_file (worlds n) config task shelf ≡ r
      → warning_of task r.1 ≡ []
      → IsServed (file_name task) (spoken (worlds n) task) (voice_of task config) (worlds n).now r.0
  unfolding warning_of
  unwarned-IsServed n task shelf (after, rejected message) e quiet = absurd (ground arith)
  unwarned-IsServed n task shelf (after, fulfilled answer) e quiet =
      elim (Bool-cases answer.success) [
        | inl good ↦ ensure_tts_file-IsServed (worlds n) config task shelf after answer e good
        | inr bad ↦ absurd (ground arith)
      ]

  run_tasks-ServedIn :
      (n i k : ℕ) (tasks : List Task) (shelf : Shelf) (task : Task) (answer : Answer Ensured)
      → k ≡ n + i
      → HaveOwnFiles tasks
      → get_elem? tasks i ≡ some task
      → get_elem? (run_tasks worlds config n tasks shelf).1 i ≡ some answer
      → warning_of task answer ≡ []
      → ServedIn k task (run_tasks worlds config n tasks shelf).0
  unfolding run_tasks
  run_tasks-ServedIn n i k [] shelf task answer place own found e quiet = absurd (ground arith)
  run_tasks-ServedIn n zero k (first ∷ tasks) shelf task answer place (apart, own) found e quiet =
      let r = ensure_tts_file (worlds n) config first shelf in
      let here : n ≡ k = omega (arith, place) in
      let same : first ≡ task = some-injective _ _ found in
      let silent : warning_of first r.1 ≡ [] =
        ap (λ (t : Task). warning_of t r.1) same
        ∙ ap (warning_of task) (some-injective _ _ e)
        ∙ quiet in
      let served = unwarned-IsServed n first shelf r refl silent in
      let after = run_tasks-SameFile (file_name first) (suc n) tasks r.0 apart in
      subst (λ (x : ℕ). ServedIn x task (run_tasks worlds config (suc n) tasks r.0).0) here
        (subst (λ (t : Task). ServedIn n t (run_tasks worlds config (suc n) tasks r.0).0) same
          (IsServed-same (file_name first) (spoken (worlds n) first) (voice_of first config)
            (worlds n).now (run_tasks worlds config (suc n) tasks r.0).0 r.0 after served))
  run_tasks-ServedIn n (suc i) k (first ∷ tasks) shelf task answer place (apart, own) found e
        quiet =
      run_tasks-ServedIn (suc n) i k tasks (ensure_tts_file (worlds n) config first shelf).0 task
        answer (omega (arith, place)) own found e quiet

-- After a synchronisation, whatever fails in it, every task without a warning has its audio file in
-- the cache, with a sidecar of its text and voice: no later task and no cleanup has taken it. The
-- tasks have files of their own, a directory lists a file once, and the synchronisation takes no
-- more than thirty days.
pub sync_audio_assets-IsCurrent :
    (worlds : ℕ → World) (c : Cleaning) (config : SpeechConfig) (triggers : Triggers) (force : Bool)
    (site : Site) (i : ℕ) (task : Task) (answer : Answer Ensured)
    → HaveOwnFiles (all_tasks triggers prayer_names)
    → HasDistinctKeys site.cache.audio
    → is_older cache_max_age c.now (worlds i).now ≡ false
    → get_elem? (all_tasks triggers prayer_names) i ≡ some task
    → get_elem? (answers_of worlds c config triggers force site) i ≡ some answer
    → warning_of task answer ≡ []
    → is_current
        (file_name task)
        (spoken (worlds i) task)
        (voice_of task config)
        (sync_audio_assets worlds c config (some triggers) force site).0.cache
      ≡ true
unfolding sync_audio_assets
sync_audio_assets-IsCurrent worlds c config triggers force site i task answer own distinct young
      found e quiet =
    let tasks = all_tasks triggers prayer_names in
    let start = force_clean c.deletes force site.cache in
    let shelf = (run_tasks worlds config 0 tasks start).0 in
    let served =
      run_tasks-ServedIn worlds config 0 i i tasks start task answer (omega arith) own found e
        quiet in
    let kept =
      cleanup_cache-SameFile c.deletes c.drops c.now (worlds i).now (file_name task) shelf
        (run_tasks-HasDistinctKeys worlds config 0 tasks start
          (force_clean-HasDistinctKeys c.deletes force site.cache distinct))
        served.0 young in
    (IsServed-same (file_name task) (spoken (worlds i) task) (voice_of task config) (worlds i).now
      (cleanup_cache c.deletes c.drops c.now shelf) shelf kept served).1
