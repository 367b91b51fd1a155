-- ===== src/Assets/Sync/Listing.antt =====
-- The listing of the cache while syncAudioAssets of services/system/audioAssetService.js runs.
use azan_dashboard.Prelude.{
  ℕ, ◌*◌, suc, String, Bool, ◌≡◌, refl, Option, none, some, List, [], ◌∷◌, arith, if_both,
}
use azan_dashboard.Text.{concat, text_length}
use azan_dashboard.Dict.{Dict, lookup, insert, HasDistinctKeys, insert-HasDistinctKeys}
use azan_dashboard.Json.{Members}
use azan_dashboard.Assets.{Answer, fulfilled, rejected, Shelf, analyse_and_enrich}
use azan_dashboard.Assets.Speech.{
  Task, SpeechConfig, World, Ensured, file_name, voice_of, spoken, is_current, write_sidecar,
  url_of, generate, generate_if_allowed, ensure_tts_file,
}
use azan_dashboard.Assets.Sync.{run_tasks, force_clean, keep_undeletable}

-- The audio files of what a call leaves are listed once each.
abbrev IsListed : Shelf × Answer Ensured → Type 0
IsListed r = HasDistinctKeys r.0.audio

module _ (w : World) (url file text voice : String) (shelf : Shelf)
    (h : HasDistinctKeys shelf.audio) where
  generate-IsListed : IsListed (generate w url file text voice shelf)
  unfolding generate
  generate-IsListed = spoken_or_not (w.synthesise url text file voice) refl
    where
      with_sidecar :
          (s : Shelf) (a : Answer Members)
          → HasDistinctKeys s.audio
          → IsListed (write_sidecar w file text voice s a)
      with_sidecar s (rejected message) hs = hs
      with_sidecar s (fulfilled enriched) hs = hs

      spoken_or_not :
          (o : Option String)
          → w.synthesise url text file voice ≡ o
          → IsListed (generate w url file text voice shelf)
      spoken_or_not (some message) e = rw (e, generate) h
      spoken_or_not none e =
          rw (e, generate)
            (with_sidecar (record shelf { audio = insert file w.now shelf.audio })
              (analyse_and_enrich w.tools file) (insert-HasDistinctKeys file w.now shelf.audio h))

  generate_if_allowed-IsListed : IsListed (generate_if_allowed w url file text voice shelf)
  unfolding generate_if_allowed
  generate_if_allowed-IsListed =
      if_both IsListed w.is_healthy _ _ (fits_or_not (w.quota (text_length text * 1024))) h
    where
      fits_or_not :
          (o : Option String)
          → IsListed (elim o [
            | some message ↦ (shelf, rejected (concat "Storage Limit Exceeded: " message))
            | none ↦ generate w url file text voice shelf
          ])
      fits_or_not none = generate-IsListed
      fits_or_not (some message) = h

ensure_tts_file-IsListed :
    (w : World) (config : SpeechConfig) (task : Task) (shelf : Shelf)
    → HasDistinctKeys shelf.audio
    → IsListed (ensure_tts_file w config task shelf)
unfolding ensure_tts_file
ensure_tts_file-IsListed w config task shelf h =
    let file = file_name task in
    if_both IsListed (is_current file (spoken w task) (voice_of task config) shelf) _ _
      (insert-HasDistinctKeys file w.now shelf.audio h)
      (generate_if_allowed-IsListed w (url_of config) file (spoken w task) (voice_of task config)
        shelf h)

pub run_tasks-HasDistinctKeys :
    (worlds : ℕ → World) (config : SpeechConfig) (n : ℕ) (tasks : List Task) (shelf : Shelf)
    → HasDistinctKeys shelf.audio
    → HasDistinctKeys (run_tasks worlds config n tasks shelf).0.audio
unfolding run_tasks
run_tasks-HasDistinctKeys worlds config n [] shelf h = h
run_tasks-HasDistinctKeys worlds config n (task ∷ tasks) shelf h =
    run_tasks-HasDistinctKeys worlds config (suc n) tasks
      (ensure_tts_file (worlds n) config task shelf).0
      (ensure_tts_file-IsListed (worlds n) config task shelf h)

module _ {ℓ} {V : Type ℓ} (deletes : String → Bool) where
  lookup-keep_undeletable :
      (file : String) (m : Dict V)
      → lookup file m ≡ none
      → lookup file (keep_undeletable deletes m) ≡ none
  unfolding keep_undeletable lookup
  lookup-keep_undeletable file [] e = refl
  lookup-keep_undeletable file ((k, v) ∷ m) e = ground (arith, lookup-keep_undeletable file m)

  keep_undeletable-HasDistinctKeys :
      (m : Dict V) → HasDistinctKeys m → HasDistinctKeys (keep_undeletable deletes m)
  unfolding keep_undeletable
  keep_undeletable-HasDistinctKeys [] h = h
  keep_undeletable-HasDistinctKeys ((k, v) ∷ m) (fresh, h) =
      if_both HasDistinctKeys (deletes k) _ _ (keep_undeletable-HasDistinctKeys m h)
        (lookup-keep_undeletable k m fresh, keep_undeletable-HasDistinctKeys m h)

pub force_clean-HasDistinctKeys :
    (deletes : String → Bool) (force : Bool) (shelf : Shelf)
    → HasDistinctKeys shelf.audio
    → HasDistinctKeys (force_clean deletes force shelf).audio
unfolding force_clean
force_clean-HasDistinctKeys deletes force shelf h =
    if_both (λ (s : Shelf). HasDistinctKeys s.audio) force _ _
      (keep_undeletable-HasDistinctKeys deletes shelf.audio h) h
