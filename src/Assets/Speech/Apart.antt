-- ===== src/Assets/Speech/Apart.antt =====
-- The files that ensureTTSFile of services/system/audioAssetService.js leaves alone.
use azan_dashboard.Prelude.{
  ℕ, ◌*◌, String, false, ◌≡◌, refl, ◌∙◌, some, arith, str_eq, Bool-cases, Option-cases, inl, inr,
}
use azan_dashboard.Text.{text_length}
use azan_dashboard.Dict.{insert, lookup-insert}
use azan_dashboard.Json.{Members}
use azan_dashboard.Assets.{Answer, fulfilled, rejected, Shelf, analyse_and_enrich}
use azan_dashboard.Assets.Cleanup.Ages.{SameFile}
use azan_dashboard.Assets.Speech.{
  Task, SpeechConfig, World, file_name, voice_of, spoken, is_current, url_of, sidecar,
  write_sidecar, generate, generate_if_allowed, ensure_tts_file,
}

module _ (file other : String) (apart : str_eq file other ≡ false) where
  touched-SameFile :
      (now : ℕ) (shelf : Shelf)
      → SameFile other (record shelf { audio = insert file now shelf.audio }) shelf
  touched-SameFile now shelf = (ground (arith, lookup-insert file other now shelf.audio), refl)

  write_sidecar-SameFile :
      (w : World) (text voice : String) (shelf : Shelf) (a : Answer Members)
      → SameFile other (write_sidecar w file text voice shelf a).0 shelf
  write_sidecar-SameFile w text voice shelf (rejected message) = (refl, refl)
  write_sidecar-SameFile w text voice shelf (fulfilled enriched) = (
    refl,
    ground (arith, lookup-insert file other (some (sidecar w text voice enriched)) shelf.meta),
  )

  generate-SameFile :
      (w : World) (url text voice : String) (shelf : Shelf)
      → SameFile other (generate w url file text voice shelf).0 shelf
  unfolding generate
  generate-SameFile w url text voice shelf =
      elim (Option-cases (w.synthesise url text file voice)) [
        | inr (message, refused) ↦ rw (refused, generate) (refl, refl)
        | inl made ↦
            let spoken_file = record shelf { audio = insert file w.now shelf.audio } in
            let (a, m) =
              write_sidecar-SameFile w text voice spoken_file (analyse_and_enrich w.tools file) in
            let (a', m') = touched-SameFile w.now shelf in rw (made, generate) (a ∙ a', m ∙ m')
      ]

  generate_if_allowed-SameFile :
      (w : World) (url text voice : String) (shelf : Shelf)
      → SameFile other (generate_if_allowed w url file text voice shelf).0 shelf
  unfolding generate_if_allowed
  generate_if_allowed-SameFile w url text voice shelf = elim (Bool-cases w.is_healthy) [
    | inr down ↦ rw (down, generate_if_allowed) (refl, refl)
    | inl up ↦ elim (Option-cases (w.quota (text_length text * 1024))) [
      | inr (message, full) ↦ rw (up, full, generate_if_allowed) (refl, refl)
      | inl fits ↦ rw (up, fits, generate_if_allowed) (generate-SameFile w url text voice shelf)
    ]
  ]

-- A call touches the files of its own name only.
pub ensure_tts_file-SameFile :
    (w : World) (config : SpeechConfig) (task : Task) (shelf : Shelf) (other : String)
    → str_eq (file_name task) other ≡ false
    → SameFile other (ensure_tts_file w config task shelf).0 shelf
unfolding ensure_tts_file
ensure_tts_file-SameFile w config task shelf other apart =
    let file = file_name task in
    let text = spoken w task in
    let voice = voice_of task config in
    elim (Bool-cases (is_current file text voice shelf)) [
      | inr stale ↦
          rw (stale, ensure_tts_file)
            (generate_if_allowed-SameFile file other apart w (url_of config) text voice shelf)
      | inl current ↦ rw (current, ensure_tts_file) (touched-SameFile file other apart w.now shelf)
    ]
