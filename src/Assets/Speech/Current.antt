-- ===== src/Assets/Speech/Current.antt =====
-- What ensureTTSFile of services/system/audioAssetService.js leaves in the cache.
use azan_dashboard.Prelude.{
  ℕ, ◌*◌, String, true, false, ◌≡◌, refl, ap, sym, ◌∙◌, Option, none, some, arith, str_eq, eq_iff,
  eq_refl, Bool-cases, Option-cases, inl, inr,
}
use mathlib.Core.Path.{subst}
use azan_dashboard.Text.{text_length}
use azan_dashboard.Dict.{lookup, insert, lookup-insert}
use azan_dashboard.Json.{Value, str, obj, Members, end, field, get, put, put_option, assign_members}
use azan_dashboard.Json.Fields.{get-put, get-put_option}
use azan_dashboard.Assets.{
  Answer, fulfilled, rejected, from_answer, fulfilled-injective, Format, Shelf, Tools,
  basic_metadata, analyse_audio_file, compatibility_of, enrich_metadata, analyse_and_enrich,
}
use azan_dashboard.Assets.Speech.{
  Task, SpeechConfig, World, file_name, voice_of, spoken, says, is_current, Ensured, url_of,
  sidecar, write_sidecar, generate, generate_if_allowed, up_to_date, ensure_tts_file,
}

-- `{ ...m, ...source }` keeps a key that the source does not have.
pub get-assign_members :
    (key : String) (m source : Members)
    → get key source ≡ none
    → get key (assign_members m source) ≡ get key m
unfolding assign_members get
get-assign_members key m end e = refl
get-assign_members key m (field k v rest) e =
    get-assign_members key (put k v m) rest (ground (arith, eq_iff k key))
    ∙ ground (arith, get-put k key v m)

put_option-absent :
    (k key : String) (v : Option Value) (m : Members)
    → str_eq k key ≡ false
    → get key m ≡ none
    → get key (put_option k v m) ≡ none
put_option-absent k key v m apart e = ground (arith, get-put_option k key v m)

-- A key that no analysis of a file sets
abbrev IsFree : String → Type 0
IsFree key =
    (str_eq "format" key ≡ false)
    × (str_eq "codec" key ≡ false)
    × (str_eq "bitrate" key ≡ false)
    × (str_eq "sampleRate" key ≡ false)
    × (str_eq "duration" key ≡ false)
    × (str_eq "size" key ≡ false)
    × (str_eq "mimeType" key ≡ false)
    × (str_eq "compatibility" key ≡ false)
    × (str_eq "updatedAt" key ≡ false)

get-basic_metadata :
    (tools : Tools) (file key : String) (f : Format)
    → IsFree key
    → get key (basic_metadata tools file f) ≡ none
unfolding basic_metadata get
get-basic_metadata tools file key f (format, codec, bitrate, rate, duration, size, mime, _, _) =
    put_option-absent "format" key _ _ format (
      put_option-absent "codec" key _ _ codec (
        put_option-absent "bitrate" key _ _ bitrate (
          put_option-absent "sampleRate" key _ _ rate
            (put_option-absent "duration" key _ _ duration (rw size (rw mime refl))))))

-- The two keys of a sidecar that the analysis leaves alone
get-analyse_and_enrich :
    (tools : Tools) (file key : String) (enriched : Members)
    → IsFree key
    → analyse_and_enrich tools file ≡ fulfilled enriched
    → get key enriched ≡ none
unfolding analyse_and_enrich analyse_audio_file enrich_metadata
get-analyse_and_enrich tools file key enriched free e =
    let (basic, e1, e2) =
      from_answer (analyse_audio_file tools file) (enrich_metadata tools file) enriched e in
    let (f, parsed, e3) = from_answer (tools.parse_file file) _ basic e1 in
    let (c, collected, e4) =
      from_answer (compatibility_of tools.validators file basic end) _ enriched e2 in
    let (_, _, _, _, _, _, _, compatibility, updated) = free in
    let absent : get key basic ≡ none =
      ap (get key) (sym (fulfilled-injective e3)) ∙ get-basic_metadata tools file key f free in
    ap (get key) (sym (fulfilled-injective e4))
    ∙ get-put "updatedAt" key (str tools.iso_now) (put "compatibility" (obj c) basic)
    ∙ rw updated (get-put "compatibility" key (obj c) basic ∙ rw compatibility absent)

-- The entries of a file that was just made sure of
abbrev pub IsServed : String → String → String → ℕ → Shelf → Type 0
IsServed file text voice time shelf =
    (lookup file shelf.audio ≡ some time) × (is_current file text voice shelf ≡ true)

says-own :
    (key text : String) (meta : Members)
    → get key meta ≡ some (str text)
    → says key text meta ≡ true
says-own key text meta said = rw (said, says) (eq_refl text)

is_current-from :
    (file text voice : String) (time : ℕ) (meta : Members) (shelf : Shelf)
    → lookup file shelf.audio ≡ some time
    → lookup file shelf.meta ≡ some (some meta)
    → get "text" meta ≡ some (str text)
    → get "voice" meta ≡ some (str voice)
    → is_current file text voice shelf ≡ true
unfolding is_current
is_current-from file text voice time meta shelf audio sidecar said spoken_by =
    rw (audio, is_current)
      (rw (sidecar, is_current)
        (ground (arith, says-own "text" text meta said, says-own "voice" voice meta spoken_by)))

-- What a call comes to
abbrev Serving : String → String → String → ℕ → Shelf × Answer Ensured → Type 0
Serving file text voice time (shelf, rejected message) = Unit
Serving file text voice time (shelf, fulfilled e) =
    e.success ≡ true → IsServed file text voice time shelf

text_IsFree : IsFree "text"
text_IsFree = (refl, refl, refl, refl, refl, refl, refl, refl, refl)

voice_IsFree : IsFree "voice"
voice_IsFree = (refl, refl, refl, refl, refl, refl, refl, refl, refl)

module _ (w : World) (url file text voice : String) where
  write_sidecar-Serving :
      (shelf : Shelf) (a : Answer Members)
      → analyse_and_enrich w.tools file ≡ a
      → lookup file shelf.audio ≡ some w.now
      → Serving file text voice w.now (write_sidecar w file text voice shelf a)
  unfolding get
  write_sidecar-Serving shelf (rejected message) e audio = λ good. absurd (ground arith)
  write_sidecar-Serving shelf (fulfilled enriched) e audio =
      let meta = sidecar w text voice enriched in
      let put_there : lookup file (insert file (some meta) shelf.meta) ≡ some (some meta) =
        ground (arith, lookup-insert file file (some meta) shelf.meta, eq_refl file) in
      λ good. (
        audio,
        is_current-from file text voice w.now meta
            (record shelf { meta = insert file (some meta) shelf.meta }) audio put_there
            (get-assign_members "text" _ enriched
              (get-analyse_and_enrich w.tools file "text" enriched text_IsFree e))
            (get-assign_members "voice" _ enriched
              (get-analyse_and_enrich w.tools file "voice" enriched voice_IsFree e)),
      )

  generate-Serving :
      (shelf : Shelf) → Serving file text voice w.now (generate w url file text voice shelf)
  unfolding generate
  generate-Serving shelf = elim (Option-cases (w.synthesise url text file voice)) [
    | inr (message, refused) ↦ rw (refused, generate) (λ good. absurd (ground arith))
    | inl made ↦
        rw (made, generate)
          (write_sidecar-Serving (record shelf { audio = insert file w.now shelf.audio })
            (analyse_and_enrich w.tools file) refl
            (ground (arith, lookup-insert file file w.now shelf.audio, eq_refl file)))
  ]

  generate_if_allowed-Serving :
      (shelf : Shelf)
      → Serving file text voice w.now (generate_if_allowed w url file text voice shelf)
  unfolding generate_if_allowed
  generate_if_allowed-Serving shelf = elim (Bool-cases w.is_healthy) [
    | inr down ↦ rw (down, generate_if_allowed) (λ good. absurd (ground arith))
    | inl up ↦ elim (Option-cases (w.quota (text_length text * 1024))) [
      | inr (message, full) ↦ rw (up, full, generate_if_allowed) tt
      | inl fits ↦ rw (up, fits, generate_if_allowed) (generate-Serving shelf)
    ]
  ]

-- A file that is current stays so when it is touched.
is_current-touched :
    (file text voice : String) (now : ℕ) (shelf : Shelf)
    → is_current file text voice shelf ≡ true
    → is_current file text voice (record shelf { audio = insert file now shelf.audio }) ≡ true
unfolding is_current
is_current-touched file text voice now shelf e =
    let touched : lookup file (insert file now shelf.audio) ≡ some now =
      ground (arith, lookup-insert file file now shelf.audio, eq_refl file) in
    elim (Option-cases (lookup file shelf.audio)) [
      | inl missing ↦ absurd (ground arith)
      | inr (time, found) ↦ rw (touched, is_current) (rw (found, is_current) at e)
    ]

ensure_tts_file-Serving :
    (w : World) (config : SpeechConfig) (task : Task) (shelf : Shelf)
    → Serving
        (file_name task)
        (spoken w task)
        (voice_of task config)
        w.now
        (ensure_tts_file w config task shelf)
unfolding ensure_tts_file
ensure_tts_file-Serving w config task shelf =
    let file = file_name task in
    let text = spoken w task in
    let voice = voice_of task config in
    elim (Bool-cases (is_current file text voice shelf)) [
      | inr stale ↦
          rw (stale, ensure_tts_file)
            (generate_if_allowed-Serving w (url_of config) file text voice shelf)
      | inl current ↦
          rw (current, ensure_tts_file)
            (λ good. (
              ground (arith, lookup-insert file file w.now shelf.audio, eq_refl file),
              is_current-touched file text voice w.now shelf current,
            ))
    ]

-- A call that reports success leaves the file in the cache, used at that time, with a sidecar of
-- the text and the voice.
pub ensure_tts_file-IsServed :
    (w : World) (config : SpeechConfig) (task : Task) (shelf shelf' : Shelf) (e : Ensured)
    → ensure_tts_file w config task shelf ≡ (shelf', fulfilled e)
    → e.success ≡ true
    → IsServed (file_name task) (spoken w task) (voice_of task config) w.now shelf'
unfolding ensure_tts_file
ensure_tts_file-IsServed w config task shelf shelf' e done good =
    subst (Serving (file_name task) (spoken w task) (voice_of task config) w.now) done
      (ensure_tts_file-Serving w config task shelf) good

-- Speech is generated once: after a call that reported success, a later call of the same text and
-- voice, in whatever world, finds a valid file, generates nothing and asks no service.
pub ensure_tts_file-again :
    (w w' : World) (config : SpeechConfig) (task : Task) (shelf shelf' : Shelf) (e : Ensured)
    → ensure_tts_file w config task shelf ≡ (shelf', fulfilled e)
    → e.success ≡ true
    → spoken w' task ≡ spoken w task
    → ensure_tts_file w' config task shelf'
      ≡ (record shelf' { audio = insert (file_name task) w'.now shelf'.audio }, up_to_date)
unfolding ensure_tts_file
ensure_tts_file-again w w' config task shelf shelf' e done good same =
    let served = ensure_tts_file-IsServed w config task shelf shelf' e done good in
    let current : is_current (file_name task) (spoken w' task) (voice_of task config) shelf'
        ≡ true =
      ap (λ (text : String). is_current (file_name task) text (voice_of task config) shelf') same
      ∙ served.1 in
    rw (current, ensure_tts_file) refl
