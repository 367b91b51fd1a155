-- ===== src/Controllers/Files/Coherence.antt =====
-- The list that systemController.js keeps and the directories that settingsController.js changes.
use azan_dashboard.Prelude.{
  ℕ, ◌==◌, leb, String, Bool, true, false, not, ◌&&◌, ◌||◌, ◌≡◌, refl, ap, sym, ◌∙◌, Option, none,
  some, List, [], ◌∷◌, length, arith, if◌then◌else◌, if_both, ℤ, inl, inr, Option-cases,
}
use mathlib.Core.Path.{subst}
use azan_dashboard.Dict.{lookup, remove}
use azan_dashboard.Result.{Result, ok, err, Result-cases}
use azan_dashboard.Json.{Value, Members}
use azan_dashboard.Assets.{Answer, fulfilled, rejected, Tools, enrich_metadata}
use azan_dashboard.Controllers.Listing.{
  Folder, Site, Scan, flawless, all_results, filter_shown, Cached, cached_files, get_audio_files,
  get_audio_files_with_metadata, Page,
}
use azan_dashboard.Controllers.Files.{
  Paths, sanitize_filename, is_contained, State, Reply, success, failed, with_custom,
  existing_files, is_protected, with_audio, erase_audio, erase_sidecar, finish_delete,
  behind_sidecar, behind_audio, has_audio, delete_parts, delete_file, Upload, Steps, max_files,
  drop_temp, check_content, finish_upload, store_checked, store_upload, upload_file,
}

pub record Server : Type 0 where
  pub paths : Paths
  pub tools : Tools

-- A request with what the clock and the file system make of it
pub data Operation : Type 0 where
  listing : Scan → ℕ → Option ℤ → Option ℤ → Operation
  uploading : Steps → Option Upload → Operation
  deleting : (reads audio_unlinks meta_unlinks : Bool) → Option Value → Operation

-- asyncHandler answers 500 to what throws.
abbrev pub listed : State → Option Cached × Result Page → State × Reply
listed s (c, ok p) = (record s { cached = c }, success)
listed s (c, err e) = (record s { cached = c }, failed 500)

abbrev pub answer : Server → Operation → State → State × Reply
answer server (listing scan now page limit) s =
    listed s (get_audio_files server.tools.extname scan s.site now page limit s.cached)
answer server (uploading steps u) s = upload_file server.paths server.tools steps u s
answer server (deleting reads audio_unlinks meta_unlinks filename) s =
    delete_file server.paths reads audio_unlinks meta_unlinks filename s

abbrev pub is_failure : Reply → Bool
is_failure success = false
is_failure (failed status) = status == 500

-- The requests one after the other
unfoldable pub serve : Server → List Operation → State → State
unfolding get_audio_files upload_file delete_file
serve server [] s = s
serve server (o ∷ os) s = serve server os (answer server o s).0

-- A scan meets no failure of the file system.
abbrev pub IsFlawless : Operation → Type 0
IsFlawless (listing scan now page limit) = scan ≡ flawless
IsFlawless o = Unit

-- No request is answered 500, and no scan misses anything.
unfoldable pub IsCalm : Server → List Operation → State → Type 0
unfolding get_audio_files upload_file delete_file
IsCalm server [] s = Unit
IsCalm server (o ∷ os) s =
    (is_failure (answer server o s).1 ≡ false)
    × IsFlawless o
    × IsCalm server os (answer server o s).0

-- What is kept of the list is what a scan would show now.
abbrev pub IsShown : (String → String) → Site → Option Cached → Type 0
IsShown extname site none = Unit
IsShown extname site (some c) = filter_shown (all_results extname flawless site) ≡ ok c.data_of

abbrev pub IsCoherent : (String → String) → State → Type 0
IsCoherent extname s = IsShown extname s.site s.cached

-- A step that deletes nothing changes nothing.
abbrev Reports : Folder → Option (Folder × Bool) → Type 0
Reports folder none = Unit
Reports folder (some (f, b)) = b ≡ false → f ≡ folder

erase_audio-Reports :
    (unlinks : Bool) (name : String) (folder : Folder)
    → Reports folder (erase_audio unlinks name folder)
erase_audio-Reports unlinks name folder =
    if_both (Reports folder) (has_audio name folder) _ _
      (if_both (Reports folder) unlinks _ _ (λ e. absurd (ground arith)) tt) (λ e. refl)

erase_sidecar-Reports :
    (unlinks : Bool) (name : String) (folder : Folder)
    → Reports folder (erase_sidecar unlinks name folder)
erase_sidecar-Reports unlinks name folder = go (lookup name folder.sidecars)
  where
    go :
        (m : Option (Option Value))
        → Reports folder (elim m [
          | none ↦ some (folder, false)
          | some m ↦
              if unlinks
              then some (record folder { sidecars = remove name folder.sidecars }, true)
              else none
        ])
    go none = λ e. refl
    go (some m) = if_both (Reports folder) unlinks _ _ (λ e. absurd (ground arith)) tt

left_of : (a b : Bool) → (a || b) ≡ false → a ≡ false
left_of a b e = ground arith

right_of : (a b : Bool) → (a || b) ≡ false → b ≡ false
right_of a b e = ground arith

module _ (server : Server) where
  abbrev Kept : State × Reply → Type 0
  Kept r = is_failure r.1 ≡ false → IsCoherent server.tools.extname r.0

  broken : (s : State) → Kept (s, failed 500)
  broken s calm = absurd (ground arith)

  listing-Kept :
      (scan : Scan) (now : ℕ) (page limit : Option ℤ) (s : State)
      → scan ≡ flawless
      → IsCoherent server.tools.extname s
      → Kept (answer server (listing scan now page limit) s)
  unfolding get_audio_files get_audio_files_with_metadata
  listing-Kept scan now page limit s whole h = elim (Option-cases (cached_files now s.cached)) [
    | inr (all, fresh) ↦ rw (fresh, get_audio_files, get_audio_files_with_metadata) (λ calm. h)
    | inl stale ↦
        elim (Result-cases (filter_shown (all_results server.tools.extname scan s.site))) [
          | inl (shown, seen) ↦
              rw (stale, seen, get_audio_files, get_audio_files_with_metadata)
                (λ calm.
                  ap (λ (x : Scan). filter_shown (all_results server.tools.extname x s.site))
                    (sym whole)
                  ∙ seen)
          | inr (e, thrown) ↦
              rw (stale, thrown, get_audio_files, get_audio_files_with_metadata) (λ calm. h)
        ]
  ]

  finish-Kept :
      (b : Bool) (folder : Folder) (s : State)
      → IsCoherent server.tools.extname s
      → (b ≡ false → folder ≡ s.site.custom_folder)
      → Kept (finish_delete b (with_custom folder s))
  finish-Kept true folder s h same = λ calm. tt
  finish-Kept false folder s h same =
      subst (λ (f : Folder). Kept (finish_delete false (with_custom f s))) (sym (same refl))
        (λ calm. h)

  behind_sidecar-Kept :
      (a : Bool) (first : Folder) (s : State) (r : Option (Folder × Bool))
      → IsCoherent server.tools.extname s
      → Reports s.site.custom_folder (some (first, a))
      → Reports first r
      → Kept (behind_sidecar a first s r)
  behind_sidecar-Kept a first s none h one two = broken (with_custom first s)
  behind_sidecar-Kept a first s (some (second, m)) h one two =
      finish-Kept (a || m) second s h (λ e. two (right_of a m e) ∙ one (left_of a m e))

  behind_audio-Kept :
      (meta_unlinks : Bool) (name : String) (s : State) (r : Option (Folder × Bool))
      → IsCoherent server.tools.extname s
      → Reports s.site.custom_folder r
      → Kept (behind_audio meta_unlinks name s r)
  behind_audio-Kept meta_unlinks name s none h one = broken s
  behind_audio-Kept meta_unlinks name s (some (first, a)) h one =
      behind_sidecar-Kept a first s (erase_sidecar meta_unlinks name first) h one
        (erase_sidecar-Reports meta_unlinks name first)

  guarded-Kept :
      (outside guarded : Bool) (s : State) (r : State × Reply)
      → IsCoherent server.tools.extname s
      → Kept r
      → Kept (if outside then (s, failed 400) else if guarded then (s, failed 403) else r)
  guarded-Kept true guarded s r h k = λ calm. h
  guarded-Kept false true s r h k = λ calm. h
  guarded-Kept false false s r h k = k

  delete_file-Kept :
      (reads audio_unlinks meta_unlinks : Bool) (filename : Option Value) (s : State)
      → IsCoherent server.tools.extname s
      → Kept (delete_file server.paths reads audio_unlinks meta_unlinks filename s)
  unfolding delete_file delete_parts
  delete_file-Kept reads audio_unlinks meta_unlinks filename s h =
      elim (Option-cases (sanitize_filename server.paths filename)) [
        | inl bad ↦ rw (bad, delete_file) (λ calm. h)
        | inr (name, clean) ↦
            rw (clean, delete_file)
              (guarded-Kept
                (not (
                  is_contained server.paths (server.paths.audio_relative name)
                  && is_contained server.paths (server.paths.meta_relative name)))
                (reads && is_protected name s.site.custom_folder) s
                (behind_audio meta_unlinks name s
                  (erase_audio audio_unlinks name s.site.custom_folder))
                h
                (behind_audio-Kept meta_unlinks name s
                  (erase_audio audio_unlinks name s.site.custom_folder) h
                  (erase_audio-Reports audio_unlinks name s.site.custom_folder)))
      ]

  finish_upload-Kept :
      (steps : Steps) (filename : String) (s : State) (r : Answer Members)
      → Kept (finish_upload steps filename s r)
  finish_upload-Kept steps filename s (rejected message) = broken s
  finish_upload-Kept steps filename s (fulfilled enriched) =
      if_both Kept steps.writes _ _ (λ calm. tt) (broken s)

  store_upload-Kept :
      (steps : Steps) (u : Upload) (basic : Members) (s : State)
      → Kept (store_upload server.paths server.tools steps u basic s)
  unfolding store_upload
  store_upload-Kept steps u basic s =
      let copied = with_custom (with_audio u.filename s.site.custom_folder) s in
      if_both Kept (not steps.copies) _ _ (broken (drop_temp steps.drops u.path s)) (
        if_both Kept (not steps.moves) _ _ (broken (drop_temp steps.drops u.path copied)) (
          finish_upload-Kept steps u.filename (drop_temp true u.path copied)
            (enrich_metadata server.tools (server.paths.target_path u.filename) basic)))

  store_checked-Kept :
      (steps : Steps) (u : Upload) (s : State) (r : Answer Members)
      → IsCoherent server.tools.extname s
      → Kept (store_checked server.paths server.tools steps u s r)
  unfolding store_checked store_upload
  store_checked-Kept steps u s (rejected message) h = λ calm. h
  store_checked-Kept steps u s (fulfilled basic) h = store_upload-Kept steps u basic s

  upload_file-Kept :
      (steps : Steps) (u : Option Upload) (s : State)
      → IsCoherent server.tools.extname s
      → Kept (upload_file server.paths server.tools steps u s)
  unfolding upload_file
  upload_file-Kept steps none s h = λ calm. h
  upload_file-Kept steps (some u) s h =
      if_both Kept (not steps.makes) _ _ (broken (drop_temp steps.drops u.path s)) (
        if_both Kept (leb max_files (length (existing_files steps.lists s.site.custom_folder))) _ _
          (λ calm. h) (store_checked-Kept steps u s (check_content server.tools u.path) h))

  answer-Kept :
      (o : Operation) (s : State)
      → IsFlawless o
      → IsCoherent server.tools.extname s
      → Kept (answer server o s)
  answer-Kept (listing scan now page limit) s whole h = listing-Kept scan now page limit s whole h
  answer-Kept (uploading steps u) s whole h = upload_file-Kept steps u s h
  answer-Kept (deleting reads audio_unlinks meta_unlinks filename) s whole h =
      delete_file-Kept reads audio_unlinks meta_unlinks filename s h

-- However files are uploaded, deleted and listed by requests that are served one after the other, the
-- list that is kept for a minute is what a scan of the directories would show, as long as no request
-- is answered 500 and no scan fails to list a directory or to read a sidecar.
pub serve-IsCoherent :
    (server : Server) (os : List Operation) (s : State)
    → IsCalm server os s
    → IsCoherent server.tools.extname s
    → IsCoherent server.tools.extname (serve server os s)
unfolding serve IsCalm
serve-IsCoherent server [] s calm h = h
serve-IsCoherent server (o ∷ os) s (fine, whole, calm) h =
    serve-IsCoherent server os (answer server o s).0 calm (answer-Kept server o s whole h fine)
