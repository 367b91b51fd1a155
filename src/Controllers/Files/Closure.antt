-- ===== src/Controllers/Files/Closure.antt =====
-- What every change of the custom directory keeps, every request of settingsController.js and
-- systemController.js keeps.
use azan_dashboard.Prelude.{
  leb, ◌<◌, String, Bool, true, false, not, ◌&&◌, ◌||◌, ◌≡◌, refl, Option, none, some, List, [],
  ◌∷◌, length, arith, if◌then◌else◌, if_both, inl, inr, Option-cases, Bool-cases,
}
use azan_dashboard.Dict.{lookup, remove}
use azan_dashboard.Result.{Result, ok, err}
use azan_dashboard.Json.{Value, Members}
use azan_dashboard.Assets.{Answer, fulfilled, rejected, enrich_metadata}
use azan_dashboard.Controllers.Listing.{Folder, Cached, Page, get_audio_files}
use azan_dashboard.Controllers.Files.{
  sanitize_filename, is_contained, State, Reply, failed, with_custom, existing_files, has_audio,
  without_audio, is_protected, erase_audio, erase_sidecar, finish_delete, behind_sidecar,
  behind_audio, delete_parts, delete_file, Upload, Steps, max_files, drop_temp, check_content,
  with_audio, with_sidecar, finish_upload, store_upload, store_checked, upload_file,
}
use azan_dashboard.Controllers.Files.Coherence.{
  Server, Operation, listing, uploading, deleting, listed, answer, serve,
}

abbrev pub without_sidecar : String → Folder → Folder
without_sidecar name folder = record folder { sidecars = remove name folder.sidecars }

-- An upload whose name may be written and whose count may be as it is, a deletion whose reading may
-- be as it is
abbrev pub IsAllowed : (May : String → Type 0) (Lists Reads : Bool → Type 0) → Operation → Type 0
IsAllowed May Lists Reads (uploading steps (some u)) = May u.filename × Lists steps.lists
IsAllowed May Lists Reads (deleting reads audio_unlinks meta_unlinks filename) = Reads reads
IsAllowed May Lists Reads o = Unit

abbrev pub AreAllowed :
    (May : String → Type 0) (Lists Reads : Bool → Type 0) → List Operation → Type 0
AreAllowed May Lists Reads [] = Unit
AreAllowed May Lists Reads (o ∷ os) = IsAllowed May Lists Reads o × AreAllowed May Lists Reads os

module _ (P : Folder → Type 0) (May : String → Type 0) (Lists Reads : Bool → Type 0)
    (erases : (n : String) (f : Folder) (reads : Bool)
      → Reads reads
      → (reads && is_protected n f) ≡ false
      → P f
      → P (without_audio n f))
    (drops : (n : String) (f : Folder) (reads : Bool)
      → Reads reads
      → (reads && is_protected n f) ≡ false
      → P f
      → P (without_sidecar n f))
    (adds : (n : String) (f : Folder) (lists : Bool)
      → May n
      → Lists lists
      → length (existing_files lists f) < max_files
      → P f
      → P (with_audio n f))
    (writes : (n : String) (m : Members) (f : Folder) → May n → P f → P (with_sidecar n m f))
    (server : Server) where
  abbrev Holds : State × Reply → Type 0
  Holds r = P r.0.site.custom_folder

  abbrev Left : Bool → String → Option (Folder × Bool) → Type 0
  Left reads name none = Unit
  Left reads name (some (f, b)) = P f × ((reads && is_protected name f) ≡ false)

  erase_audio-Left :
      (reads unlinks : Bool) (name : String) (folder : Folder)
      → Reads reads
      → (reads && is_protected name folder) ≡ false
      → P folder
      → Left reads name (erase_audio unlinks name folder)
  erase_audio-Left reads unlinks name folder may free h =
      if_both (Left reads name) (has_audio name folder) _ _
        (if_both (Left reads name) unlinks _ _ (erases name folder reads may free h, free) tt)
        (h, free)

  behind_sidecar-Holds :
      (reads a meta_unlinks : Bool) (name : String) (first : Folder) (s : State)
      → Reads reads
      → (reads && is_protected name first) ≡ false
      → P first
      → Holds (behind_sidecar a first s (erase_sidecar meta_unlinks name first))
  behind_sidecar-Holds reads a meta_unlinks name first s may free h =
      go (lookup name first.sidecars)
    where
      finished : (b : Bool) (f : Folder) → P f → Holds (finish_delete b (with_custom f s))
      finished true f hf = hf
      finished false f hf = hf

      dropped :
          (unlinks : Bool)
          → Holds (
              behind_sidecar a first s
                (if unlinks then some (without_sidecar name first, true) else none))
      dropped true =
          finished (a || true) (without_sidecar name first) (drops name first reads may free h)
      dropped false = h

      go :
          (m : Option (Option Value))
          → Holds (
              behind_sidecar a first s (elim m [
                | none ↦ some (first, false)
                | some m ↦ if meta_unlinks then some (without_sidecar name first, true) else none
              ]))
      go none = finished (a || false) first h
      go (some m) = dropped meta_unlinks

  behind_audio-Holds :
      (reads meta_unlinks : Bool) (name : String) (s : State) (r : Option (Folder × Bool))
      → Reads reads
      → P s.site.custom_folder
      → Left reads name r
      → Holds (behind_audio meta_unlinks name s r)
  behind_audio-Holds reads meta_unlinks name s none may h left = h
  behind_audio-Holds reads meta_unlinks name s (some (first, a)) may h (hf, free) =
      behind_sidecar-Holds reads a meta_unlinks name first s may free hf

  guarded-Holds :
      (outside guarded : Bool) (s : State) (r : State × Reply)
      → P s.site.custom_folder
      → (guarded ≡ false → Holds r)
      → Holds (if outside then (s, failed 400) else if guarded then (s, failed 403) else r)
  guarded-Holds true guarded s r h k = h
  guarded-Holds false true s r h k = h
  guarded-Holds false false s r h k = k refl

  delete_file-Holds :
      (reads audio_unlinks meta_unlinks : Bool) (filename : Option Value) (s : State)
      → Reads reads
      → P s.site.custom_folder
      → Holds (delete_file server.paths reads audio_unlinks meta_unlinks filename s)
  unfolding delete_file delete_parts
  delete_file-Holds reads audio_unlinks meta_unlinks filename s may h =
      elim (Option-cases (sanitize_filename server.paths filename)) [
        | inl bad ↦ rw (bad, delete_file) h
        | inr (name, clean) ↦
            rw (clean, delete_file)
              (guarded-Holds
                (not (
                  is_contained server.paths (server.paths.audio_relative name)
                  && is_contained server.paths (server.paths.meta_relative name)))
                (reads && is_protected name s.site.custom_folder) s
                (behind_audio meta_unlinks name s
                  (erase_audio audio_unlinks name s.site.custom_folder))
                h
                (λ free.
                  behind_audio-Holds reads meta_unlinks name s
                    (erase_audio audio_unlinks name s.site.custom_folder) may h
                    (erase_audio-Left reads audio_unlinks name s.site.custom_folder may free h)))
      ]

  finish_upload-Holds :
      (steps : Steps) (filename : String) (s : State) (r : Answer Members)
      → May filename
      → P s.site.custom_folder
      → Holds (finish_upload steps filename s r)
  finish_upload-Holds steps filename s (rejected message) may h = h
  finish_upload-Holds steps filename s (fulfilled enriched) may h =
      if_both Holds steps.writes _ _ (writes filename enriched s.site.custom_folder may h) h

  store_checked-Holds :
      (steps : Steps) (u : Upload) (s : State) (r : Answer Members)
      → May u.filename
      → Lists steps.lists
      → length (existing_files steps.lists s.site.custom_folder) < max_files
      → P s.site.custom_folder
      → Holds (store_checked server.paths server.tools steps u s r)
  unfolding store_checked store_upload
  store_checked-Holds steps u s (rejected message) may counts room h = h
  store_checked-Holds steps u s (fulfilled basic) may counts room h =
      let added = adds u.filename s.site.custom_folder steps.lists may counts room h in
      if_both Holds (not steps.copies) _ _ h (
        if_both Holds (not steps.moves) _ _ added (
          finish_upload-Holds steps u.filename
            (drop_temp true u.path (with_custom (with_audio u.filename s.site.custom_folder) s))
            (enrich_metadata server.tools (server.paths.target_path u.filename) basic) may added))

  upload_file-Holds :
      (steps : Steps) (u : Option Upload) (s : State)
      → IsAllowed May Lists Reads (uploading steps u)
      → P s.site.custom_folder
      → Holds (upload_file server.paths server.tools steps u s)
  unfolding upload_file
  upload_file-Holds steps none s may h = h
  upload_file-Holds steps (some u) s (may, counts) h =
      if_both Holds (not steps.makes) _ _ h
        (elim (Bool-cases
          (leb max_files (length (existing_files steps.lists s.site.custom_folder)))) [
            | inl full ↦ rw full h
            | inr room ↦ rw room (
                store_checked-Holds steps u s (check_content server.tools u.path) may counts
                  (ground arith) h)
          ])

  answer-Holds :
      (o : Operation) (s : State)
      → IsAllowed May Lists Reads o
      → P s.site.custom_folder
      → Holds (answer server o s)
  answer-Holds (listing scan now page limit) s may h =
      go (get_audio_files server.tools.extname scan s.site now page limit s.cached)
    where
      go : (r : Option Cached × Result Page) → Holds (listed s r)
      go (c, ok p) = h
      go (c, err e) = h
  answer-Holds (uploading steps u) s may h = upload_file-Holds steps u s may h
  answer-Holds (deleting reads audio_unlinks meta_unlinks filename) s may h =
      delete_file-Holds reads audio_unlinks meta_unlinks filename s may h

  pub serve-Holds :
      (os : List Operation) (s : State)
      → AreAllowed May Lists Reads os
      → P s.site.custom_folder
      → P (serve server os s).site.custom_folder
  unfolding serve
  serve-Holds [] s may h = h
  serve-Holds (o ∷ os) s (one, may) h =
      serve-Holds os (answer server o s).0 may (answer-Holds o s one h)
