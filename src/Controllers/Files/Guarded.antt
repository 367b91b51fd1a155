-- ===== src/Controllers/Files/Guarded.antt =====
-- What settingsController.js never does to the uploaded files.
use azan_dashboard.Prelude.{
  ◌+◌, ◌≤◌, ◌<◌, String, Bool, true, false, ◌≡◌, List, [], ◌∷◌, length, keep, arith, str_eq, inl,
  inr, Bool-cases, length-append,
}
use azan_dashboard.Settings.{member as contains}
use azan_dashboard.Dict.{lookup}
use azan_dashboard.Controllers.Listing.{Folder}
use azan_dashboard.Controllers.Files.{
  State, existing_files, has_audio, max_files, with_audio, other_than,
}
use azan_dashboard.Controllers.Files.Coherence.{Server, Operation, serve}
use azan_dashboard.Controllers.Files.Closure.{AreAllowed, serve-Holds}

length-keep : (n : String) (files : List String) → length (keep (other_than n) files) ≤ length files
length-keep n [] = ground arith
length-keep n (f ∷ files) = ground (arith, length-keep n files)

abbrev Apart : String → String → Type 0
Apart name n = str_eq n name ≡ false

-- What a folder holds under a name
abbrev pub IsSame : String → Folder → Folder → Type 0
IsSame name before after =
    (has_audio name after ≡ has_audio name before)
    × (lookup name after.sidecars ≡ lookup name before.sidecars)

-- A flag that must be set, and one that need not
abbrev Demanded : Bool → Type 0
Demanded b = b ≡ true

abbrev Unrestricted : {A : Type 0} → A → Type 0
Unrestricted x = Unit

length-with_audio : (n : String) (f : Folder) → length (with_audio n f).audio ≤ length f.audio + 1
length-with_audio n f = elim (Bool-cases (contains n f.audio)) [
  | inl there ↦ rw there (omega arith)
  | inr fresh ↦ rw fresh (omega (arith, length-append f.audio (n ∷ [])))
]

abbrev pub IsBounded : Folder → Type 0
IsBounded f = length f.audio ≤ max_files

grown-IsBounded :
    (n : String) (f : Folder) (lists : Bool)
    → Demanded lists
    → length (existing_files lists f) < max_files
    → IsBounded (with_audio n f)
grown-IsBounded n f true counted room = omega (arith, length-with_audio n f)
grown-IsBounded n f false counted room = absurd (ground arith)

-- Requests that are served one after the other never bring the directory of uploads above 500 files,
-- if it can be listed at every upload.
pub serve-IsBounded :
    (server : Server) (os : List Operation) (s : State)
    → AreAllowed Unrestricted Demanded Unrestricted os
    → IsBounded s.site.custom_folder
    → IsBounded (serve server os s).site.custom_folder
serve-IsBounded server os s counted fits =
    serve-Holds IsBounded Unrestricted Demanded Unrestricted
      (λ n f reads any free h. omega (arith, length-keep n f.audio)) (λ n f reads any free h. h)
      (λ n f lists any counts room h. grown-IsBounded n f lists counts room) (λ n m f any h. h)
      server os s counted fits
