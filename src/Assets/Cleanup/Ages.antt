-- ===== src/Assets/Cleanup/Ages.antt =====
-- Which files cleanupCache and cleanupTempAudio of services/system/audioAssetService.js keep.
use azan_dashboard.Prelude.{
  ℕ, String, Bool, true, false, ◌≡◌, refl, ap, sym, ◌∙◌, Option, none, some, [], ◌∷◌, arith, str_eq,
  eq_iff, if◌then◌else◌, Bool-cases, Option-cases, inl, inr,
}
use mathlib.Core.Path.{subst}
use mathlib.Core.Option.{some-injective}
use azan_dashboard.Dict.{Dict, lookup, lookup-remove, HasDistinctKeys}
use azan_dashboard.Assets.{Shelf}
use azan_dashboard.Assets.Cleanup.{cache_max_age, is_older, without, clean_listed, cleanup_cache}

-- A file that is not listed as an old one
abbrev pub IsYoung : ℕ → Option ℕ → Type 0
IsYoung now none = Unit
IsYoung now (some time) = is_older cache_max_age now time ≡ false

-- A shelf whose entries for the file are as before
abbrev pub SameFile : String → Shelf → Shelf → Type 0
SameFile file after before =
    (lookup file after.audio ≡ lookup file before.audio)
    × (lookup file after.meta ≡ lookup file before.meta)

module _ (deletes drops : String → Bool) (now : ℕ) (file : String) where
  without-SameFile :
      (other : String) (shelf : Shelf)
      → str_eq other file ≡ false
      → SameFile file (without drops other shelf) shelf
  without-SameFile other shelf apart = (
    ground (arith, lookup-remove other file shelf.audio),
    elim (Bool-cases (drops other)) [
      | inl e ↦ rw e (ground (arith, lookup-remove other file shelf.meta))
      | inr e ↦ rw e refl
    ],
  )

  -- The rest of the listing has the file as a young one too.
  IsYoung-rest :
      (other : String) (time : ℕ) (rest : Dict ℕ)
      → lookup other rest ≡ none
      → IsYoung now (lookup file ((other, time) ∷ rest))
      → IsYoung now (lookup file rest)
  unfolding lookup
  IsYoung-rest other time rest fresh young = elim (Bool-cases (str_eq other file)) [
    | inr apart ↦ rw apart at young
    | inl own ↦
        let gone : lookup file rest ≡ none =
          ap (λ (x : String). lookup x rest) (sym (ground (arith, eq_iff other file))) ∙ fresh in
        subst (IsYoung now) (sym gone) tt
  ]

  old-other :
      (other : String) (time : ℕ) (rest : Dict ℕ)
      → is_older cache_max_age now time ≡ true
      → IsYoung now (lookup file ((other, time) ∷ rest))
      → str_eq other file ≡ false
  unfolding lookup
  old-other other time rest old young = elim (Bool-cases (str_eq other file)) [
    | inr apart ↦ apart
    | inl own ↦
        let fine : is_older cache_max_age now time ≡ false = rw own at young in
        absurd (ground arith)
  ]

  clean_listed-SameFile :
      (listed : Dict ℕ) (shelf : Shelf)
      → HasDistinctKeys listed
      → IsYoung now (lookup file listed)
      → SameFile file (clean_listed deletes drops now listed shelf) shelf
  unfolding clean_listed
  clean_listed-SameFile [] shelf h young = (refl, refl)
  clean_listed-SameFile ((other, time) ∷ rest) shelf (fresh, h) young =
      let later = IsYoung-rest other time rest fresh young in
      elim (Bool-cases (is_older cache_max_age now time)) [
        | inr fine ↦ rw (fine, clean_listed) (clean_listed-SameFile rest shelf h later)
        | inl old ↦ elim (Bool-cases (deletes other)) [
          | inr stuck ↦ rw (old, stuck, clean_listed) (refl, refl)
          | inl gone ↦
              let (a, m) = clean_listed-SameFile rest (without drops other shelf) h later in
              let (a', m') = without-SameFile other shelf (old-other other time rest old young) in
              rw (old, gone, clean_listed) (a ∙ a', m ∙ m')
        ]
      ]

  -- A file that is gone stays so.
  clean_listed-none :
      (listed : Dict ℕ) (shelf : Shelf)
      → lookup file shelf.audio ≡ none
      → lookup file (clean_listed deletes drops now listed shelf).audio ≡ none
  unfolding clean_listed
  clean_listed-none [] shelf e = e
  clean_listed-none ((other, time) ∷ rest) shelf e =
      elim (Bool-cases (is_older cache_max_age now time)) [
        | inr fine ↦ rw (fine, clean_listed) (clean_listed-none rest shelf e)
        | inl old ↦ elim (Bool-cases (deletes other)) [
          | inr stuck ↦ rw (old, stuck, clean_listed) e
          | inl gone ↦
              rw (old, gone, clean_listed)
                (clean_listed-none rest (without drops other shelf)
                  (ground (arith, lookup-remove other file shelf.audio)))
        ]
      ]

-- A cleanup of the cache never touches a file that was used within the last thirty days, nor its
-- sidecar, whatever it fails to delete.
pub cleanup_cache-SameFile :
    (deletes drops : String → Bool) (now time : ℕ) (file : String) (shelf : Shelf)
    → HasDistinctKeys shelf.audio
    → lookup file shelf.audio ≡ some time
    → is_older cache_max_age now time ≡ false
    → SameFile file (cleanup_cache deletes drops now shelf) shelf
unfolding cleanup_cache
cleanup_cache-SameFile deletes drops now time file shelf h found young =
    clean_listed-SameFile deletes drops now file shelf.audio shelf h
      (subst (IsYoung now) (sym found) young)

module _ (drops : String → Bool) (now : ℕ) (file : String) where
  clean_listed-old :
      (listed : Dict ℕ) (shelf : Shelf) (time : ℕ)
      → lookup file listed ≡ some time
      → is_older cache_max_age now time ≡ true
      → lookup file (clean_listed (λ f. true) drops now listed shelf).audio ≡ none
  unfolding clean_listed lookup
  clean_listed-old [] shelf time found old = absurd (ground arith)
  clean_listed-old ((other, t) ∷ rest) shelf time found old =
      elim (Bool-cases (str_eq other file)) [
        | inl own ↦
            let same : t ≡ time = some-injective _ _ (rw own at found) in
            let aged : is_older cache_max_age now t ≡ true = ground arith in
            rw (aged, clean_listed)
              (clean_listed-none (λ f. true) drops now file rest (without drops other shelf)
                (ground (arith, lookup-remove other file shelf.audio)))
        | inr apart ↦
            let later : lookup file rest ≡ some time = rw apart at found in
            elim (Bool-cases (is_older cache_max_age now t)) [
              | inl aged ↦
                  rw (aged, clean_listed)
                    (clean_listed-old rest (without drops other shelf) time later old)
              | inr fine ↦ rw (fine, clean_listed) (clean_listed-old rest shelf time later old)
            ]
      ]

-- What a cleanup makes of a file's entry
abbrev pub aged_out : ℕ → Option ℕ → Option ℕ
aged_out now none = none
aged_out now (some time) = if is_older cache_max_age now time then none else some time

-- A cleanup that can delete what it wants removes exactly the files whose last use is more than
-- thirty days ago.
pub cleanup_cache-aged_out :
    (drops : String → Bool) (now : ℕ) (file : String) (shelf : Shelf)
    → HasDistinctKeys shelf.audio
    → lookup file (cleanup_cache (λ f. true) drops now shelf).audio
      ≡ aged_out now (lookup file shelf.audio)
unfolding cleanup_cache
cleanup_cache-aged_out drops now file shelf h = elim (Option-cases (lookup file shelf.audio)) [
  | inl missing ↦
      clean_listed-none (λ f. true) drops now file shelf.audio shelf missing
      ∙ ap (aged_out now) (sym missing)
  | inr (time, found) ↦ elim (Bool-cases (is_older cache_max_age now time)) [
    | inl old ↦
        clean_listed-old drops now file shelf.audio shelf time found old
        ∙ sym (rw found (rw old refl))
    | inr young ↦
        (cleanup_cache-SameFile (λ f. true) drops now time file shelf h found young).0
        ∙ found
        ∙ sym (rw found (rw young refl))
  ]
]
