-- ===== src/Assets/Sidecars/Verdicts.antt =====
-- What _migrateFile of services/system/assetMigrationService.js adds to a sidecar.
use azan_dashboard.Prelude.{
  String, Bool, true, false, ◌≡◌, refl, ap, sym, ◌∙◌, Option, none, some, List, [], ◌∷◌, All, arith,
  eq_refl, Bool-cases, inl, inr,
}
use mathlib.Core.Path.{subst}
use azan_dashboard.Dict.{lookup, lookup-insert}
use azan_dashboard.Json.{Value, str, obj, Members, get, put, truthy, truthy_option}
use azan_dashboard.Json.Fields.{get-put}
use azan_dashboard.Assets.{
  Answer, fulfilled, rejected, fulfilled-injective, Answer-cases, Shelf, Tools, Validator,
}
use azan_dashboard.Assets.Sidecars.{
  with_meta, refreshed, Checked, judged, add_missing, object_or_new, compatibility_in, migrated,
  write_checked, unchecked, migrate_entry, migrate_file,
}

-- Every output has a verdict.
abbrev pub AreJudged : List Validator → Members → Type 0
AreJudged vs compatibility =
    All (λ (v : Validator). truthy_option (get v.id compatibility) ≡ true) vs

-- What an output decides is an object, hence truthy.
abbrev pub HasRealVerdicts : Validator → Type 0
HasRealVerdicts v =
    (file : String) (m : Members) (verdict : Value)
    → v.validate_asset file m ≡ fulfilled verdict
    → truthy verdict ≡ true

module _ (tools : Tools) (file : String) where
  -- A round for an output without a verdict
  add_missing-judged :
      (v : Validator) (vs : List Validator) (c c' : Checked)
      → truthy_option (get v.id c.compatibility) ≡ false
      → add_missing tools file (v ∷ vs) c ≡ fulfilled c'
      → (m : Members) × (verdict : Value) × (v.validate_asset file m ≡ fulfilled verdict)
        × (add_missing tools file vs (judged v verdict m c) ≡ fulfilled c')
  unfolding add_missing
  add_missing-judged v vs c c' missing e = elim (Answer-cases (refreshed tools file c.metadata)) [
    | inr (s, thrown) ↦
        let bad : rejected s ≡ fulfilled c' = rw (missing, thrown, add_missing) at e in
        absurd (ground arith)
    | inl (m, fresh) ↦ elim (Answer-cases (v.validate_asset file m)) [
      | inr (s, thrown) ↦
          let bad : rejected s ≡ fulfilled c' = rw (missing, fresh, thrown, add_missing) at e in
          absurd (ground arith)
      | inl (verdict, decided) ↦
          (m, verdict, decided, rw (missing, fresh, decided, add_missing) at e)
    ]
  ]

  judged-kept :
      (v : Validator) (verdict : Value) (m : Members) (c : Checked) (id : String)
      → truthy verdict ≡ true
      → truthy_option (get id c.compatibility) ≡ true
      → truthy_option (get id (judged v verdict m c).compatibility) ≡ true
  judged-kept v verdict m c id filled h = ground (arith, get-put v.id id verdict c.compatibility)

  add_missing-kept :
      (vs : List Validator) (c c' : Checked) (id : String)
      → All HasRealVerdicts vs
      → add_missing tools file vs c ≡ fulfilled c'
      → truthy_option (get id c.compatibility) ≡ true
      → truthy_option (get id c'.compatibility) ≡ true
  unfolding add_missing
  add_missing-kept [] c c' id real e h =
      ap (λ (x : Checked). truthy_option (get id x.compatibility)) (sym (fulfilled-injective e)) ∙ h
  add_missing-kept (v ∷ vs) c c' id (own, real) e h =
      elim (Bool-cases (truthy_option (get v.id c.compatibility))) [
        | inl there ↦ add_missing-kept vs c c' id real (rw (there, add_missing) at e) h
        | inr missing ↦
            let (m, verdict, decided, rest) = add_missing-judged v vs c c' missing e in
            add_missing-kept vs (judged v verdict m c) c' id real rest
              (judged-kept v verdict m c id (own file m verdict decided) h)
      ]

  add_missing-AreJudged :
      (vs : List Validator) (c c' : Checked)
      → All HasRealVerdicts vs
      → add_missing tools file vs c ≡ fulfilled c'
      → AreJudged vs c'.compatibility
  unfolding add_missing
  add_missing-AreJudged [] c c' real e = tt
  add_missing-AreJudged (v ∷ vs) c c' (own, real) e =
      elim (Bool-cases (truthy_option (get v.id c.compatibility))) [
        | inl there ↦
            let rest : add_missing tools file vs c ≡ fulfilled c' = rw (there, add_missing) at e in
            (add_missing-kept vs c c' v.id real rest there, add_missing-AreJudged vs c c' real rest)
        | inr missing ↦
            let (m, verdict, decided, rest) = add_missing-judged v vs c c' missing e in
            let next = judged v verdict m c in
            let now : truthy_option (get v.id next.compatibility) ≡ true =
              let filled = own file m verdict decided in
              ground (arith, get-put v.id v.id verdict c.compatibility, eq_refl v.id) in
            (
              add_missing-kept vs next c' v.id real rest now,
              add_missing-AreJudged vs next c' real rest,
            )
      ]

  -- Where every output has a verdict, nothing is added.
  add_missing-done :
      (vs : List Validator) (c : Checked)
      → AreJudged vs c.compatibility
      → add_missing tools file vs c ≡ fulfilled c
  unfolding add_missing
  add_missing-done [] c h = refl
  add_missing-done (v ∷ vs) c (there, h) = rw (there, add_missing) (add_missing-done vs c h)

compatibility_in-migrated :
    (tools : Tools) (c : Checked) → compatibility_in (migrated tools c) ≡ c.compatibility
compatibility_in-migrated tools c =
    let read : get "compatibility" (migrated tools c) ≡ some (obj c.compatibility) =
      get-put "updatedAt" "compatibility" (str tools.iso_now)
        (put "compatibility" (obj c.compatibility) c.metadata)
      ∙ get-put "compatibility" "compatibility" (obj c.compatibility) c.metadata in
    ap object_or_new read

unchanged : (shelf s : Shelf) → ◌≡◌ {A = Shelf × Bool} (shelf, false) (s, true) → ⊥
unchanged shelf s e =
    let bad : false ≡ true = ap (λ (r : Shelf × Bool). r.1) e in absurd (ground arith)

-- A migration that changed something
write_checked-changed :
    (tools : Tools) (file : String) (shelf shelf' : Shelf) (a : Answer Checked)
    → write_checked tools file shelf a ≡ (shelf', true)
    → (c : Checked) × (a ≡ fulfilled c) × (with_meta file (migrated tools c) shelf ≡ shelf')
write_checked-changed tools file shelf shelf' (rejected message) e = absurd (ground arith)
write_checked-changed tools file shelf shelf' (fulfilled c) e = elim (Bool-cases c.needs_update) [
  | inl changed ↦ (c, refl, ap (λ (r : Shelf × Bool). r.0) (rw changed at e))
  | inr same ↦ absurd (unchanged shelf shelf' (rw same at e))
]

-- A sidecar with all its verdicts stays as it is.
migrated-unchanged :
    (tools : Tools) (file : String) (shelf : Shelf) (c : Checked)
    → AreJudged tools.validators c.compatibility
    → lookup file shelf.meta ≡ some (some (migrated tools c))
    → migrate_file tools file shelf ≡ (shelf, false)
unfolding migrate_file
migrated-unchanged tools file shelf c judged found =
    let start = unchecked (migrated tools c) in
    let all = subst (AreJudged tools.validators) (sym (compatibility_in-migrated tools c)) judged in
    ap (migrate_entry tools file shelf) found
    ∙ ap (write_checked tools file shelf) (add_missing-done tools file tools.validators start all)

-- A sidecar is migrated once: after a migration that changed it, the sidecar has a verdict of every
-- registered output, and a second migration changes nothing, provided that no output's verdict is
-- a falsy value.
pub migrate_file-once :
    (tools : Tools) (file : String) (shelf shelf' : Shelf)
    → All HasRealVerdicts tools.validators
    → migrate_file tools file shelf ≡ (shelf', true)
    → migrate_file tools file shelf' ≡ (shelf', false)
unfolding migrate_file
migrate_file-once tools file shelf shelf' real e = go (lookup file shelf.meta) e
  where
    go :
        (o : Option (Option Members))
        → migrate_entry tools file shelf o ≡ (shelf', true)
        → migrate_file tools file shelf' ≡ (shelf', false)
    go none e = absurd (unchanged shelf shelf' e)
    go (some none) e = absurd (unchanged shelf shelf' e)
    go (some (some m)) e =
        let (c, done, same) =
          write_checked-changed tools file shelf shelf'
            (add_missing tools file tools.validators (unchecked m)) e in
        let judged = add_missing-AreJudged tools file tools.validators (unchecked m) c real done in
        let found =
          ap (λ (s : Shelf). lookup file s.meta) (sym same)
          ∙ ground
              (arith, lookup-insert file file (some (migrated tools c)) shelf.meta, eq_refl file) in
        migrated-unchanged tools file shelf' c judged found
