-- ===== src/Migration/Version.antt =====
-- migrateConfig of services/system/migrationService.js: the chain of its steps.
use azan_dashboard.Prelude.{
  String, ◌≡◌, ◌≢◌, refl, ◌∙◌, Bool, true, false, ◌||◌, some, arith, ℤ, pos, str_eq, Bool-cases,
  inl, inr, ◌⊎◌, eq_iff,
}
use mathlib.Core.Path.{subst}
use azan_dashboard.Result.{Result, ok, Result-cases}
use azan_dashboard.Json.{num, Members, get}
use azan_dashboard.Migration.{
  version_key, migrate_v1_to_v2, migrate_v2_to_v3, migrate_v3_to_v4, migrate_v4_to_v5, has_version,
  step_if, is_first, migrate_config,
}
use azan_dashboard.Migration.Steps.{
  IsApart, IsStep, migrate_v1_to_v2-IsStep, migrate_v2_to_v3-IsStep, migrate_v3_to_v4-IsStep,
  migrate_v4_to_v5-IsStep,
}

-- The four stages of a migration that succeeds
record Stages (c1 c5 : Members) : Type 0 where
  c2 : Members
  c3 : Members
  c4 : Members
  to2 : step_if (is_first c1) migrate_v1_to_v2 c1 ≡ ok c2
  to3 : step_if (has_version (pos 2) c2) migrate_v2_to_v3 c2 ≡ ok c3
  to4 : step_if (has_version (pos 3) c3) migrate_v3_to_v4 c3 ≡ ok c4
  to5 : step_if (has_version (pos 4) c4) migrate_v4_to_v5 c4 ≡ ok c5

migrate_config-Stages : (c1 c5 : Members) → migrate_config c1 ≡ ok c5 → Stages c1 c5
unfolding migrate_config
migrate_config-Stages c1 c5 e = elim (Result-cases (step_if (is_first c1) migrate_v1_to_v2 c1)) [
  | inr (x, failed) ↦ absurd (ground arith)
  | inl (c2, to2) ↦ elim (Result-cases (step_if (has_version (pos 2) c2) migrate_v2_to_v3 c2)) [
    | inr (x, failed) ↦ absurd (ground arith)
    | inl (c3, to3) ↦ elim (Result-cases (step_if (has_version (pos 3) c3) migrate_v3_to_v4 c3)) [
      | inr (x, failed) ↦ absurd (ground arith)
      | inl (c4, to4) ↦ record {
        c2 = c2;
        c3 = c3;
        c4 = c4;
        to2 = to2;
        to3 = to3;
        to4 = to4;
        to5 = ground arith;
      }
    ]
  ]
]

-- A step that has a key set or left alone, or is not taken.
step_if-kept :
    (b : Bool) (step : Members → Result Members) (n : ℤ) (other : String) (c c' : Members)
    → ((d : Members) → step c ≡ ok d → IsStep n other c d)
    → str_eq version_key other ≡ false
    → step_if b step c ≡ ok c'
    → get other c' ≡ get other c
step_if-kept true step n other c c' h apart e = ground (arith, h c' e)
step_if-kept false step n other c c' h apart e = ground arith

-- A setting outside of `version`, `automation`, `sources`, `calculation`, `system` and `security` is
-- what it was before the migration, from whichever version it starts.
pub migrate_config-kept :
    (other : String) (c c' : Members)
    → IsApart other
    → other ≢ "version"
    → migrate_config c ≡ ok c'
    → get other c' ≡ get other c
migrate_config-kept other c1 c5 apart named e =
    let s = migrate_config-Stages c1 c5 e in
    let free : str_eq version_key other ≡ false = ground (arith, eq_iff version_key other) in
    let kept2 =
      step_if-kept (is_first c1) migrate_v1_to_v2 (pos 2) other c1 s.c2
        (λ d. migrate_v1_to_v2-IsStep other c1 d apart) free s.to2 in
    let kept3 =
      step_if-kept (has_version (pos 2) s.c2) migrate_v2_to_v3 (pos 3) other s.c2 s.c3
        (λ d. migrate_v2_to_v3-IsStep other s.c2 d apart) free s.to3 in
    let kept4 =
      step_if-kept (has_version (pos 3) s.c3) migrate_v3_to_v4 (pos 4) other s.c3 s.c4
        (λ d. migrate_v3_to_v4-IsStep other s.c3 d apart) free s.to4 in
    step_if-kept (has_version (pos 4) s.c4) migrate_v4_to_v5 (pos 5) other s.c4 c5
      (λ d. migrate_v4_to_v5-IsStep other s.c4 d apart) free s.to5
    ∙ (kept4 ∙ (kept3 ∙ kept2))

version-IsApart : IsApart version_key
version-IsApart = record {
  automation = refl;
  sources = refl;
  calculation = refl;
  system = refl;
  security = refl;
}

-- The version after a step that is taken
versioned :
    (step : Members → Result Members) (n : ℤ) (c c' : Members) (b : Bool)
    → ((d : Members) → step c ≡ ok d → IsStep n version_key c d)
    → b ≡ true
    → step_if b step c ≡ ok c'
    → get version_key c' ≡ some (num n)
versioned step n c c' b h taken e = h c' (subst (λ x. step_if x step c ≡ ok c') taken e)

-- A version that a step is for: none or a falsy one, 1, 2, 3 or 4
abbrev pub is_old : Members → Bool
is_old c = is_first c || (has_version (pos 2) c || (has_version (pos 3) c || has_version (pos 4) c))

step_if-skipped :
    (b : Bool) (step : Members → Result Members) (c c' : Members)
    → b ≡ false
    → step_if b step c ≡ ok c'
    → c ≡ c'
step_if-skipped true step c c' f e = absurd (ground arith)
step_if-skipped false step c c' f e = ground arith

has_version-4 :
    (c : Members) → get version_key c ≡ some (num (pos 4)) → has_version (pos 4) c ≡ true
has_version-4 c e = ground arith

has_version-3 :
    (c : Members) → get version_key c ≡ some (num (pos 3)) → has_version (pos 3) c ≡ true
has_version-3 c e = ground arith

has_version-2 :
    (c : Members) → get version_key c ≡ some (num (pos 2)) → has_version (pos 2) c ≡ true
has_version-2 c e = ground arith

module _ (c1 c5 : Members) (s : Stages c1 c5) where
  open s use {c2, c3, c4, to2, to3, to4, to5}

  from4 : has_version (pos 4) c4 ≡ true → get version_key c5 ≡ some (num (pos 5))
  from4 h =
      versioned migrate_v4_to_v5 (pos 5) c4 c5 (has_version (pos 4) c4)
        (λ d. migrate_v4_to_v5-IsStep version_key c4 d version-IsApart) h to5

  from3 :
      (has_version (pos 3) c3 || has_version (pos 4) c3) ≡ true
      → get version_key c5 ≡ some (num (pos 5))
  from3 h = elim (Bool-cases (has_version (pos 3) c3)) [
    | inl three ↦ from4 (
        has_version-4 c4 (
          versioned migrate_v3_to_v4 (pos 4) c3 c4 (has_version (pos 3) c3)
            (λ d. migrate_v3_to_v4-IsStep version_key c3 d version-IsApart) three to4))
    | inr other ↦
        let same = step_if-skipped (has_version (pos 3) c3) migrate_v3_to_v4 c3 c4 other to4 in
        let four : has_version (pos 4) c3 ≡ true = ground arith in
        from4 (subst (λ c. has_version (pos 4) c ≡ true) same four)
  ]

  from2 :
      (has_version (pos 2) c2 || (has_version (pos 3) c2 || has_version (pos 4) c2)) ≡ true
      → get version_key c5 ≡ some (num (pos 5))
  from2 h = elim (Bool-cases (has_version (pos 2) c2)) [
    | inl two ↦
        let three = has_version-3 c3 (
          versioned migrate_v2_to_v3 (pos 3) c2 c3 (has_version (pos 2) c2)
            (λ d. migrate_v2_to_v3-IsStep version_key c2 d version-IsApart) two to3) in
        from3 (ground arith)
    | inr other ↦
        let same = step_if-skipped (has_version (pos 2) c2) migrate_v2_to_v3 c2 c3 other to3 in
        let later : (has_version (pos 3) c2 || has_version (pos 4) c2) ≡ true = ground arith in
        from3 (subst (λ c. (has_version (pos 3) c || has_version (pos 4) c) ≡ true) same later)
  ]

  from1 : is_old c1 ≡ true → get version_key c5 ≡ some (num (pos 5))
  from1 h = elim (Bool-cases (is_first c1)) [
    | inl first ↦
        let two = has_version-2 c2 (
          versioned migrate_v1_to_v2 (pos 2) c1 c2 (is_first c1)
            (λ d. migrate_v1_to_v2-IsStep version_key c1 d version-IsApart) first to2) in
        from2 (ground arith)
    | inr other ↦
        let same = step_if-skipped (is_first c1) migrate_v1_to_v2 c1 c2 other to2 in
        let later : (has_version (pos 2) c1 || (has_version (pos 3) c1 || has_version (pos 4) c1))
            ≡ true =
          ground arith in
        from2 (
          subst
            (λ c.
              (has_version (pos 2) c || (has_version (pos 3) c || has_version (pos 4) c)) ≡ true)
            same later)
  ]

not_old : (c : Members) → is_old c ≡ false → migrate_config c ≡ ok c
unfolding migrate_config
not_old c h =
    let first : is_first c ≡ false = ground arith in
    let two : has_version (pos 2) c ≡ false = ground arith in
    let three : has_version (pos 3) c ≡ false = ground arith in
    let four : has_version (pos 4) c ≡ false = ground arith in rw (first, two, three, four) refl

version_5 : (c : Members) → get version_key c ≡ some (num (pos 5)) → is_old c ≡ false
version_5 c e = ground arith

-- A migration that succeeds gives a configuration without a version, or with version 1, 2, 3 or 4,
-- version 5, and leaves any other configuration as it is.
pub migrate_config-version :
    (c c' : Members)
    → migrate_config c ≡ ok c'
    → ((is_old c ≡ true) × (get version_key c' ≡ some (num (pos 5))))
      ⊎ ((is_old c ≡ false) × (c ≡ c'))
migrate_config-version c c' e = elim (Bool-cases (is_old c)) [
  | inl old ↦ inl (old, from1 c c' (migrate_config-Stages c c' e) old)
  | inr new ↦ inr (new, ground (arith, not_old c new))
]

-- Migrating a migrated configuration changes nothing.
pub migrate_config_idem : (c c' : Members) → migrate_config c ≡ ok c' → migrate_config c' ≡ ok c'
migrate_config_idem c c' e = elim (migrate_config-version c c' e) [
  | inl (old, five) ↦ not_old c' (version_5 c' five)
  | inr (new, same) ↦ subst (λ x. migrate_config x ≡ ok x) same (not_old c new)
]
