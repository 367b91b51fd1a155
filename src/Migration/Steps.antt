-- ===== src/Migration/Steps.antt =====
-- services/system/migrationService.js: the keys that each version step touches.
use azan_dashboard.Prelude.{
  String, ◌≡◌, ◌∙◌, false, ◌&&◌, some, arith, ℤ, pos, str_eq, if◌then◌else◌, Bool-cases, inl, inr,
}
use azan_dashboard.Result.{Result, ok, Result-cases}
use azan_dashboard.Json.{num, obj, Members, end, get, put, truthy_option, member, field}
use azan_dashboard.Json.Fields.{get-put, get-erase}
use azan_dashboard.Migration.{
  change_value, change_child, ensure, version_key, migrate_v1_to_v2, sources_moved,
  migrate_v2_to_v3, migrate_v3_to_v4, migrate_v4_to_v5, health_checks, move_calculation,
}

-- A key that no step moves: none of the five that have a part in a step, `version` aside
pub record IsApart (other : String) : Type 0 where
  pub automation : str_eq "automation" other ≡ false
  pub sources : str_eq "sources" other ≡ false
  pub calculation : str_eq "calculation" other ≡ false
  pub system : str_eq "system" other ≡ false
  pub security : str_eq "security" other ≡ false

get-change_child :
    (key other : String) (change : Members → Result Members) (m m' : Members)
    → str_eq key other ≡ false
    → change_child key change m ≡ ok m'
    → get other m' ≡ get other m
unfolding change_child
get-change_child key other change m m' apart e =
    elim (Result-cases (change_value change (get key m))) [
      | inr (x, failed) ↦ absurd (ground arith)
      | inl (v, changed) ↦ ground (arith, get-put key other v m)
    ]

-- The version is set, and a key apart is left alone.
abbrev pub IsStep : ℤ → String → Members → Members → Type 0
IsStep n other c c' =
    get other c' ≡ (if str_eq version_key other then some (num n) else get other c)

pub migrate_v1_to_v2-IsStep :
    (other : String) (c c' : Members)
    → IsApart other
    → migrate_v1_to_v2 c ≡ ok c'
    → IsStep (pos 2) other c c'
unfolding migrate_v1_to_v2
migrate_v1_to_v2-IsStep other c c' apart e =
    let v2 = put version_key (num (pos 2)) c in
    let h = apart.automation in
    get-change_child "automation" other _ (ensure "automation" (obj end) v2) c' h e
    ∙ ground
        (arith, get-put "automation" other (obj end) v2, get-put version_key other (num (pos 2)) c)

get-sources_moved :
    (other : String) (c c' : Members)
    → IsApart other
    → sources_moved c ≡ ok c'
    → get other c' ≡ get other c
get-sources_moved other c c' apart e =
    let h = apart.sources in
    let change =
      change_child "primary" (λ (p : Members). ok (move_calculation (get "calculation" c) p)) in
    ground (arith, get-change_child "sources" other change c c' h)

pub migrate_v2_to_v3-IsStep :
    (other : String) (c c' : Members)
    → IsApart other
    → migrate_v2_to_v3 c ≡ ok c'
    → IsStep (pos 3) other c c'
unfolding migrate_v2_to_v3
migrate_v2_to_v3-IsStep other c c' apart e =
    let v3 = put version_key (num (pos 3)) c in
    let h = apart.calculation in
    let versioned = get-put version_key other (num (pos 3)) c in
    elim (Bool-cases (
      truthy_option (get "calculation" v3)
      && (truthy_option (get "sources" v3)
          && truthy_option (member "primary" (get "sources" v3))))) [
            | inr nothing ↦ ground (arith, versioned)
            | inl global ↦ elim (Result-cases (sources_moved v3)) [
              | inr (x, failed) ↦ absurd (ground arith)
              | inl (moved, done) ↦ ground (
                arith,
                versioned,
                get-erase "calculation" other moved,
                get-sources_moved other v3 moved apart done,
              )
            ]
          ]

pub migrate_v3_to_v4-IsStep :
    (other : String) (c c' : Members)
    → IsApart other
    → migrate_v3_to_v4 c ≡ ok c'
    → IsStep (pos 4) other c c'
unfolding migrate_v3_to_v4
migrate_v3_to_v4-IsStep other c c' apart e =
    let v4 = put version_key (num (pos 4)) c in
    let h = apart.system in
    let change = λ (s : Members). ok (put "healthChecks" health_checks s) in
    ground (
      arith,
      get-put version_key other (num (pos 4)) c,
      get-put "system" other (obj (field "healthChecks" health_checks end)) v4,
      get-change_child "system" other change v4 c' h,
    )

pub migrate_v4_to_v5-IsStep :
    (other : String) (c c' : Members)
    → IsApart other
    → migrate_v4_to_v5 c ≡ ok c'
    → IsStep (pos 5) other c c'
unfolding migrate_v4_to_v5
migrate_v4_to_v5-IsStep other c c' apart e =
    let v5 = put version_key (num (pos 5)) c in
    let h = apart.security in
    let change = λ (s : Members). ok (put "tokenVersion" (num (pos 1)) s) in
    ground (
      arith,
      get-put version_key other (num (pos 5)) c,
      get-put "security" other (obj (field "tokenVersion" (num (pos 1)) end)) v5,
      get-change_child "security" other change v5 c' h,
    )
