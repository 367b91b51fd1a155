-- ===== src/Store/EnvSecrets/Kept.antt =====
-- One secret of migrateEnvSecrets of services/system/migrationService.js.
use azan_dashboard.Prelude.{
  String, true, ◌≡◌, ap, ◌∙◌, some, [], ◌∷◌, arith, eq_iff, Bool-cases, Option-cases, inl, inr,
  ◌&&◌, not,
}
use mathlib.Core.Path.{subst}
use azan_dashboard.Result.{ok, from_bind, ok-injective}
use azan_dashboard.Dict.{lookup}
use azan_dashboard.Json.{Value, str, obj, Members, end, get, member, truthy, truthy_option}
use azan_dashboard.Migration.{change_child, ensure}
use azan_dashboard.Registry.{Requirement}
use azan_dashboard.Store.{Environment, env_value, has_type}
use azan_dashboard.Store.Paths.{Has, Keeps, change_child-Keeps, ensure-Has}
use azan_dashboard.Store.Overrides.{param_path}
use azan_dashboard.Store.Overrides.Precedence.{SameParam, set_param-Keeps}
use azan_dashboard.Store.EnvSecrets.{
  Migrated, disabled_output, param, make_output, place_secret, migrate_source,
}

pub make_output-Keeps :
    (leaf : Value) (id : String) (q : Requirement) → Keeps (param_path q) leaf (make_output id)
unfolding make_output
make_output-Keeps leaf id q m m' e has =
    let key = q.key in
    let qid = q.strategy_id in
    let outputs = change_child-Keeps leaf "params" (key ∷ []) id qid _ (λ here o o' e h.
      subst (Has ("params" ∷ key ∷ []) leaf) (ok-injective e)
        (ensure-Has leaf key [] "params" "params" (obj end) o h)) in
    let automation =
      change_child-Keeps leaf qid ("params" ∷ key ∷ []) "outputs" "outputs" _ (λ here o o' e h.
        outputs (ensure id disabled_output o) o' e
          (ensure-Has leaf "params" (key ∷ []) id qid disabled_output o h)) in
    let rest = qid ∷ "params" ∷ key ∷ [] in
    change_child-Keeps leaf "outputs" rest "automation" "automation" _
      (λ here a a' e h.
        automation (ensure "outputs" (obj end) a) a' e
          (ensure-Has leaf qid ("params" ∷ key ∷ []) "outputs" "outputs" (obj end) a h))
      (ensure "automation" (obj end) m) m' e
      (ensure-Has leaf "outputs" rest "automation" "automation" (obj end) m has)

pub env_value-filled :
    (key v : String) (env : Environment) → env_value key env ≡ some v → truthy (str v) ≡ true
unfolding env_value
env_value-filled key v env e = elim (Option-cases (lookup key env)) [
  | inl missing ↦ absurd (ground arith)
  | inr (w, found) ↦ ground arith
]

pub place_secret-Keeps :
    (r q : Requirement) (name v : String) (leaf : Value) (m m' : Migrated) (made : Members)
    → truthy leaf ≡ true
    → place_secret r name v m made ≡ ok m'
    → Has (param_path q) leaf made
    → Has (param_path q) leaf m'.config
unfolding place_secret
place_secret-Keeps r q name v leaf m m' made filled e has =
    elim (Bool-cases (truthy_option (param r made))) [
      | inl there ↦
          let same : record m { config = made } ≡ m' =
            ok-injective (rw (there, place_secret) at e) in
          subst (λ (x : Migrated). Has (param_path q) leaf x.config) same has
      | inr missing ↦
          let (c, e1, e2) =
            from_bind (change_child "automation" _ made) _ m' (rw (missing, place_secret) at e) in
          let apart = λ (same : SameParam r q). absurd (
            let equal : param r made ≡ param q made =
              ap (λ (x : String). param (record { strategy_id = x; key = r.key }) made) same.0
              ∙ ap (λ (y : String). param (record { strategy_id = q.strategy_id; key = y }) made)
                  same.1 in
            let filled_there : truthy_option (param r made) ≡ true =
              ap truthy_option (equal ∙ has) ∙ filled in
            ground arith) in
          let kept =
            change_child-Keeps leaf "outputs" (q.strategy_id ∷ "params" ∷ q.key ∷ []) "automation"
              "automation" _ (λ here. set_param-Keeps disabled_output leaf r q v apart) made c e1
              has in
          subst (λ (x : Migrated). Has (param_path q) leaf x.config) (ok-injective e2) kept
    ]

-- Whatever filled secret was there still is.
abbrev pub KeepsStored : Migrated → Migrated → Type 0
KeepsStored m m' =
    (q : Requirement) (leaf : Value)
    → truthy leaf ≡ true
    → Has (param_path q) leaf m.config
    → Has (param_path q) leaf m'.config

pub migrate_source-Keeps :
    (id key v role : String) (m m' : Migrated)
    → migrate_source id key v role m ≡ ok m'
    → KeepsStored m m'
unfolding migrate_source
migrate_source-Keeps id key v role m m' e q leaf filled has =
    let source = member role (get "sources" m.config) in
    elim (Bool-cases (has_type id source && not (truthy_option (member key source)))) [
      | inr other ↦
          subst (λ (x : Migrated). Has (param_path q) leaf x.config)
            (ok-injective (rw (other, migrate_source) at e)) has
      | inl own ↦
          let (c, e1, e2) =
            from_bind (change_child "sources" _ m.config) _ m' (rw (own, migrate_source) at e) in
          subst (λ (x : Migrated). Has (param_path q) leaf x.config) (ok-injective e2)
            (change_child-Keeps leaf "outputs" (q.strategy_id ∷ "params" ∷ q.key ∷ []) "sources"
              "automation" _ (λ here. absurd (ground (arith, eq_iff "sources" "automation")))
              m.config c e1 has)
    ]
