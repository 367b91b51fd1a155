-- ===== src/Store/EnvSecrets/Placed.antt =====
-- One secret of migrateEnvSecrets of services/system/migrationService.js: what becomes of its value,
-- and that the other secrets are left alone.
use azan_dashboard.Prelude.{
  String, true, false, ◌&&◌, ◌≡◌, refl, ap, sym, ◌∙◌, Option, some, [], ◌∷◌, arith, eq_iff, str_eq,
  if◌then◌else◌, Bool-cases, inl, inr,
}
use mathlib.Core.Path.{subst}
use azan_dashboard.Result.{ok, from_bind, ok-injective}
use azan_dashboard.Json.{Value, str, obj, Members, end, get, put, truthy_option}
use azan_dashboard.Json.Merge.{at_path}
use azan_dashboard.Migration.{change_child, ensure}
use azan_dashboard.Registry.{Requirement}
use azan_dashboard.Store.Paths.{change_child-Sets}
use azan_dashboard.Store.Paths.Frames.{Frames, change_child-Frames, ensure-Frames, put-Frames}
use azan_dashboard.Store.Overrides.{param_path, set_param}
use azan_dashboard.Store.Overrides.Precedence.{below, set_param-Sets}
use azan_dashboard.Store.EnvSecrets.{Migrated, disabled_output, param, make_output, place_secret}

pub make_output-Frames : (id : String) (q : Requirement) → Frames (param_path q) (make_output id)
unfolding make_output get
make_output-Frames id q m m' e =
    let key = q.key in
    let qid = q.strategy_id in
    let outputs =
      change_child-Frames "params" (key ∷ []) id qid (λ o. ok (ensure "params" (obj end) o))
        (λ here o o' e.
          ap (λ (x : Members). at_path ("params" ∷ key ∷ []) (some (obj x))) (sym (ok-injective e))
          ∙ ensure-Frames key [] "params" "params" (obj end) o refl) in
    let automation =
      change_child-Frames qid ("params" ∷ key ∷ []) "outputs" "outputs" _ (λ here o o' e.
        outputs (ensure id disabled_output o) o' e
        ∙ ensure-Frames "params" (key ∷ []) id qid disabled_output o refl) in
    let rest = qid ∷ "params" ∷ key ∷ [] in
    change_child-Frames "outputs" rest "automation" "automation" _
      (λ here a a' e.
        automation (ensure "outputs" (obj end) a) a' e
        ∙ ensure-Frames qid ("params" ∷ key ∷ []) "outputs" "outputs" (obj end) a refl)
      (ensure "automation" (obj end) m) m' e
    ∙ ensure-Frames "outputs" rest "automation" "automation" (obj end) m refl

-- Another parameter, or one of another output
abbrev pub IsApart : Requirement → Requirement → Type 0
IsApart r q = (str_eq r.strategy_id q.strategy_id && str_eq r.key q.key) ≡ false

set_param-Frames :
    (r q : Requirement) (v : String)
    → IsApart r q
    → Frames (below q) (set_param disabled_output r.strategy_id r.key v)
unfolding set_param get
set_param-Frames r q v apart m m' e =
    let key = q.key in
    let id = q.strategy_id in
    let other = λ (same : r.strategy_id ≡ id).
      let own : str_eq r.strategy_id id ≡ true = ground (arith, eq_iff r.strategy_id id) in
      let k : str_eq r.key key ≡ false = rw own at apart in put-Frames (str v) r.key key k in
    let params = λ (same : r.strategy_id ≡ id).
      change_child-Frames key [] "params" "params" (λ p. ok (put r.key (str v) p))
        (λ here. other same) in
    let outputs = change_child-Frames "params" (key ∷ []) r.strategy_id id _ (λ same o o' e.
      params same (ensure "params" (obj end) o) o' e
      ∙ ensure-Frames key [] "params" "params" (obj end) o refl) in
    let automation =
      change_child-Frames id ("params" ∷ key ∷ []) "outputs" "outputs" _ (λ here o o' e.
        outputs (ensure r.strategy_id disabled_output o) o' e
        ∙ ensure-Frames "params" (key ∷ []) r.strategy_id id disabled_output o refl) in
    automation (ensure "outputs" (obj end) m) m' e
    ∙ ensure-Frames id ("params" ∷ key ∷ []) "outputs" "outputs" (obj end) m refl

pub place_secret-Frames :
    (r q : Requirement) (name v : String) (m m' : Migrated) (made : Members)
    → IsApart r q
    → place_secret r name v m made ≡ ok m'
    → param q m'.config ≡ param q made
unfolding place_secret
place_secret-Frames r q name v m m' made apart e =
    elim (Bool-cases (truthy_option (param r made))) [
      | inl there ↦
          ap (λ (x : Migrated). param q x.config)
            (sym (ok-injective (rw (there, place_secret) at e)))
      | inr missing ↦
          let (c, e1, e2) =
            from_bind (change_child "automation" _ made) _ m' (rw (missing, place_secret) at e) in
          ap (λ (x : Migrated). param q x.config) (sym (ok-injective e2))
          ∙ change_child-Frames "outputs" (q.strategy_id ∷ "params" ∷ q.key ∷ []) "automation"
              "automation" _ (λ here. set_param-Frames r q v apart) made c e1
    ]

-- What becomes of a secret that the environment sets: the value that is there, if it is not falsy,
-- or else the environment's
abbrev pub target : Option Value → String → Option Value
target now v = if truthy_option now then now else some (str v)

pub place_secret-target :
    (r : Requirement) (name v : String) (m m' : Migrated) (made : Members)
    → place_secret r name v m made ≡ ok m'
    → param r m'.config ≡ target (param r made) v
unfolding place_secret
place_secret-target r name v m m' made e = elim (Bool-cases (truthy_option (param r made))) [
  | inl there ↦
      let same : record m { config = made } ≡ m' = ok-injective (rw (there, place_secret) at e) in
      subst (λ (x : Migrated). param r x.config ≡ target (param r made) v) same (rw there refl)
  | inr missing ↦
      let (c, e1, e2) =
        from_bind (change_child "automation" _ made) _ m' (rw (missing, place_secret) at e) in
      let set =
        change_child-Sets (str v) "outputs" (r.strategy_id ∷ "params" ∷ r.key ∷ []) "automation" _
          (set_param-Sets disabled_output r v) made c e1 in
      subst (λ (x : Migrated). param r x.config ≡ target (param r made) v) (ok-injective e2)
        (rw missing set)
]
