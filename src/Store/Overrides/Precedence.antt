-- ===== src/Store/Overrides/Precedence.antt =====
-- Which value of an output's secret wins: _applyEnvOverrides of config/ConfigService.js.
use azan_dashboard.Prelude.{
  String, true, ◌≡◌, refl, ap, sym, ◌∙◌, Option, none, some, List, [], ◌∷◌, All, arith, eq_iff,
  Bool-cases, Option-cases, inl, inr,
}
use mathlib.Core.Path.{subst}
use mathlib.Core.Option.{some-injective}
use azan_dashboard.Text.{upper}
use azan_dashboard.Result.{Result, ok, from_bind, ok-injective, Result-cases}
use azan_dashboard.Json.{Value, str, obj, Members, end, get, put, member, truthy_option}
use azan_dashboard.Migration.{ensure}
use azan_dashboard.Registry.{
  Metadata, sensitive_keys, Strategies, Requirement, get_secret_requirement_keys,
}
use azan_dashboard.Store.{Environment, Setup, roles, env_value, env_key, wired, each, has_type}
use azan_dashboard.Store.Paths.{
  Has, Keeps, Sets, change_child-Sets, change_child-Keeps, ensure-Has, put-Keeps, put-Sets,
}
use azan_dashboard.Store.Overrides.{
  assign, set_param, new_output, override_output, override_source, override_sources,
  override_provider, apply_env_overrides, param_path,
}

-- The path of a secret below `automation`
abbrev pub below : Requirement → List String
below r = "outputs" ∷ r.strategy_id ∷ "params" ∷ r.key ∷ []

pub set_param-Sets :
    (made : Value) (r : Requirement) (v : String)
    → Sets (below r) (str v) (set_param made r.strategy_id r.key v)
unfolding set_param
set_param-Sets made r v m m' e =
    let key = r.key in
    let id = r.strategy_id in
    let leaf = str v in
    let params =
      change_child-Sets leaf key [] "params" (λ p. ok (put key (str v) p)) (put-Sets leaf key) in
    let output =
      change_child-Sets leaf "params" (key ∷ []) id _
        (λ o o' e. params (ensure "params" (obj end) o) o' e) in
    let outputs =
      change_child-Sets leaf id ("params" ∷ key ∷ []) "outputs" _
        (λ o o' e. output (ensure id made o) o' e) in
    outputs (ensure "outputs" (obj end) m) m' e

-- The same parameter of the same output
abbrev pub SameParam : Requirement → Requirement → Type 0
SameParam r q = (r.strategy_id ≡ q.strategy_id) × (r.key ≡ q.key)

pub set_param-Keeps :
    (made leaf : Value) (r q : Requirement) (v : String)
    → (SameParam r q → str v ≡ leaf)
    → Keeps (below q) leaf (set_param made r.strategy_id r.key v)
unfolding set_param
set_param-Keeps made leaf r q v own m m' e has =
    let key = q.key in
    let id = q.strategy_id in
    let params = λ (same : r.strategy_id ≡ id).
      change_child-Keeps leaf key [] "params" "params" (λ p. ok (put r.key (str v) p))
        (λ here. put-Keeps leaf (str v) r.key key (λ k. own (same, k))) in
    let outputs = change_child-Keeps leaf "params" (key ∷ []) r.strategy_id id _ (λ same o o' e h.
      params same (ensure "params" (obj end) o) o' e
        (ensure-Has leaf key [] "params" "params" (obj end) o h)) in
    let automation =
      change_child-Keeps leaf id ("params" ∷ key ∷ []) "outputs" "outputs" _ (λ here o o' e h.
        outputs (ensure r.strategy_id made o) o' e
          (ensure-Has leaf "params" (key ∷ []) r.strategy_id id made o h)) in
    automation (ensure "outputs" (obj end) m) m' e
      (ensure-Has leaf id ("params" ∷ key ∷ []) "outputs" "outputs" (obj end) m has)

-- The value that the environment sets for a secret
abbrev pub set_for : Environment → Requirement → Option String
set_for env r = env_value (env_key r.strategy_id r.key) env

pub each-Keeps {ℓ} :
    {A : Type ℓ} (path : List String) (leaf : Value) (act : A → Members → Result Members)
    (xs : List A)
    → ((x : A) → Keeps path leaf (act x))
    → Keeps path leaf (each act xs)
each-Keeps path leaf act [] keeps c c' e has = subst (Has path leaf) (ground arith) has
each-Keeps path leaf act (x ∷ xs) keeps c c' e has = elim (Result-cases (act x c)) [
  | inr (t, thrown) ↦ absurd (ground arith)
  | inl (c1, first) ↦
      each-Keeps path leaf act xs keeps c1 c' (ground arith) (keeps x c c1 first has)
]

module _ (env : Environment) where
  override_output-Sets :
      (r : Requirement) (v : String)
      → set_for env r ≡ some v
      → Sets (param_path r) (str v) (override_output env r)
  unfolding override_output
  override_output-Sets r v e c c' done =
      let id = r.strategy_id in
      change_child-Sets (str v) "outputs" (id ∷ "params" ∷ r.key ∷ []) "automation" _
        (set_param-Sets new_output r v) c c' (rw (e, override_output) at done)

  override_output-Keeps :
      (r q : Requirement) (v : String)
      → set_for env q ≡ some v
      → Keeps (param_path q) (str v) (override_output env r)
  unfolding override_output
  override_output-Keeps r q v e c c' done has = elim (Option-cases (set_for env r)) [
    | inl unset ↦
        let same : c ≡ c' = ok-injective (rw (unset, override_output) at done) in
        subst (Has (param_path q) (str v)) same has
    | inr (w, found) ↦
        let agree = λ (same : SameParam r q). ap str (
          some-injective _ _ (
            sym found
            ∙ ap (λ (x : String). env_value (env_key x r.key) env) same.0
            ∙ ap (λ (y : String). env_value (env_key q.strategy_id y) env) same.1
            ∙ e)) in
        change_child-Keeps (str v) "outputs" (q.strategy_id ∷ "params" ∷ q.key ∷ []) "automation"
          "automation" _ (λ here. set_param-Keeps new_output (str v) r q w agree) c c'
          (rw (found, override_output) at done) has
  ]

  -- A secret that the environment sets has that value.
  abbrev pub HasValue : Members → Requirement → Option String → Type 0
  HasValue c r none = Unit
  HasValue c r (some v) = Has (param_path r) (str v) c

  abbrev pub AreSet : List Requirement → Members → Type 0
  AreSet rs c = All (λ (r : Requirement). HasValue c r (set_for env r)) rs

  -- A change that keeps every secret in place
  abbrev KeepsSecrets : (Members → Result Members) → Type 0
  KeepsSecrets change =
      (q : Requirement) (v : String) → set_for env q ≡ some v → Keeps (param_path q) (str v) change

  HasValue-kept :
      (q : Requirement) (change : Members → Result Members) (c c' : Members)
      → KeepsSecrets change
      → change c ≡ ok c'
      → HasValue c q (set_for env q)
      → HasValue c' q (set_for env q)
  HasValue-kept q change c c' keeps e has = go (set_for env q) refl has
    where
      go : (o : Option String) → set_for env q ≡ o → HasValue c q o → HasValue c' q o
      go none found h = tt
      go (some v) found h = keeps q v found c c' e h

  override_output-HasValue :
      (r : Requirement) (c c' : Members)
      → override_output env r c ≡ ok c'
      → HasValue c' r (set_for env r)
  override_output-HasValue r c c' e = go (set_for env r) refl
    where
      go : (o : Option String) → set_for env r ≡ o → HasValue c' r o
      go none found = tt
      go (some v) found = override_output-Sets r v found c c' e

  each-AreSet :
      (rs : List Requirement) (c c' : Members)
      → each (override_output env) rs c ≡ ok c'
      → AreSet rs c'
  each-AreSet [] c c' e = tt
  each-AreSet (r ∷ rs) c c' e = elim (Result-cases (override_output env r c)) [
    | inr (t, thrown) ↦ absurd (ground arith)
    | inl (c1, first) ↦
        let rest : each (override_output env) rs c1 ≡ ok c' = ground arith in
        let keeps = λ (q : Requirement) (v : String) (set : set_for env q ≡ some v).
          each-Keeps (param_path q) (str v) (override_output env) rs
            (λ x. override_output-Keeps x q v set) in
        (
          HasValue-kept r (each (override_output env) rs) c1 c' keeps rest
              (override_output-HasValue r c c1 first),
          each-AreSet rs c1 c' rest,
        )
  ]

  AreSet-kept :
      (rs : List Requirement) (change : Members → Result Members) (c c' : Members)
      → KeepsSecrets change
      → change c ≡ ok c'
      → AreSet rs c
      → AreSet rs c'
  AreSet-kept [] change c c' keeps e h = tt
  AreSet-kept (r ∷ rs) change c c' keeps e (h, hs) =
      (HasValue-kept r change c c' keeps e h, AreSet-kept rs change c c' keeps e hs)

  -- The secrets of the sources stand elsewhere.
  override_source-Keeps :
      (q : Requirement) (leaf : Value) (id key v role : String)
      → Keeps (param_path q) leaf (override_source id key v role)
  unfolding override_source
  override_source-Keeps q leaf id key v role c c' e has =
      elim (Bool-cases (has_type id (member role (get "sources" c)))) [
        | inr other ↦
            let same : c ≡ c' = ok-injective (rw (other, override_source) at e) in
            subst (Has (param_path q) leaf) same has
        | inl own ↦
            change_child-Keeps leaf "outputs" (q.strategy_id ∷ "params" ∷ q.key ∷ []) "sources"
              "automation" _ (λ here. absurd (ground (arith, eq_iff "sources" "automation"))) c c'
              (rw (own, override_source) at e) has
      ]

  override_provider-Keeps :
      (q : Requirement) (leaf : Value) (p : String × Metadata)
      → Keeps (param_path q) leaf (override_provider env p)
  override_provider-Keeps q leaf (t, p) =
      each-Keeps (param_path q) leaf (override_sources env p) (sensitive_keys p.params) one
    where
      one : (key : String) → Keeps (param_path q) leaf (override_sources env p key)
      one key c c' e has = elim (Option-cases (env_value (upper key) env)) [
        | inl unset ↦
            let same : c ≡ c' = ok-injective (rw (unset, override_sources) at e) in
            subst (Has (param_path q) leaf) same has
        | inr (v, found) ↦
            each-Keeps (param_path q) leaf (override_source p.id key v) roles
              (override_source-Keeps q leaf p.id key v) c c' (rw (found, override_sources) at e) has
      ]

-- In a configuration that has an `automation`, a truthy value, every secret of an output that the
-- environment sets has the value of the environment after the overrides, whatever the configuration
-- says of that output, and the objects on the way to it below `automation` were made where they were
-- missing.
pub apply_env_overrides-AreSet :
    (st : Setup) (env : Environment) (strategies : Strategies) (config c : Members)
    → st.strategies ≡ some strategies
    → truthy_option (get "automation" config) ≡ true
    → apply_env_overrides st env config ≡ ok c
    → AreSet env (get_secret_requirement_keys strategies) c
unfolding apply_env_overrides wired
apply_env_overrides-AreSet st env strategies config c known filled e =
    let (c1, _, e1) =
      from_bind (assign "automation" "baseUrl" (env_value "BASE_URL" env) config) _ c
        (rw (filled, apply_env_overrides) at e) in
    let (c2, _, e2) =
      from_bind (assign "automation" "pythonServiceUrl" (env_value "PYTHON_SERVICE_URL" env) c1) _ c
        e1 in
    let (found, e3, e4) = from_bind (wired st) _ c e2 in
    let same : found ≡ strategies = ground arith in
    let rs = get_secret_requirement_keys found in
    let (c3, e5, e6) = from_bind (each (override_output env) rs c2) _ c e4 in
    subst (λ (s : Strategies). AreSet env (get_secret_requirement_keys s) c) same
      (AreSet-kept env rs (each (override_provider env) st.providers) c3 c
        (λ q v set.
          each-Keeps (param_path q) (str v) (override_provider env) st.providers
            (override_provider-Keeps env q (str v)))
        e6 (each-AreSet env rs c2 c3 e5))
