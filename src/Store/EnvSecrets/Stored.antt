-- ===== src/Store/EnvSecrets/Stored.antt =====
-- Where migrateEnvSecrets of services/system/migrationService.js leaves the secrets of the outputs.
use azan_dashboard.Prelude.{
  String, true, false, ◌&&◌, ◌≡◌, refl, ap, sym, ◌∙◌, Option, none, some, List, [], ◌∷◌, All, arith,
  str_eq, eq_iff, Bool-cases, Option-cases, inl, inr,
}
use mathlib.Core.Path.{subst}
use azan_dashboard.Text.{upper}
use azan_dashboard.Result.{ok, from_bind, ok-injective, Result-cases}
use azan_dashboard.Json.{Value, str, Members, truthy, truthy_option}
use azan_dashboard.Registry.{
  sensitive_keys, Providers, Strategies, Requirement, get_secret_requirement_keys,
}
use azan_dashboard.Store.{Environment, Setup, env_value, env_key, wired}
use azan_dashboard.Store.Paths.{Has}
use azan_dashboard.Store.Overrides.{param_path}
use azan_dashboard.Store.Overrides.Precedence.{set_for}
use azan_dashboard.Store.EnvSecrets.{
  Migrated, param, make_output, migrate_output, migrate_outputs, migrate_source, migrate_key,
  migrate_keys, migrate_providers, migrate_env_secrets,
}
use azan_dashboard.Store.EnvSecrets.Kept.{
  make_output-Keeps, env_value-filled, place_secret-Keeps, KeepsStored, migrate_source-Keeps,
}
use azan_dashboard.Store.EnvSecrets.Placed.{
  make_output-Frames, IsApart, place_secret-Frames, target, place_secret-target,
}

module _ (env : Environment) where
  migrate_output-Keeps :
      (r : Requirement) (m m' : Migrated) → migrate_output env r m ≡ ok m' → KeepsStored m m'
  unfolding migrate_output
  migrate_output-Keeps r m m' e q leaf filled has = elim (Option-cases (set_for env r)) [
    | inl unset ↦
        subst (λ (x : Migrated). Has (param_path q) leaf x.config)
          (ok-injective (rw (unset, migrate_output) at e)) has
    | inr (v, set) ↦
        let (made, e1, e2) =
          from_bind (make_output r.strategy_id m.config) _ m' (rw (set, migrate_output) at e) in
        place_secret-Keeps r q (env_key r.strategy_id r.key) v leaf m m' made filled e2
          (make_output-Keeps leaf r.strategy_id q m.config made e1 has)
  ]

  -- A secret that the environment sets has the value it had, if that is not falsy, or else the
  -- environment's.
  abbrev pub StoredIf : Members → Members → Requirement → Option String → Type 0
  StoredIf c0 c r none = Unit
  StoredIf c0 c r (some v) = param r c ≡ target (param r c0) v

  abbrev pub AreStored : List Requirement → Members → Members → Type 0
  AreStored rs c0 c = All (λ (r : Requirement). StoredIf c0 c r (set_for env r)) rs

  module _ (v : String) (full : truthy (str v) ≡ true) where
    target-truthy : (now : Option Value) → truthy_option (target now v) ≡ true
    target-truthy now = elim (Bool-cases (truthy_option now)) [
      | inl there ↦ rw there there
      | inr falsy ↦ rw falsy full
    ]

    target-filled : (now : Option Value) → truthy_option now ≡ true → target now v ≡ now
    target-filled now there = rw there refl

    -- A secret that has its value keeps it.
    target-kept :
        (r : Requirement) (now : Option Value) (m m' : Migrated)
        → KeepsStored m m'
        → param r m.config ≡ target now v
        → param r m'.config ≡ target now v
    target-kept r now m m' keeps h = elim (Option-cases (target now v)) [
      | inl none_there ↦
          let e : truthy_option none ≡ true =
            ap truthy_option (sym none_there) ∙ target-truthy now in
          absurd (ground (arith, e))
      | inr (leaf, found) ↦
          let filled : truthy leaf ≡ true = ap truthy_option (sym found) ∙ target-truthy now in
          keeps r leaf filled (h ∙ found) ∙ sym found
    ]

  StoredIf-kept :
      (c0 : Members) (r : Requirement) (m m' : Migrated)
      → KeepsStored m m'
      → StoredIf c0 m.config r (set_for env r)
      → StoredIf c0 m'.config r (set_for env r)
  StoredIf-kept c0 r m m' keeps = go (set_for env r) refl
    where
      go :
          (o : Option String)
          → set_for env r ≡ o
          → StoredIf c0 m.config r o
          → StoredIf c0 m'.config r o
      go none unset h = tt
      go (some v) set h =
          target-kept v (env_value-filled (env_key r.strategy_id r.key) v env set) r (param r c0) m
            m' keeps h

  AreStored-kept :
      (c0 : Members) (rs : List Requirement) (m m' : Migrated)
      → KeepsStored m m'
      → AreStored rs c0 m.config
      → AreStored rs c0 m'.config
  AreStored-kept c0 [] m m' keeps h = tt
  AreStored-kept c0 (r ∷ rs) m m' keeps (h, hs) =
      (StoredIf-kept c0 r m m' keeps h, AreStored-kept c0 rs m m' keeps hs)

  -- The turn of the secret itself
  migrate_output-target :
      (r : Requirement) (v : String) (m m' : Migrated)
      → set_for env r ≡ some v
      → migrate_output env r m ≡ ok m'
      → param r m'.config ≡ target (param r m.config) v
  unfolding migrate_output
  migrate_output-target r v m m' set e =
      let name = env_key r.strategy_id r.key in
      let (made, e1, e2) =
        from_bind (make_output r.strategy_id m.config) _ m' (rw (set, migrate_output) at e) in
      place_secret-target r name v m m' made e2
      ∙ ap (λ (now : Option Value). target now v)
          (make_output-Frames r.strategy_id r m.config made e1)

  -- The turn of another secret
  migrate_output-apart :
      (q r : Requirement) (m m' : Migrated)
      → IsApart q r
      → migrate_output env q m ≡ ok m'
      → param r m'.config ≡ param r m.config
  unfolding migrate_output
  migrate_output-apart q r m m' apart e = elim (Option-cases (set_for env q)) [
    | inl unset ↦
        ap (λ (x : Migrated). param r x.config)
          (sym (ok-injective (rw (unset, migrate_output) at e)))
    | inr (w, set) ↦
        let (made, e1, e2) =
          from_bind (make_output q.strategy_id m.config) _ m' (rw (set, migrate_output) at e) in
        place_secret-Frames q r (env_key q.strategy_id q.key) w m m' made apart e2
        ∙ make_output-Frames q.strategy_id r m.config made e1
  ]

  -- No turn changes what is to become of a secret.
  migrate_output-same_target :
      (q r : Requirement) (v : String) (m m' : Migrated)
      → set_for env r ≡ some v
      → migrate_output env q m ≡ ok m'
      → target (param r m'.config) v ≡ target (param r m.config) v
  migrate_output-same_target q r v m m' set e =
      elim (Bool-cases (str_eq q.strategy_id r.strategy_id && str_eq q.key r.key)) [
        | inr apart ↦
            ap (λ (now : Option Value). target now v) (migrate_output-apart q r m m' apart e)
        | inl own ↦
            let id : q.strategy_id ≡ r.strategy_id =
              ground (arith, eq_iff q.strategy_id r.strategy_id) in
            let key : q.key ≡ r.key = ground (arith, eq_iff q.key r.key) in
            let same : q ≡ r =
              ap (λ (x : String). record { strategy_id = x; key = q.key }) id
              ∙ ap (λ (y : String). record { strategy_id = r.strategy_id; key = y }) key in
            let turn =
              migrate_output-target r v m m' set
                (subst (λ (x : Requirement). migrate_output env x m ≡ ok m') same e) in
            ap (λ (now : Option Value). target now v) turn
            ∙ target-filled v full (target (param r m.config) v)
                (target-truthy v full (param r m.config))
      ]
    where
      full : truthy (str v) ≡ true
      full = env_value-filled (env_key r.strategy_id r.key) v env set

  StoredIf-from :
      (q r : Requirement) (m m' : Migrated) (c : Members)
      → migrate_output env q m ≡ ok m'
      → StoredIf m'.config c r (set_for env r)
      → StoredIf m.config c r (set_for env r)
  StoredIf-from q r m m' c e = go (set_for env r) refl
    where
      go :
          (o : Option String)
          → set_for env r ≡ o
          → StoredIf m'.config c r o
          → StoredIf m.config c r o
      go none unset h = tt
      go (some v) set h = h ∙ migrate_output-same_target q r v m m' set e

  AreStored-from :
      (q : Requirement) (rs : List Requirement) (m m' : Migrated) (c : Members)
      → migrate_output env q m ≡ ok m'
      → AreStored rs m'.config c
      → AreStored rs m.config c
  AreStored-from q [] m m' c e h = tt
  AreStored-from q (r ∷ rs) m m' c e (h, hs) =
      (StoredIf-from q r m m' c e h, AreStored-from q rs m m' c e hs)

  migrate_output-StoredIf :
      (r : Requirement) (m m' : Migrated)
      → migrate_output env r m ≡ ok m'
      → StoredIf m.config m'.config r (set_for env r)
  migrate_output-StoredIf r m m' e = go (set_for env r) refl
    where
      go : (o : Option String) → set_for env r ≡ o → StoredIf m.config m'.config r o
      go none unset = tt
      go (some v) set = migrate_output-target r v m m' set e

  migrate_outputs-Keeps :
      (rs : List Requirement) (m m' : Migrated)
      → migrate_outputs env rs m ≡ ok m'
      → KeepsStored m m'
  unfolding migrate_outputs
  migrate_outputs-Keeps [] m m' e q leaf filled has =
      subst (λ (x : Migrated). Has (param_path q) leaf x.config) (ok-injective e) has
  migrate_outputs-Keeps (r ∷ rs) m m' e q leaf filled has =
      elim (Result-cases (migrate_output env r m)) [
        | inr (t, thrown) ↦ absurd (ground arith)
        | inl (m1, first) ↦
            migrate_outputs-Keeps rs m1 m' (ground arith) q leaf filled
              (migrate_output-Keeps r m m1 first q leaf filled has)
      ]

  migrate_outputs-AreStored :
      (rs : List Requirement) (m m' : Migrated)
      → migrate_outputs env rs m ≡ ok m'
      → AreStored rs m.config m'.config
  unfolding migrate_outputs
  migrate_outputs-AreStored [] m m' e = tt
  migrate_outputs-AreStored (r ∷ rs) m m' e = elim (Result-cases (migrate_output env r m)) [
    | inr (t, thrown) ↦ absurd (ground arith)
    | inl (m1, first) ↦
        let rest : migrate_outputs env rs m1 ≡ ok m' = ground arith in
        (
          StoredIf-kept m.config r m1 m' (migrate_outputs-Keeps rs m1 m' rest)
              (migrate_output-StoredIf r m m1 first),
          AreStored-from r rs m m1 m'.config first (migrate_outputs-AreStored rs m1 m' rest),
        )
  ]

  migrate_key-Keeps :
      (id key : String) (m m' : Migrated) → migrate_key env id key m ≡ ok m' → KeepsStored m m'
  migrate_key-Keeps id key m m' e q leaf filled has =
      elim (Option-cases (env_value (upper key) env)) [
        | inl unset ↦
            subst (λ (x : Migrated). Has (param_path q) leaf x.config)
              (ok-injective (rw (unset, migrate_key) at e)) has
        | inr (v, set) ↦
            let (m1, e1, e2) =
              from_bind (migrate_source id key v "primary" m) _ m' (rw (set, migrate_key) at e) in
            migrate_source-Keeps id key v "backup" m1 m' e2 q leaf filled
              (migrate_source-Keeps id key v "primary" m m1 e1 q leaf filled has)
      ]

  migrate_keys-Keeps :
      (id : String) (keys : List String) (m m' : Migrated)
      → migrate_keys env id keys m ≡ ok m'
      → KeepsStored m m'
  migrate_keys-Keeps id [] m m' e q leaf filled has =
      subst (λ (x : Migrated). Has (param_path q) leaf x.config) (ok-injective e) has
  migrate_keys-Keeps id (key ∷ keys) m m' e q leaf filled has =
      elim (Result-cases (migrate_key env id key m)) [
        | inr (t, thrown) ↦ absurd (ground arith)
        | inl (m1, first) ↦
            migrate_keys-Keeps id keys m1 m' (ground arith) q leaf filled
              (migrate_key-Keeps id key m m1 first q leaf filled has)
      ]

  migrate_providers-Keeps :
      (ps : Providers) (m m' : Migrated) → migrate_providers env ps m ≡ ok m' → KeepsStored m m'
  unfolding migrate_providers
  migrate_providers-Keeps [] m m' e q leaf filled has =
      subst (λ (x : Migrated). Has (param_path q) leaf x.config) (ok-injective e) has
  migrate_providers-Keeps ((t, p) ∷ ps) m m' e q leaf filled has =
      elim (Result-cases (migrate_keys env p.id (sensitive_keys p.params) m)) [
        | inr (t, thrown) ↦ absurd (ground arith)
        | inl (m1, first) ↦
            migrate_providers-Keeps ps m1 m' (ground arith) q leaf filled
              (migrate_keys-Keeps p.id (sensitive_keys p.params) m m1 first q leaf filled has)
      ]

-- After the secrets of the environment were moved, every secret of an output that the environment
-- sets has in the configuration the value that it had before, if that was not falsy, and else the
-- value of the environment.
pub migrate_env_secrets-AreStored :
    (st : Setup) (env : Environment) (strategies : Strategies) (config : Members) (m : Migrated)
    → st.strategies ≡ some strategies
    → migrate_env_secrets st env config ≡ ok m
    → AreStored env (get_secret_requirement_keys strategies) config m.config
unfolding migrate_env_secrets wired
migrate_env_secrets-AreStored st env strategies config m known e =
    let (found, e1, e2) = from_bind (wired st) _ m e in
    let same : found ≡ strategies = ground arith in
    let rs = get_secret_requirement_keys found in
    let start : Migrated = record { config = config; migrated_keys = []; changed = false } in
    let (m1, e3, e4) = from_bind (migrate_outputs env rs start) _ m e2 in
    subst (λ (s : Strategies). AreStored env (get_secret_requirement_keys s) config m.config) same
      (AreStored-kept env config rs m1 m (migrate_providers-Keeps env st.providers m1 m e4)
        (migrate_outputs-AreStored env rs start m1 e3))
