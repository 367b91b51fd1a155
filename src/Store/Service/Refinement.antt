-- ===== src/Store/Service/Refinement.antt =====
-- The settings store of config/ConfigService.js against what it promises: a configuration in memory
-- and a local file, that change only in accepted and complete steps.
use azan_dashboard.Prelude.{
  Bool, ◌≡◌, refl, ap, sym, ◌∙◌, Option, none, some, arith, Bool-cases, Option-cases, inl, inr,
}
use mathlib.Core.Path.{subst}
use azan_dashboard.Result.{Error, Result, ok, err, from_bind}
use azan_dashboard.Dict.{spread}
use azan_dashboard.Json.{Value, Members}
use azan_dashboard.Migration.{migrate_config}
use azan_dashboard.Store.{Environment, Setup}
use azan_dashboard.Store.EnvSecrets.{Migrated}
use azan_dashboard.Store.Overrides.{apply_env_overrides}
use azan_dashboard.Store.Constraints.{validate_constraints}
use azan_dashboard.Store.Cleaning.{clean_source_data, validate_sources}
use azan_dashboard.Store.Saving.{Content, blank, broken, unreadable, holds, Disk, Fault, save_local}
use azan_dashboard.Store.Saving.Atomic.{Saved, kept, replaced, save_local-Saved}
use azan_dashboard.Store.Loading.{
  is_newer, shipped_config, parse_config, gather, settle, candidate, validate_candidate,
  current_local,
}
use azan_dashboard.Store.Service.{
  State, Job, Faults, continue, on_disk, initialise, required, or_defaults, save, load_env,
  merge_local, load_local, keep_secrets, install, reload, update_body,
}

-- What a client sees of the store
pub record View : Type 0 where
  pub config : Option Value
  pub local : Option Content

abbrev pub view : State → View
view s = record { config = s.config; local = s.disk.local }

-- A value that the schema made of a configuration whose sources are valid
pub data IsAccepted (st : Setup) (v : Value) : Type 0 where
  accepted :
      (c c' : Members) → validate_sources st c' ≡ ok c → st.parse c ≡ some v → IsAccepted st v

-- The steps that the store promises: the local file is replaced by a complete one, or an accepted
-- configuration is put into effect.
pub data Steps (st : Setup) : View → View → Type 0 where
  done : {x : View} → Steps st x x
  write :
      {x y : View} (copy : Members)
      → Steps st x y
      → Steps st x (record y { local = some (holds copy) })
  accept :
      {x y : View} (v : Value)
      → IsAccepted st v
      → Steps st x y
      → Steps st x (record y { config = some v })

-- How a job ends, from a view: after such steps, with the flag as it was, and with `Q` of what it
-- returns
pub data Refined {ℓ} (st : Setup) (b : Bool) (x : View) {A : Type ℓ} (Q : A → State → Type 0)
    : State × Result A → Type ℓ where
  returned :
      {s : State} {a : A}
      → Steps st x (view s)
      → s.is_saving ≡ b
      → Q a s
      → Refined st b x Q (s, ok a)
  threw :
      {s : State} {e : Error} → Steps st x (view s) → s.is_saving ≡ b → Refined st b x Q (s, err e)

abbrev pub Any {ℓ} : {A : Type ℓ} → A → State → Type 0
Any a s = Unit

module _ (st : Setup) (b : Bool) (x : View) where
  bind {ℓ κ} :
      {A : Type ℓ} {B : Type κ} (Q : A → State → Type 0) {R : B → State → Type 0}
      {r : State × Result A} {next : A → Job B}
      → Refined st b x Q r
      → ((a : A) (s : State)
          → Steps st x (view s)
          → s.is_saving ≡ b
          → Q a s
          → Refined st b x R (next a s))
      → Refined st b x R (continue r next)
  bind Q (returned steps flag q) k = k _ _ steps flag q
  bind Q (threw steps flag) k = threw steps flag

  pure {ℓ} :
      {A : Type ℓ} (Q : A → State → Type 0) (s : State) (r : Result A)
      → Steps st x (view s)
      → s.is_saving ≡ b
      → ((a : A) → r ≡ ok a → Q a s)
      → Refined st b x Q (s, r)
  pure Q s (ok a) steps flag q = returned steps flag (q a refl)
  pure Q s (err e) steps flag q = threw steps flag

  weaken {ℓ} :
      {A : Type ℓ} {Q : A → State → Type 0} {r : State × Result A}
      → Refined st b x Q r
      → Refined st b x Any r
  weaken (returned steps flag q) = returned steps flag tt
  weaken (threw steps flag) = threw steps flag

  save-Refined :
      (f : Fault) (config : Members) (s : State)
      → Steps st x (view s)
      → s.is_saving ≡ b
      → Refined st b x Any (save st f config s)
  unfolding save
  save-Refined f config s steps flag =
      go (save_local st s.env f config s.disk) (save_local-Saved st s.env config f s.disk)
    where
      go :
          (r : Disk × Result Members)
          → Saved st s.env config s.disk r
          → Refined st b x Any (on_disk s r)
      go (d, err e) (kept same shipped) =
          threw
            (subst (λ (l : Option Content). Steps st x (record { config = s.config; local = l }))
              (sym same) steps)
            flag
      go _ (replaced {copy} e) = returned (write copy steps) flag tt

  merge_local-Refined :
      (f : Fault) (shipped local : Members) (s : State)
      → Steps st x (view s)
      → s.is_saving ≡ b
      → Refined st b x Any (merge_local st f shipped local s)
  unfolding merge_local
  merge_local-Refined f shipped local s steps flag =
      bind Any (pure Any s (migrate_config local) steps flag (λ a e. tt))
        (λ migrated s steps flag q. elim (Bool-cases (is_newer migrated local)) [
          | inl newer ↦ rw newer (
              bind Any (save-Refined f migrated s steps flag)
                (λ saved s steps flag q. returned steps flag tt))
          | inr same ↦ rw same (returned steps flag tt)
        ])

  defaults-Refined :
      (shipped : Members) {r : State × Result Members}
      → Refined st b x Any r
      → Refined st b x Any (or_defaults shipped r)
  defaults-Refined shipped (returned steps flag q) = returned steps flag q
  defaults-Refined shipped (threw steps flag) = returned steps flag tt

  load_local-Refined :
      (f : Fault) (shipped : Members) (s : State)
      → Steps st x (view s)
      → s.is_saving ≡ b
      → Refined st b x Any (load_local st f shipped s)
  unfolding load_local
  load_local-Refined f shipped s steps flag = go s.disk.local refl
    where
      go : (l : Option Content) → s.disk.local ≡ l → Refined st b x Any (load_local st f shipped s)
      go (some (holds local)) e =
          rw (e, load_local)
            (defaults-Refined shipped (merge_local-Refined f shipped local s steps flag))
      go none e = rw (e, load_local) (returned steps flag tt)
      go (some blank) e = rw (e, load_local) (returned steps flag tt)
      go (some broken) e = rw (e, load_local) (returned steps flag tt)
      go (some unreadable) e = rw (e, load_local) (returned steps flag tt)

  keep_secrets-Refined :
      (f : Fault) (m : Migrated) (s : State)
      → Steps st x (view s)
      → s.is_saving ≡ b
      → Refined st b x Any (keep_secrets st f m s)
  unfolding keep_secrets
  keep_secrets-Refined f m s steps flag = elim (Bool-cases m.changed) [
    | inl e ↦
        rw (e, keep_secrets)
          (bind Any (save-Refined f m.config s steps flag)
            (λ saved s steps flag q. returned steps flag tt))
    | inr e ↦ rw (e, keep_secrets) (returned steps flag tt)
  ]

  -- What reload returns is accepted and in memory.
  abbrev pub InEffect : Value → State → Type 0
  InEffect v s = IsAccepted st v × (s.config ≡ some v)

  settle-IsAccepted :
      (env : Environment) (config : Members) (v : Value)
      → settle st env config ≡ ok v
      → IsAccepted st v
  unfolding settle parse_config
  settle-IsAccepted env config v e =
      let (c1, _, e1) = from_bind (apply_env_overrides st env config) _ v e in
      let (c2, _, e2) = from_bind (validate_constraints st c1) _ v e1 in
      let cleaned = clean_source_data st.providers c2 in
      let (c3, valid, e3) = from_bind (validate_sources st cleaned) _ v e2 in
      elim (Option-cases (st.parse c3)) [
        | inl refused ↦ absurd (ground arith)
        | inr (w, parsed) ↦
            let same : w ≡ v = ground arith in accepted c3 cleaned valid (parsed ∙ ap some same)
      ]

  pub reload-Refined :
      (fs : Faults) (s : State)
      → Steps st x (view s)
      → s.is_saving ≡ b
      → Refined st b x InEffect (reload st fs s)
  unfolding reload load_env install
  reload-Refined fs s steps flag =
      let env = spread s.env s.dotenv in
      bind Any
        (pure Any (record s { env = env }) (shipped_config s.disk.shipped) steps flag (λ a e. tt))
        (λ shipped s1 steps flag q.
          bind Any (load_local-Refined fs.migrating shipped s1 steps flag) (λ raw s2 steps flag q.
            bind Any (pure Any s2 (gather st env raw) steps flag (λ a e. tt)) (λ m s3 steps flag q.
              bind Any (keep_secrets-Refined fs.securing m s3 steps flag) (λ config s4 steps flag q.
                bind (λ v s. IsAccepted st v)
                  (pure (λ v s. IsAccepted st v) s4 (settle st env config) steps flag
                    (settle-IsAccepted env config))
                  (λ v s5 steps flag q. returned (accept v q steps) flag (q, refl))))))

  pub initialise-Refined :
      (fs : Faults) (s : State)
      → Steps st x (view s)
      → s.is_saving ≡ b
      → Refined st b x Any (initialise st fs s)
  unfolding initialise
  initialise-Refined fs s steps flag =
      bind InEffect (reload-Refined fs s steps flag) (λ v s1 steps flag q.
        bind Any (pure Any s1 (required "JWT_SECRET" s1.env) steps flag (λ a e. tt))
          (λ secret s2 steps flag q'.
            bind Any (pure Any s2 (required "ENCRYPTION_SALT" s2.env) steps flag (λ a e. tt))
              (λ salt s3 steps flag q''. returned steps flag tt)))

  pub update_body-Refined :
      (fs : Faults) (partial : Members) (s : State)
      → Steps st x (view s)
      → s.is_saving ≡ b
      → Refined st b x InEffect (update_body st fs partial s)
  unfolding update_body
  update_body-Refined fs partial s steps flag =
      bind Any (pure Any s (current_local s.disk.local) steps flag (λ a e. tt))
        (λ current s1 steps flag q.
          bind Any (pure Any s1 (candidate st s1.env current partial) steps flag (λ a e. tt))
            (λ new_local s2 steps flag q.
              bind Any (pure Any s2 (shipped_config s2.disk.shipped) steps flag (λ a e. tt))
                (λ shipped s3 steps flag q.
                  bind Any
                    (pure Any s3 (validate_candidate st s3.env shipped new_local) steps flag
                      (λ a e. tt))
                    (λ full s4 steps flag q.
                      bind Any (save-Refined fs.updating new_local s4 steps flag)
                        (λ saved s5 steps flag q. reload-Refined fs s5 steps flag)))))
