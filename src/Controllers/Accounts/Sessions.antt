-- ===== src/Controllers/Accounts/Sessions.antt =====
-- Sessions: controllers/authController.js before middleware/auth.js.
use azan_dashboard.Prelude.{
  ℕ, suc, ltb, String, Bool, true, false, ◌≡◌, refl, ap, ◌∙◌, Option, none, some, arith, str_eq,
  eq_refl, if◌then◌else◌, inl, inr, Bool-cases, Option-cases,
}
use mathlib.Core.Path.{subst}
use azan_dashboard.Text.{text_length}
use azan_dashboard.Dict.{lookup, insert, lookup-insert}
use azan_dashboard.Access.{User, next, session_expired, filled, authenticate_token}
use azan_dashboard.Access.Gate.{IsAuthentic, authenticate_token-IsAuthentic}
use azan_dashboard.Controllers.Accounts.{
  Crypto, State, Reply, success, failed, hash_password, env_value, set_env_value, ensure_value,
  session, Setup, end_setup, ensure_salt, ensure_secrets, setup, change_password, login,
}
use azan_dashboard.Controllers.Accounts.Passwords.{
  IsHex, env_value-insert, verify_password-hash_password, change_password-IsChanged,
}

next_version :
    (verify : String → String → Option User) (token secret : Option String) (n : ℕ) (user : User)
    → IsAuthentic verify token secret n user
    → authenticate_token verify token secret (suc n) ≡ session_expired
unfolding authenticate_token
next_version verify token secret n user was =
    ground (arith, was.sent, was.configured, was.verified, was.current)

-- After a change of the password that is answered with success, no session that was let through
-- before is let through again: its token is expired.
pub change_password-expired :
    (crypto : Crypto) (salt p : String) (writes updates : Bool) (s t : State)
    (verify : String → String → Option User) (token : Option String) (user : User)
    → change_password crypto salt writes updates (some p) s ≡ (t, success none)
    → authenticate_token verify token (lookup "JWT_SECRET" s.env) s.token_version ≡ next user
    → authenticate_token verify token (lookup "JWT_SECRET" t.env) t.token_version ≡ session_expired
unfolding authenticate_token
change_password-expired crypto salt p writes updates s t verify token user e before =
    let changed = change_password-IsChanged crypto salt writes updates p s t e in
    let was =
      authenticate_token-IsAuthentic verify token (lookup "JWT_SECRET" s.env) s.token_version user
        before in
    ap (λ (x : Option String). authenticate_token verify token x t.token_version) changed.secret
    ∙ ap (authenticate_token verify token (lookup "JWT_SECRET" s.env)) changed.version
    ∙ next_version verify token (lookup "JWT_SECRET" s.env) s.token_version user was

abbrev admin : State → Option String
admin s = env_value "ADMIN_PASSWORD" s

-- The password stays.
abbrev Keeps : State → Option State → Type 0
Keeps s none = Unit
Keeps s (some t) = admin t ≡ admin s

set_env_value-Keeps :
    (writes : Bool) (key value : String) (s : State)
    → str_eq key "ADMIN_PASSWORD" ≡ false
    → Keeps s (set_env_value writes key value s)
unfolding set_env_value env_value
set_env_value-Keeps false key value s other = tt
set_env_value-Keeps true key value s other = ap filled (
    lookup-insert key "ADMIN_PASSWORD" value s.env
    ∙ ap (λ (b : Bool). if b then some value else lookup "ADMIN_PASSWORD" s.env) other)

ensure_value-Keeps :
    (writes : Bool) (key value : String) (s : State)
    → str_eq key "ADMIN_PASSWORD" ≡ false
    → Keeps s (ensure_value writes key value s)
ensure_value-Keeps writes key value s other = go (env_value key s)
  where
    go :
        (old : Option String)
        → Keeps s (elim old [ some old ↦ some s | none ↦ set_env_value writes key value s ])
    go (some old) = refl
    go none = set_env_value-Keeps writes key value s other

-- A success keeps the password and sets the cookie of a session.
abbrev Opens : Crypto → State → State × Reply → Type 0
Opens crypto s (t, failed n) = Unit
Opens crypto s (t, success c) = (admin t ≡ admin s) × (session crypto t ≡ success c)

module _ (crypto : Crypto) (base : State) where
  end_setup-Opens :
      (s : State) (o : Option State)
      → admin s ≡ admin base
      → Keeps s o
      → Opens crypto base (end_setup crypto s o)
  end_setup-Opens s none same k = tt
  end_setup-Opens s (some t) same k = go (session crypto t) refl
    where
      go : (c : Reply) → session crypto t ≡ c → Opens crypto base (t, c)
      go (failed n) e = tt
      go (success c) e = (k ∙ same, e)

  ensure_salt-Opens :
      (r : Setup) (s : State) (o : Option State)
      → admin s ≡ admin base
      → Keeps s o
      → Opens crypto base (ensure_salt crypto r s o)
  ensure_salt-Opens r s none same k = tt
  ensure_salt-Opens r s (some t) same k =
      end_setup-Opens t (ensure_value r.writes_salt "ENCRYPTION_SALT" r.encryption_salt t)
        (k ∙ same) (ensure_value-Keeps r.writes_salt "ENCRYPTION_SALT" r.encryption_salt t refl)

ensure_secrets-Opens :
    (crypto : Crypto) (r : Setup) (s t : State)
    → Opens crypto t (ensure_secrets crypto r s (some t))
ensure_secrets-Opens crypto r s t =
    ensure_salt-Opens crypto t r t (ensure_value r.writes_secret "JWT_SECRET" r.jwt_secret t) refl
      (ensure_value-Keeps r.writes_secret "JWT_SECRET" r.jwt_secret t refl)

-- What a success of setup leaves
abbrev Done : Crypto → Setup → String → State × Reply → Type 0
Done crypto r p (t, failed n) = Unit
Done crypto r p (t, success c) =
    (admin t ≡ some (hash_password crypto r.salt p)) × (session crypto t ≡ success c)

setup-Done :
    (crypto : Crypto) (r : Setup) (p : String) (s : State)
    → Done crypto r p (setup crypto r (some p) s)
unfolding setup set_env_value
setup-Done crypto r p s = elim (Option-cases (admin s)) [
  | inr (old, there) ↦ rw (there, setup) tt
  | inl first ↦ elim (Bool-cases (str_eq p "")) [
    | inl empty ↦ rw (first, empty, setup) tt
    | inr full ↦ elim (Bool-cases (ltb (text_length p) 5)) [
      | inl short ↦ rw (first, full, short, setup) tt
      | inr long ↦ rw (first, full, long, setup) (written r.writes_password)
    ]
  ]
]
  where
    opened :
        (t : State) (a : State × Reply)
        → admin t ≡ some (hash_password crypto r.salt p)
        → Opens crypto t a
        → Done crypto r p a
    opened t (u, failed n) stored o = tt
    opened t (u, success c) stored (same, cookie) = (same ∙ stored, cookie)

    written :
        (w : Bool)
        → Done crypto r p (
            ensure_secrets crypto r s
              (set_env_value w "ADMIN_PASSWORD" (hash_password crypto r.salt p) s))
    written false = tt
    written true =
        let t : State = record {
          env = insert "ADMIN_PASSWORD" (hash_password crypto r.salt p) s.env;
          token_version = s.token_version;
        } in
        opened t (ensure_secrets crypto r s (some t))
          (env_value-insert crypto r.salt p s s.token_version) (ensure_secrets-Opens crypto r s t)

-- After a setup that is answered with success, the password that was set opens the session that
-- the setup opened, and no further setup is let through or changes anything.
pub login-setup :
    (crypto : Crypto) (r again : Setup) (p : String) (q : Option String) (s t : State)
    (c : Option String)
    → IsHex r.salt
    → IsHex (crypto.scrypt p r.salt)
    → setup crypto r (some p) s ≡ (t, success c)
    → (login crypto (some p) t ≡ success c) × (setup crypto again q t ≡ (t, failed 403))
unfolding login setup
login-setup crypto r again p q s t c salted hex e =
    let done = subst (Done crypto r p) e (setup-Done crypto r p s) in
    let accepted =
      verify_password-hash_password crypto r.salt p salted hex p
      ∙ ap some (eq_refl (crypto.scrypt p r.salt)) in
    (rw (done.0, accepted, login) done.1, rw (done.0, setup) refl)
