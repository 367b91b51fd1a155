-- ===== src/Controllers/Accounts/Passwords.antt =====
-- Passwords that are stored and checked: utils/passwordUtils.js under controllers/authController.js.
use Prim.Native.Char.{Char, code}
use Prim.Native.String.{[], ◌∷◌}
use azan_dashboard.Prelude.{
  ℕ, ◌==◌, suc, String, Bool, true, false, ◌≡◌, refl, ap, sym, ◌∙◌, Option, none, some, List, arith,
  str_eq, eq_iff, if◌then◌else◌, inl, inr, Bool-cases,
}
use mathlib.Core.Path.{subst}
use azan_dashboard.Text.{concat, includes, prepend, split}
use azan_dashboard.Dict.{lookup, insert, lookup-insert}
use azan_dashboard.Access.{filled}
use azan_dashboard.Controllers.Accounts.{
  Crypto, State, Reply, success, failed, hash_password, verify_password, env_value, set_env_value,
  session, change_password, login,
}

-- Hexadecimal text: not empty and without a colon
pub record IsHex (s : String) : Type 0 where
  pub colon : includes b':' s ≡ false
  pub filled : str_eq s "" ≡ false

includes-concat_colon : (a b : String) → includes b':' (concat a (concat ":" b)) ≡ true
unfolding includes concat
includes-concat_colon [] b = refl
includes-concat_colon (c ∷ a) b = ground (arith, includes-concat_colon a b)

module _ (c : Char) (s : String) (plain : includes b':' (c ∷ s) ≡ false) where
  head-plain : (code c == b':') ≡ false
  unfolding includes
  head-plain = elim (Bool-cases (code c == b':')) [
    | inl colon ↦ absurd (ground arith)
    | inr other ↦ other
  ]

  tail-plain : includes b':' s ≡ false
  unfolding includes
  tail-plain = rw (sym head-plain) (ground (arith, plain))

split-plain : (b : String) → includes b':' b ≡ false → split b':' b ≡ List.◌∷◌ b List.[]
unfolding split prepend
split-plain [] h = refl
split-plain (c ∷ b) h = rw (head-plain c b h, split-plain b (tail-plain c b h)) refl

split-concat_colon :
    (a b : String)
    → includes b':' a ≡ false
    → split b':' (concat a (concat ":" b)) ≡ List.◌∷◌ a (split b':' b)
unfolding split concat prepend
split-concat_colon [] b h = refl
split-concat_colon (c ∷ a) b h =
    rw (head-plain c a h, split-concat_colon a b (tail-plain c a h)) refl

module _ (crypto : Crypto) (salt p : String) where
  colon_in_hash : includes b':' (hash_password crypto salt p) ≡ true
  unfolding hash_password
  colon_in_hash = includes-concat_colon salt (crypto.scrypt p salt)

  filled-hash_password :
      filled (some (hash_password crypto salt p)) ≡ some (hash_password crypto salt p)
  unfolding includes
  filled-hash_password = elim (Bool-cases (str_eq (hash_password crypto salt p) "")) [
    | inr full ↦ rw full refl
    | inl empty ↦
        let here : hash_password crypto salt p ≡ "" =
          ground (arith, eq_iff (hash_password crypto salt p) "") in
        absurd (bare (subst (λ (h : String). includes b':' h ≡ true) here colon_in_hash))
  ]
    where
      bare : includes b':' "" ≡ true → ⊥
      bare e = absurd (ground arith)

module _ (crypto : Crypto) (salt p : String) (salted : IsHex salt)
    (hex : IsHex (crypto.scrypt p salt)) where
  split-hash_password :
      split b':' (hash_password crypto salt p)
      ≡ List.◌∷◌ salt (List.◌∷◌ (crypto.scrypt p salt) List.[])
  unfolding hash_password
  split-hash_password =
      split-concat_colon salt (crypto.scrypt p salt) salted.colon
      ∙ ap (λ (rest : List String). List.◌∷◌ salt rest)
          (split-plain (crypto.scrypt p salt) hex.colon)

  -- A stored hash accepts the passwords that scrypt does not tell from its own.
  pub verify_password-hash_password :
      (q : String)
      → verify_password crypto (some q) (hash_password crypto salt p)
        ≡ some (str_eq (crypto.scrypt p salt) (crypto.scrypt q salt))
  unfolding verify_password
  verify_password-hash_password q =
      rw (colon_in_hash crypto salt p, split-hash_password, salted.filled, hex.filled) refl

-- The new password and the next version of the tokens are in place.
pub record IsChanged (crypto : Crypto) (salt p : String) (s t : State) : Type 0 where
  pub stored : env_value "ADMIN_PASSWORD" t ≡ some (hash_password crypto salt p)
  pub secret : lookup "JWT_SECRET" t.env ≡ lookup "JWT_SECRET" s.env
  pub version : t.token_version ≡ suc s.token_version

module _ (crypto : Crypto) (salt : String) where
  pub env_value-insert :
      (p : String) (s : State) (n : ℕ)
      → env_value "ADMIN_PASSWORD" (record {
        env = insert "ADMIN_PASSWORD" (hash_password crypto salt p) s.env;
        token_version = n;
      })
        ≡ some (hash_password crypto salt p)
  unfolding env_value
  env_value-insert p s n =
      ap filled
        (lookup-insert "ADMIN_PASSWORD" "ADMIN_PASSWORD" (hash_password crypto salt p) s.env)
      ∙ filled-hash_password crypto salt p

  pub refused :
      (n : ℕ) (s t : State) (c : Option String)
      → ◌≡◌ {A = State × Reply} (s, failed n) (t, success c)
      → ⊥
  refused n s t c e = absurd (ground (arith, ap (λ (r : State × Reply). r.1) e))

  changed : String → State → State
  unfolding insert
  changed p s = record {
    env = insert "ADMIN_PASSWORD" (hash_password crypto salt p) s.env;
    token_version = suc s.token_version;
  }

  changed-IsChanged : (p : String) (s : State) → IsChanged crypto salt p s (changed p s)
  unfolding changed
  changed-IsChanged p s = record {
    stored = env_value-insert p s (suc s.token_version);
    secret = lookup-insert "ADMIN_PASSWORD" "JWT_SECRET" (hash_password crypto salt p) s.env;
    version = refl;
  }

  pub change_password-IsChanged :
      (writes updates : Bool) (p : String) (s t : State)
      → change_password crypto salt writes updates (some p) s ≡ (t, success none)
      → IsChanged crypto salt p s t
  unfolding change_password set_env_value changed
  change_password-IsChanged writes updates p s t e = elim (Bool-cases (str_eq p "")) [
    | inl empty ↦ absurd (refused 400 s t none (rw (empty, change_password) at e))
    | inr full ↦ go writes updates (rw (full, change_password) at e)
  ]
    where
      go :
          (w u : Bool)
          → elim (set_env_value w "ADMIN_PASSWORD" (hash_password crypto salt p) s)
              as (λ (x : Option State). State × Reply) [
                | none ↦ (s, failed 500)
                | some t ↦
                    if u
                    then (record t { token_version = suc t.token_version }, success none)
                    else (t, failed 500)
              ]
            ≡ (t, success none)
          → IsChanged crypto salt p s t
      go false u h = absurd (refused 500 s t none h)
      go true false h = absurd (
          refused 500
            (record s { env = insert "ADMIN_PASSWORD" (hash_password crypto salt p) s.env }) t none
            h)
      go true true h =
          subst (IsChanged crypto salt p s) (ap (λ (r : State × Reply). r.0) h)
            (changed-IsChanged p s)

-- After a change of the password that is answered with success, a login is answered with a session
-- of the new version for the passwords that scrypt does not tell from the new one, and with 401 for
-- every other.
pub login-change_password :
    (crypto : Crypto) (salt p q : String) (writes updates : Bool) (s t : State)
    → IsHex salt
    → IsHex (crypto.scrypt p salt)
    → change_password crypto salt writes updates (some p) s ≡ (t, success none)
    → (login crypto (some q) t ≡ (
        if str_eq (crypto.scrypt p salt) (crypto.scrypt q salt)
        then session crypto t
        else failed 401))
      × (t.token_version ≡ suc s.token_version)
unfolding login
login-change_password crypto salt p q writes updates s t salted hex e =
    let changed = change_password-IsChanged crypto salt writes updates p s t e in
    (
      rw (changed.stored, verify_password-hash_password crypto salt p salted hex q, login)
          (go (str_eq (crypto.scrypt p salt) (crypto.scrypt q salt))),
      changed.version,
    )
  where
    go :
        (b : Bool)
        → elim (some b) as (λ (x : Option Bool). Reply) [
          | none ↦ failed 500
          | some false ↦ failed 401
          | some true ↦ session crypto t
        ]
          ≡ (if b then session crypto t else failed 401)
    go true = refl
    go false = refl
