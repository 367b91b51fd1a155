-- ===== src/Controllers/Accounts.antt =====
-- The accounts of controllers/authController.js, with utils/passwordUtils.js and setEnvValue of
-- utils/envManager.js on the environment of the process. scrypt, the token library and what is
-- random are parameters; a password is a text or missing.
pub mod Sessions
pub mod Passwords
mod Tests
use azan_dashboard.Prelude.{
  ℕ, suc, ltb, String, Bool, true, false, not, Option, none, some, List, [], ◌∷◌, str_eq,
  if◌then◌else◌,
}
use azan_dashboard.Text.{concat, includes, split, text_length}
use azan_dashboard.Dict.{Dict, lookup, insert}
use azan_dashboard.Access.{filled}

-- scrypt(password, salt, 64) in hexadecimal, and jwt.sign of a token version under a secret
pub record Crypto : Type 0 where
  pub scrypt : String → String → String
  pub sign : ℕ → String → String

-- process.env, and security.tokenVersion of the configuration
pub record State : Type 0 where
  pub env : Dict String
  pub token_version : ℕ

-- What is answered: a success, with the cookie if one is set, or the status of a failure
pub data Reply : Type 0 where
  success : Option String → Reply
  failed : ℕ → Reply

-- hashPassword, with its random salt
unfoldable pub hash_password : Crypto → String → String → String
unfolding concat
hash_password crypto salt password = concat salt (concat ":" (crypto.scrypt password salt))

-- What scrypt makes of the password, which is refused if it is missing
abbrev hashed : Crypto → Option String → String → Option String
hashed crypto none salt = none
hashed crypto (some password) salt = some (crypto.scrypt password salt)

abbrev pub compare_parts : Crypto → Option String → List String → Option Bool
compare_parts crypto password (salt ∷ original ∷ rest) =
    if str_eq salt ""
    then some false
    else if str_eq original ""
    then some false
    else elim (hashed crypto password salt) [ none ↦ none | some h ↦ some (str_eq original h) ]
compare_parts crypto password _ = some false

-- verifyPassword: `none` is the exception.
unfoldable pub verify_password : Crypto → Option String → String → Option Bool
unfolding includes split
verify_password crypto password stored =
    if not (includes b':' stored)
    then some false
    else compare_parts crypto password (split b':' stored)

-- `process.env[key]`, where an empty text counts as missing
unfoldable pub env_value : String → State → Option String
unfolding lookup
env_value key s = filled (lookup key s.env)

-- setEnvValue: `none` where the file cannot be written.
unfoldable pub set_env_value : Bool → String → String → State → Option State
unfolding insert
set_env_value writes key value s =
    if writes then some (record s { env = insert key value s.env }) else none

-- A secret that is kept, or else generated and saved
abbrev pub ensure_value : Bool → String → String → State → Option State
ensure_value writes key generated s = elim (env_value key s) [
  | some old ↦ some s
  | none ↦ set_env_value writes key generated s
]

-- The cookie of a new session
abbrev pub session : Crypto → State → Reply
session crypto s = elim (env_value "JWT_SECRET" s) [
  | none ↦ failed 500
  | some secret ↦ success (some (crypto.sign s.token_version secret))
]

-- What a setup generates, and which of its three writes succeed
pub record Setup : Type 0 where
  pub salt : String
  pub jwt_secret : String
  pub encryption_salt : String
  pub writes_password : Bool
  pub writes_secret : Bool
  pub writes_salt : Bool

abbrev pub end_setup : Crypto → State → Option State → State × Reply
end_setup crypto s none = (s, failed 500)
end_setup crypto s (some t) = (t, session crypto t)

abbrev pub ensure_salt : Crypto → Setup → State → Option State → State × Reply
ensure_salt crypto r s none = (s, failed 500)
ensure_salt crypto r s (some t) =
    end_setup crypto t (ensure_value r.writes_salt "ENCRYPTION_SALT" r.encryption_salt t)

abbrev pub ensure_secrets : Crypto → Setup → State → Option State → State × Reply
ensure_secrets crypto r s none = (s, failed 500)
ensure_secrets crypto r s (some t) =
    ensure_salt crypto r t (ensure_value r.writes_secret "JWT_SECRET" r.jwt_secret t)

-- setup
unfoldable pub setup : Crypto → Setup → Option String → State → State × Reply
unfolding env_value set_env_value hash_password text_length
setup crypto r password s = elim (env_value "ADMIN_PASSWORD" s) [
  | some old ↦ (s, failed 403)
  | none ↦ elim (filled password) [
    | none ↦ (s, failed 400)
    | some p ↦
        if ltb (text_length p) 5
        then (s, failed 400)
        else ensure_secrets crypto r s
            (set_env_value r.writes_password "ADMIN_PASSWORD" (hash_password crypto r.salt p) s)
  ]
]

-- changePassword; `updates` says whether configService.update succeeds.
unfoldable pub change_password :
    Crypto → (salt : String) → (writes updates : Bool) → Option String → State → State × Reply
unfolding set_env_value hash_password
change_password crypto salt writes updates password s = elim (filled password) [
  | none ↦ (s, failed 400)
  | some p ↦ elim (set_env_value writes "ADMIN_PASSWORD" (hash_password crypto salt p) s) [
    | none ↦ (s, failed 500)
    | some t ↦
        if updates
        then (record t { token_version = suc t.token_version }, success none)
        else (t, failed 500)
  ]
]

-- login; asyncHandler answers 500 to an exception.
unfoldable pub login : Crypto → Option String → State → Reply
unfolding env_value verify_password
login crypto password s = elim (env_value "ADMIN_PASSWORD" s) [
  | none ↦ failed 500
  | some stored ↦ elim (verify_password crypto password stored) [
    | none ↦ failed 500
    | some false ↦ failed 401
    | some true ↦ session crypto s
  ]
]
