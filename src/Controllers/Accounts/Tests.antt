-- ===== src/Controllers/Accounts/Tests.antt =====
-- A first setup, and then a new password.
use azan_dashboard.Prelude.{
  String, true, ◌≡◌, refl, Option, some, [], ◌∷◌, suc, str_eq, if◌then◌else◌,
}
use azan_dashboard.Text.{includes}
use azan_dashboard.Dict.{lookup}
use azan_dashboard.Access.{User, session_expired, authenticate_token}
use azan_dashboard.Controllers.Accounts.{
  Crypto, State, success, failed, Setup, setup, change_password, login,
}
use azan_dashboard.Controllers.Accounts.Passwords.{IsHex, login-change_password}
use azan_dashboard.Controllers.Accounts.Sessions.{change_password-expired, login-setup}

abbrev crypto : Crypto
crypto = record {
  scrypt = λ p s. if str_eq p "correct" then "aa" else "bb";
  sign = λ version secret. secret;
}

abbrev empty : State
empty = record { env = []; token_version = 3 }

abbrev generated : Setup
generated = record {
  salt = "01";
  jwt_secret = "jwt";
  encryption_salt = "02";
  writes_password = true;
  writes_secret = true;
  writes_salt = true;
}

abbrev ready : State
ready = record {
  env = ("ADMIN_PASSWORD", "01:aa") ∷ ("JWT_SECRET", "jwt") ∷ ("ENCRYPTION_SALT", "02") ∷ [];
  token_version = 3;
}

abbrev renewed : State
renewed = record {
  env = ("ADMIN_PASSWORD", "03:bb") ∷ ("JWT_SECRET", "jwt") ∷ ("ENCRYPTION_SALT", "02") ∷ [];
  token_version = 4;
}

IsHex-text_01 : IsHex "01"
unfolding includes
IsHex-text_01 = record { colon = refl; filled = refl }

IsHex-text_03 : IsHex "03"
unfolding includes
IsHex-text_03 = record { colon = refl; filled = refl }

IsHex-text_aa : IsHex "aa"
unfolding includes
IsHex-text_aa = record { colon = refl; filled = refl }

IsHex-text_bb : IsHex "bb"
unfolding includes
IsHex-text_bb = record { colon = refl; filled = refl }

login-setup_example :
    (login crypto (some "correct") ready ≡ success (some "jwt"))
    × (setup crypto generated (some "another") ready ≡ (ready, failed 403))
unfolding setup
login-setup_example =
    login-setup crypto generated generated "correct" (some "another") empty ready (some "jwt")
      IsHex-text_01 IsHex-text_aa refl

login-change_password_example :
    (login crypto (some "correct") renewed ≡ failed 401)
    × (renewed.token_version ≡ suc ready.token_version)
unfolding change_password
login-change_password_example =
    login-change_password crypto "03" "renewed" "correct" true true ready renewed IsHex-text_03
      IsHex-text_bb refl

abbrev admin : User
admin = record { name = "admin"; token_version = some 3 }

abbrev verify : String → String → Option User
verify token secret = some admin

change_password-expired_example :
    authenticate_token verify (some "token") (lookup "JWT_SECRET" renewed.env) renewed.token_version
    ≡ session_expired
unfolding change_password authenticate_token lookup
change_password-expired_example =
    change_password-expired crypto "03" "renewed" true true ready renewed verify (some "token")
      admin refl refl
