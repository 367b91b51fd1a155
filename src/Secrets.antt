-- ===== src/Secrets.antt =====
-- Sensitive values of a configuration: config/ConfigService.js _processSensitiveFields on the
-- parameters of one output or source, utils/configUnmasker.js unmaskParams, and the mask of
-- utils/encryption.js. The cipher is a parameter: encrypt and decrypt, which may throw, under a key;
-- both throw where the variable ENCRYPTION_SALT is not set.
pub mod Processing
pub mod RoundTrip
pub mod Unmasking
mod Tests
use azan_dashboard.Prelude.{
  String, Bool, true, false, not, ◌&&◌, ◌||◌, Option, none, some, List, [], ◌∷◌, str_eq,
  if◌then◌else◌,
}
use azan_dashboard.Text.{includes}
use azan_dashboard.Json.{
  Value, null, bool, num, str, arr, obj, Members, get, put, erase, truthy, truthy_option,
}

-- node:crypto behind encrypt(plaintext, key) and decrypt(ciphertext, key); `none` is an exception.
pub record Cipher : Type 0 where
  pub encrypt : String → String → Option String
  pub decrypt : String → String → Option String

-- `value.includes(":")`
abbrev pub has_colon : String → Bool
has_colon s = includes b':' s

-- mask(), isMasked(value)
abbrev pub masked : String
masked = "********"

unfoldable pub is_masked : Option Value → Bool
is_masked (some (str s)) = str_eq s masked
is_masked _ = false

pub data Mode : Type 0 where
  encrypting decrypting : Mode

-- What a text that is not empty becomes; an exception of `decrypt` is caught here.
unfoldable pub process_text : Cipher → String → Mode → String → Option String
process_text c key encrypting s =
    if has_colon s then some s else if str_eq s masked then some s else c.encrypt s key
process_text c key decrypting s =
    if has_colon s then elim (c.decrypt s key) [ none ↦ some s | some t ↦ some t ] else some s

-- One sensitive key: `if (val && typeof val === "string")`; `none` is an exception.
unfoldable pub process_key : Cipher → String → Mode → String → Members → Option Members
unfolding process_text
process_key c key mode name params = elim (get name params) [
  | some (str s) ↦ if str_eq s "" then some params else elim (process_text c key mode s) [
    | none ↦ none
    | some t ↦ some (put name (str t) params)
  ]
  | _ ↦ some params
]

-- An exception ends the loop over the keys and is caught: this key and the next ones stay plain.
unfoldable pub process_keys : Cipher → String → Mode → List String → Members → Members
unfolding process_key
process_keys c key mode [] params = params
process_keys c key mode (name ∷ names) params = elim (process_key c key mode name params) [
  | none ↦ params
  | some changed ↦ process_keys c key mode names changed
]

-- unmaskParams: one key, restored from the current parameters or deleted
unfoldable pub unmask_key : Option Members → String → Members → Members
unfolding is_masked
unmask_key current name params =
    if is_masked (get name params)
    then elim current [
      | none ↦ erase name params
      | some now ↦ elim (get name now) [
        | none ↦ erase name params
        | some v ↦ if truthy v then put name v params else erase name params
      ]
    ]
    else params

unfoldable pub unmask_params : Option Members → List String → Members → Members
unfolding unmask_key
unmask_params current [] params = params
unmask_params current (name ∷ names) params =
    unmask_params current names (unmask_key current name params)
