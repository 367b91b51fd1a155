-- ===== src/Secrets/Tests.antt =====
-- A token of an output, with a cipher that marks what it encrypts.
use azan_dashboard.Prelude.{
  String, ◌≡◌, refl, sym, ap, Bool-cases, inl, inr, str_eq, if◌then◌else◌, false, Option, none,
  some, List, [], ◌∷◌, arith, eq_iff,
}
use Prim.Native.Char.{Char, nul}
use azan_dashboard.Text.{includes}
use azan_dashboard.Settings.{member}
use azan_dashboard.Json.{str, Members, end, field, get}
use azan_dashboard.Secrets.{
  Cipher, has_colon, is_masked, encrypting, decrypting, process_keys, unmask_params,
}
use azan_dashboard.Secrets.Processing.{IsCipher, process_keys-saved}
use azan_dashboard.Secrets.RoundTrip.{IsReversible, process_keys-round_trip}
use azan_dashboard.Secrets.Unmasking.{unmask_params-restored}

tail : String → Option String
tail String.[] = none
tail (String.◌∷◌ c s) = some s

abbrev first : String → Char
first String.[] = nul
first (String.◌∷◌ c s) = c

abbrev marking : Cipher
marking = record { encrypt = λ s key. some (String.◌∷◌ (first ":") s); decrypt = λ s key. tail s }

marking-IsCipher : IsCipher marking "secret"
unfolding includes tail
marking-IsCipher = record {
  cipher_text = λ s. String.◌∷◌ (first ":") s;
  encrypt-cipher_text = λ s. refl;
  colon-cipher_text = λ s. refl;
  decrypt-cipher_text = λ s. refl;
}

-- A cipher that encrypts the token only, and throws for the device
abbrev partial : Cipher
partial = record {
  encrypt = λ s key. if str_eq s "abc" then some ":abc" else none;
  decrypt = λ s key. some "abc";
}

partial-IsReversible : IsReversible partial "secret"
unfolding includes
partial-IsReversible = record {
  colon-encrypt = λ s t e. elim (Bool-cases (str_eq s "abc")) [
    | inl own ↦ (let same : ":abc" ≡ t = ground (arith, e, own) in ap has_colon (sym same))
    | inr apart ↦ absurd (ground (arith, e, apart))
  ];
  decrypt-encrypt = λ s t e. elim (Bool-cases (str_eq s "abc")) [
    | inl own ↦ (let same : "abc" ≡ s = ground (arith, eq_iff s "abc") in ap some same)
    | inr apart ↦ absurd (ground (arith, e, apart))
  ];
}

abbrev params : Members
params = field "token" (str "abc") (field "device" (str "hall") end)

abbrev names : List String
names = "token" ∷ "device" ∷ []

process_keys-round_trip_example :
    get "token" (
      process_keys partial "secret" decrypting names
        (process_keys partial "secret" encrypting names params))
    ≡ some (str "abc")
unfolding get includes
process_keys-round_trip_example =
    process_keys-round_trip partial "secret" partial-IsReversible names params "token" (λ own. refl)

process_keys-saved_sample :
    get "token" (process_keys marking "secret" encrypting names params) ≡ some (str ":abc")
unfolding get includes member marking-IsCipher
process_keys-saved_sample =
    process_keys-saved marking "secret" marking-IsCipher names params "token" "abc" refl refl
      (ground (arith, eq_iff "abc" "")) (ground (arith, eq_iff "abc" "********"))

-- The user sends the mask back for the token and a new device.
abbrev sent : Members
sent = field "token" (str "********") (field "device" (str "kitchen") end)

unmask_params-restored_sample :
    (get "token" (unmask_params (some params) names sent) ≡ some (str "abc"))
    × (is_masked (get "token" (unmask_params (some params) names sent)) ≡ false)
unfolding get member is_masked
unmask_params-restored_sample = unmask_params-restored (some params) names sent "token" refl refl
