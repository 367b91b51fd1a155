-- ===== src/Secrets/RoundTrip.antt =====
-- _processSensitiveFields of config/ConfigService.js: a save and the next load.
use azan_dashboard.Prelude.{
  String, ◌≡◌, refl, ap, ◌∙◌, sym, true, false, inl, inr, Option, none, some, List, [], ◌∷◌, arith,
  str_eq, eq_iff, Bool-cases, Option-cases,
}
use azan_dashboard.Text.{includes}
use azan_dashboard.Settings.{member}
use azan_dashboard.Json.{Value, null, bool, num, str, arr, obj, Members, get}
use azan_dashboard.Secrets.{
  Cipher, has_colon, encrypting, decrypting, process_text, process_key, process_keys,
}
-- What may be saved of a sensitive value: no text but an empty, a masked or an encrypted one
use azan_dashboard.Secrets.Processing.{
  pass, pass-other, pass-member, processed, after_key, after_key-done, get-after_key, IsPlain,
}

module _ (c : Cipher) (key : String) where
  -- What is relied on: a text that encryption gives, if it does not throw, is `iv:tag:text`, and
  -- decryption under the same key undoes it.
  pub record IsReversible : Type 0 where
    pub colon-encrypt : (s t : String) → c.encrypt s key ≡ some t → has_colon t ≡ true
    pub decrypt-encrypt : (s t : String) → c.encrypt s key ≡ some t → c.decrypt t key ≡ some s

  after_key-decrypting :
      (name : String) (params : Members)
      → process_key c key decrypting name params ≡ some (after_key c key decrypting name params)
  unfolding after_key process_key process_text
  after_key-decrypting name params = grind arith

  get-decrypted :
      (names : List String) (other : String) (params : Members)
      → get other (process_keys c key decrypting names params)
        ≡ pass (processed c key decrypting) names other (get other params)
  unfolding process_keys
  get-decrypted [] other params = refl
  get-decrypted (name ∷ names) other params =
      rw (after_key-decrypting name params, process_keys)
        (get-decrypted names other (after_key c key decrypting name params)
          ∙ ap (pass (processed c key decrypting) names other)
              (get-after_key c key decrypting name other params))

  colon_text-filled : (t : String) → has_colon t ≡ true → str_eq t "" ≡ false
  unfolding includes
  colon_text-filled t colon = elim (Bool-cases (str_eq t "")) [
    | inr filled ↦ filled
    | inl empty ↦
        let same : t ≡ "" = ground (arith, eq_iff t "") in
        let bare : has_colon "" ≡ true = ap has_colon (sym same) ∙ colon in absurd (ground arith)
  ]

  decrypting-plain : (v : Option Value) → IsPlain c key v → processed c key decrypting v ≡ v
  unfolding processed process_text
  decrypting-plain v h = grind arith

  module _ (laws : IsReversible) where
    -- Encryption does not change what decryption makes of a value.
    decrypting-encrypting :
        (v : Option Value)
        → processed c key decrypting (processed c key encrypting v) ≡ processed c key decrypting v
    unfolding processed process_text
    decrypting-encrypting (some (str s)) = elim (Option-cases (c.encrypt s key)) [
      | inl thrown ↦ grind (arith, thrown)
      | inr (t, e) ↦
          let colon = laws.colon-encrypt s t e in
          let undone = laws.decrypt-encrypt s t e in
          let filled : str_eq t "" ≡ false = colon_text-filled t colon in
          grind (arith, e, colon, undone, filled)
    ]
    decrypting-encrypting none = refl
    decrypting-encrypting (some null) = refl
    decrypting-encrypting (some (bool b)) = refl
    decrypting-encrypting (some (num n)) = refl
    decrypting-encrypting (some (arr m)) = refl
    decrypting-encrypting (some (obj m)) = refl

    decrypting-after_key :
        (name other : String) (params changed : Members)
        → process_key c key encrypting name params ≡ some changed
        → processed c key decrypting (get other changed)
          ≡ processed c key decrypting (get other params)
    decrypting-after_key name other params changed e =
        let same = after_key-done c key encrypting name params changed e in
        ap (λ (m : Members). processed c key decrypting (get other m)) (sym same)
        ∙ ap (processed c key decrypting) (get-after_key c key encrypting name other params)
        ∙ elim (Bool-cases (str_eq name other)) [
          | inl own ↦ rw own (decrypting-encrypting (get other params))
          | inr apart ↦ rw apart refl
        ]

    decrypting-encrypted :
        (names : List String) (other : String) (params : Members)
        → processed c key decrypting (get other (process_keys c key encrypting names params))
          ≡ processed c key decrypting (get other params)
    unfolding process_keys
    decrypting-encrypted [] other params = refl
    decrypting-encrypted (name ∷ names) other params =
        elim (Option-cases (process_key c key encrypting name params)) [
          | inl thrown ↦ rw (thrown, process_keys) refl
          | inr (changed, e) ↦
              rw (e, process_keys)
                (decrypting-encrypted names other changed
                  ∙ decrypting-after_key name other params changed e)
        ]

    get-others :
        (names : List String) (other : String) (params : Members)
        → member other names ≡ false
        → get other (process_keys c key encrypting names params) ≡ get other params
    unfolding process_keys member
    get-others [] other params apart = refl
    get-others (name ∷ names) other params apart =
        elim (Option-cases (process_key c key encrypting name params)) [
          | inl thrown ↦ rw (thrown, process_keys) refl
          | inr (changed, e) ↦
              let same = after_key-done c key encrypting name params changed e in
              let kept = get-after_key c key encrypting name other params in
              let apart_one : str_eq name other ≡ false = ground (arith, apart) in
              rw (e, process_keys)
                (get-others names other changed (ground (arith, apart))
                  ∙ ap (get other) (sym same)
                  ∙ rw apart_one at kept)
        ]

    -- Under a cipher whose decryption undoes its encryption, saving with encryption and loading with
    -- decryption give back every parameter that is not a sensitive text with a colon, where encryption
    -- throws too.
    pub process_keys-round_trip :
        (names : List String) (params : Members) (other : String)
        → (member other names ≡ true → IsPlain c key (get other params))
        → get other
            (process_keys c key decrypting names (process_keys c key encrypting names params))
          ≡ get other params
    process_keys-round_trip names params other plain =
        let dec = processed c key decrypting in
        let sealed = process_keys c key encrypting names params in
        get-decrypted names other sealed ∙ elim (Bool-cases (member other names)) [
          | inr apart ↦
              pass-other dec names other (get other sealed) apart
              ∙ get-others names other params apart
          | inl own ↦
              let undone =
                decrypting-encrypted names other params
                ∙ decrypting-plain (get other params) (plain own) in
              pass-member dec names other (get other sealed)
                (ap dec undone ∙ decrypting-plain (get other params) (plain own) ∙ sym undone) own
              ∙ undone
        ]
