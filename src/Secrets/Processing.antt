-- ===== src/Secrets/Processing.antt =====
-- _processSensitiveFields of config/ConfigService.js: what becomes of each sensitive key of one
-- object.
use azan_dashboard.Prelude.{
  String, Bool, ◌||◌, ◌≡◌, ◌≢◌, refl, ap, ◌∙◌, sym, true, false, inl, inr, Option, none, some, List,
  [], ◌∷◌, arith, str_eq, eq_iff, if◌then◌else◌, Bool-cases,
}
use azan_dashboard.Text.{includes}
use azan_dashboard.Settings.{member}
use azan_dashboard.Json.{Value, null, bool, num, str, arr, obj, Members, get}
use mathlib.Core.Path.{subst}
use azan_dashboard.Json.Fields.{get-put}
use azan_dashboard.Secrets.{
  Cipher, has_colon, masked, Mode, encrypting, decrypting, process_text, process_key, process_keys,
}

-- What may be saved of a sensitive value: no text but an empty, a masked or an encrypted one
abbrev is_sealed : Option Value → Bool
is_sealed (some (str s)) = str_eq s "" || (str_eq s masked || has_colon s)
is_sealed _ = true

abbrev pub IsSealed : Option Value → Type 0
IsSealed v = is_sealed v ≡ true

-- What a value becomes when an effect runs for each of the names that is its own.
abbrev pub pass : (Option Value → Option Value) → List String → String → Option Value → Option Value
pass f [] other v = v
pass f (name ∷ names) other v = pass f names other (if str_eq name other then f v else v)

module _ (f : Option Value → Option Value) where
  pub pass-other :
      (names : List String) (other : String) (v : Option Value)
      → member other names ≡ false
      → pass f names other v ≡ v
  unfolding member
  pass-other [] other v h = refl
  pass-other (name ∷ names) other v h = ground (arith, pass-other names other v)

  pub pass-member :
      (names : List String) (other : String) (v : Option Value)
      → f (f v) ≡ f v
      → member other names ≡ true
      → pass f names other v ≡ f v
  unfolding member
  pass-member [] other v idem h = absurd (ground arith)
  pass-member (name ∷ names) other v idem h = elim (Bool-cases (str_eq name other)) [
    | inr apart ↦ rw apart (pass-member names other v idem (ground arith))
    | inl own ↦ elim (Bool-cases (member other names)) [
      | inr last ↦ rw own (pass-other names other (f v) last)
      | inl more ↦ rw own (pass-member names other (f v) (ap f idem) more ∙ idem)
    ]
  ]

module _ (c : Cipher) (key : String) where
  -- The text itself where its encryption throws
  abbrev pub or_plain : String → Option String → String
  or_plain s none = s
  or_plain s (some t) = t

  -- What a sensitive value becomes
  unfoldable pub processed : Mode → Option Value → Option Value
  unfolding process_text
  processed mode (some (str s)) =
      if str_eq s "" then some (str s) else some (str (or_plain s (process_text c key mode s)))
  processed mode v = v

  -- One key, with what it leaves where it throws
  unfoldable pub after_key : Mode → String → Members → Members
  unfolding process_key
  after_key mode name params = elim (process_key c key mode name params) [
    | none ↦ params
    | some changed ↦ changed
  ]

  pub after_key-done :
      (mode : Mode) (name : String) (params changed : Members)
      → process_key c key mode name params ≡ some changed
      → after_key mode name params ≡ changed
  unfolding after_key
  after_key-done mode name params changed e = rw (e, after_key) refl

  pub get-after_key :
      (mode : Mode) (name other : String) (params : Members)
      → get other (after_key mode name params)
        ≡ (if str_eq name other then processed mode (get other params) else get other params)
  unfolding after_key process_key processed process_text
  get-after_key mode name other params = elim (Bool-cases (str_eq name other)) [
    | inl own ↦ grind (arith, get-put, eq_iff name other, ap (λ (x : String). get x params))
    | inr apart ↦ grind (arith, get-put)
  ]

  -- A value that can be saved: not a text with a colon, which is taken for an encrypted one.
  abbrev pub IsPlain : Option Value → Type 0
  IsPlain (some (str s)) = has_colon s ≡ false
  IsPlain _ = Unit

  -- What is relied on: the salt is set, so that encryption succeeds; it gives `iv:tag:text`, and
  -- decryption under the same key undoes it.
  pub record IsCipher : Type 0 where
    pub cipher_text : String → String
    pub encrypt-cipher_text : (s : String) → c.encrypt s key ≡ some (cipher_text s)
    pub colon-cipher_text : (s : String) → has_colon (cipher_text s) ≡ true
    pub decrypt-cipher_text : (s : String) → c.decrypt (cipher_text s) key ≡ some s

  module _ (laws : IsCipher) where
    cipher_text-filled : (s : String) → laws.cipher_text s ≢ ""
    unfolding includes
    cipher_text-filled s e = ground (arith, laws.colon-cipher_text s, ap has_colon e)

    process_key-after_key :
        (mode : Mode) (name : String) (params : Members)
        → process_key c key mode name params ≡ some (after_key mode name params)
    unfolding after_key process_key process_text
    process_key-after_key encrypting name params = grind (arith, laws.encrypt-cipher_text)
    process_key-after_key decrypting name params = grind arith

    get-process_keys :
        (mode : Mode) (names : List String) (other : String) (params : Members)
        → get other (process_keys c key mode names params)
          ≡ pass (processed mode) names other (get other params)
    unfolding process_keys
    get-process_keys mode [] other params = refl
    get-process_keys mode (name ∷ names) other params =
        rw (process_key-after_key mode name params, process_keys)
          (get-process_keys mode names other (after_key mode name params)
            ∙ ap (pass (processed mode) names other) (get-after_key mode name other params))

    encrypting_idem :
        (v : Option Value) → processed encrypting (processed encrypting v) ≡ processed encrypting v
    unfolding processed process_text
    encrypting_idem v =
        grind (arith, laws.encrypt-cipher_text, laws.colon-cipher_text, cipher_text-filled, eq_iff)

    processed-IsSealed : (v : Option Value) → IsSealed (processed encrypting v)
    unfolding processed process_text
    processed-IsSealed (some (str s)) =
        grind (arith, laws.encrypt-cipher_text, laws.colon-cipher_text)
    processed-IsSealed none = refl
    processed-IsSealed (some null) = refl
    processed-IsSealed (some (bool b)) = refl
    processed-IsSealed (some (num n)) = refl
    processed-IsSealed (some (arr m)) = refl
    processed-IsSealed (some (obj m)) = refl

    pub process_keys-IsSealed :
        (names : List String) (params : Members) (name : String)
        → member name names ≡ true
        → IsSealed (get name (process_keys c key encrypting names params))
    process_keys-IsSealed names params name own =
        let saved =
          get-process_keys encrypting names name params
          ∙ pass-member (processed encrypting) names name (get name params)
              (encrypting_idem (get name params)) own in
        subst IsSealed (sym saved) (processed-IsSealed (get name params))

    -- Where encryption succeeds, a sensitive text is saved encrypted if it is neither empty nor masked
    -- and has no colon; one with a colon is saved as it is.
    pub process_keys-saved :
        (names : List String) (params : Members) (name s : String)
        → member name names ≡ true
        → get name params ≡ some (str s)
        → s ≢ ""
        → s ≢ masked
        → get name (process_keys c key encrypting names params)
          ≡ some (str (if has_colon s then s else laws.cipher_text s))
    unfolding processed process_text
    process_keys-saved names params name s own found filled shown =
        get-process_keys encrypting names name params
        ∙ pass-member (processed encrypting) names name (get name params)
            (encrypting_idem (get name params)) own
        ∙ ground (arith, laws.encrypt-cipher_text s, eq_iff s "", eq_iff s masked)
