-- ===== src/Dict.antt =====
-- JavaScript objects used as dictionaries: association lists in insertion order.
use azan_dashboard.Prelude.{
  String, ◌≡◌, refl, Option, none, some, List, [], ◌∷◌, arith, eq_iff, str_eq, if◌then◌else◌,
  or_else, ap, ◌∙◌, Bool-cases, inl, inr,
}
use mathlib.Core.Path.{subst}

abbrev pub Dict {ℓ} : Type ℓ → Type ℓ
Dict V = List (String × V)

module _ {ℓ} {V : Type ℓ} where
  -- `m[key]`, `none` for `undefined`
  unfoldable pub lookup : String → Dict V → Option V
  lookup key [] = none
  lookup key ((k, v) ∷ rest) = if str_eq k key then some v else lookup key rest

  -- `m[key] = new`: a key keeps its place, a new one goes last.
  unfoldable pub insert : String → V → Dict V → Dict V
  insert key new [] = (key, new) ∷ []
  insert key new ((k, old) ∷ rest) =
      if str_eq k key then (key, new) ∷ rest else (k, old) ∷ insert key new rest

  -- `delete m[key]`
  unfoldable pub remove : String → Dict V → Dict V
  remove key [] = []
  remove key ((k, v) ∷ m) = let rest = remove key m in if str_eq k key then rest else (k, v) ∷ rest

  -- `{ ...a, ...b }`
  unfoldable pub spread : Dict V → Dict V → Dict V
  unfolding insert
  spread a [] = a
  spread a ((k, v) ∷ b) = spread (insert k v a) b

  pub lookup-insert :
      (key other : String) (new : V) (m : Dict V)
      → lookup other (insert key new m) ≡ (if str_eq key other then some new else lookup other m)
  unfolding insert lookup
  lookup-insert key other new [] = refl
  lookup-insert key other new ((k, old) ∷ rest) =
      ground
        (arith, lookup-insert key other new rest, eq_iff k other, eq_iff k key, eq_iff key other)

  pub lookup-remove :
      (key other : String) (m : Dict V)
      → lookup other (remove key m) ≡ (if str_eq key other then none else lookup other m)
  unfolding remove lookup
  lookup-remove key other [] = ground arith
  lookup-remove key other ((k, old) ∷ rest) =
      ground (arith, lookup-remove key other rest, eq_iff k other, eq_iff k key, eq_iff key other)

  -- An object has each key once.
  abbrev pub HasDistinctKeys : Dict V → Type ℓ
  HasDistinctKeys [] = Unit
  HasDistinctKeys ((k, v) ∷ m) = (lookup k m ≡ none) × HasDistinctKeys m

  pub lookup-spread :
      (k : String) (a b : Dict V)
      → HasDistinctKeys b
      → lookup k (spread a b) ≡ or_else (lookup k b) (lookup k a)
  unfolding lookup spread
  lookup-spread k a [] h = refl
  lookup-spread k a ((j, v) ∷ b) (fresh, h) =
      lookup-spread k (insert j v a) b h
      ∙ ground (arith, lookup-insert j k v a, eq_iff j k, ap (λ (i : String). lookup i b))

  pub insert-HasDistinctKeys :
      (id : String) (new : V) (m : Dict V) → HasDistinctKeys m → HasDistinctKeys (insert id new m)
  unfolding insert lookup
  insert-HasDistinctKeys id new [] h = (refl, tt)
  insert-HasDistinctKeys id new ((k, old) ∷ rest) (fresh, h) = elim (Bool-cases (str_eq k id)) [
    | inl own ↦
        let here : k ≡ id = ground (arith, eq_iff k id) in
        rw own (subst (λ (x : String). lookup x rest ≡ none) here fresh, h)
    | inr apart ↦ rw apart (
      ground (arith, lookup-insert id k new rest, eq_iff id k, eq_iff k id),
      insert-HasDistinctKeys id new rest h,
    )
  ]
