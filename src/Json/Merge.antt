-- ===== src/Json/Merge.antt =====
-- _mergeDeep of config/ConfigService.js, along paths of keys.
use azan_dashboard.Prelude.{
  String, ◌≡◌, refl, ap, ◌∙◌, sym, true, false, Option, none, some, arith, eq_iff, str_eq,
  Bool-cases, Option-cases, inl, inr, List, [], ◌∷◌,
}
use azan_dashboard.Json.{
  Value, arr, obj, Members, end, field, get, put, member, is_guarded, merge_members, merge_value,
  merge_deep,
}
use azan_dashboard.Json.Fields.{get-put}
use mathlib.Core.Path.{subst}
use mathlib.Core.Option.{some-injective}

-- An object has each key once.
abbrev pub HasDistinctKeys : Members → Type 0
HasDistinctKeys end = Unit
HasDistinctKeys (field k v rest) = (get k rest ≡ none) × HasDistinctKeys rest

-- What a key of the target becomes by what the source has for it
abbrev pub merge_option : Option Value → Option Value → Option Value
merge_option old none = old
merge_option old (some v) = some (merge_value v old)

merge_members-guarded :
    (key : String) (t m : Members) → is_guarded key ≡ true → get key (merge_members t m) ≡ get key t
unfolding merge_members
merge_members-guarded key t end g = refl
merge_members-guarded key t (field k v rest) g = elim (Bool-cases (is_guarded k)) [
  | inl skipped ↦ rw (skipped, merge_members) (merge_members-guarded key t rest g)
  | inr free ↦
      rw (free, merge_members)
        (merge_members-guarded key (put k (merge_value v (get k t)) t) rest g
          ∙ ground (arith, get-put k key (merge_value v (get k t)) t, eq_iff k key, ap is_guarded))
]

merge_members-get :
    (key : String) (t m : Members)
    → HasDistinctKeys m
    → is_guarded key ≡ false
    → get key (merge_members t m) ≡ merge_option (get key t) (get key m)
unfolding merge_members get
merge_members-get key t end h g = refl
merge_members-get key t (field k v rest) (fresh, h) g = elim (Bool-cases (is_guarded k)) [
  | inl skipped ↦
      rw (skipped, merge_members)
        (merge_members-get key t rest h g ∙ ground (arith, eq_iff k key, ap is_guarded))
  | inr free ↦
      let new = merge_value v (get k t) in
      rw (free, merge_members)
        (merge_members-get key (put k new t) rest h g
          ∙ ground (
            arith,
            get-put k key new t,
            eq_iff k key,
            ap (λ (x : String). get x rest),
            ap (λ (x : String). get x t),
          ))
]

-- `v[key1][key2]…`, `none` where a key is missing
abbrev pub at_path : List String → Option Value → Option Value
at_path [] v = v
at_path (key ∷ keys) v = at_path keys (member key v)

pub at_path-none : (keys : List String) → at_path keys none ≡ none
at_path-none [] = refl
at_path-none (key ∷ keys) = at_path-none keys

-- A value that a merge overwrites with: anything but an object
abbrev pub IsLeaf : Value → Type 0
IsLeaf (obj m) = false ≡ true
IsLeaf _ = Unit

abbrev pub IsFree : List String → Type 0
IsFree [] = Unit
IsFree (key ∷ keys) = (is_guarded key ≡ false) × IsFree keys

-- Objects have each key once, at every depth.
abbrev mutual
  pub IsTree : Value → Type 0
  IsTree (obj m) = HasDistinctKeys m × AreTrees m
  IsTree _ = Unit

  pub AreTrees : Members → Type 0
  AreTrees end = Unit
  AreTrees (field k v rest) = IsTree v × AreTrees rest

get-IsTree : (key : String) (v : Value) (m : Members) → AreTrees m → get key m ≡ some v → IsTree v
unfolding get
get-IsTree key v end h e = absurd (ground arith)
get-IsTree key v (field k w rest) (h, hs) e = elim (Bool-cases (str_eq k key)) [
  | inl found ↦ let same : w ≡ v = some-injective _ _ (ground arith) in subst IsTree same h
  | inr other ↦ get-IsTree key v rest hs (ground arith)
]

module _ (leaf : Value) (is_leaf : IsLeaf leaf) where
  -- What an object of the target becomes keeps the path, if what it holds at the first key does.
  at_path-merge_members :
      (key : String) (keys : List String) (t m : Members) (v : Value)
      → HasDistinctKeys m
      → is_guarded key ≡ false
      → get key m ≡ some v
      → at_path keys (some (merge_value v (get key t))) ≡ some leaf
      → at_path keys (get key (merge_members t m)) ≡ some leaf
  at_path-merge_members key keys t m v h free found e =
      rw (merge_members-get key t m h free, found) e

  at_path-merge_value :
      (keys : List String) (old : Option Value) (v : Value)
      → IsTree v
      → IsFree keys
      → at_path keys (some v) ≡ some leaf
      → at_path keys (some (merge_value v old)) ≡ some leaf
  unfolding merge_value
  at_path-merge_value [] old (obj m) h free e =
      let bad : false ≡ true = subst IsLeaf (some-injective _ _ (sym e)) is_leaf in
      absurd (ground arith)
  at_path-merge_value (key ∷ keys) old (obj m) (h, hs) (f, free) e =
      elim (Option-cases (get key m)) [
        | inl missing ↦
            let gone : none ≡ some leaf = sym (at_path-none keys) ∙ rw missing at e in
            absurd (ground arith)
        | inr (v, found) ↦
            let below : at_path keys (some v) ≡ some leaf = rw found at e in
            let inner = λ (w : Option Value).
              at_path-merge_value keys w v (get-IsTree key v m hs found) free below in
            go old (λ t. at_path-merge_members key keys t m v h f found (inner (get key t)))
      ]
    where
      go :
          (o : Option Value)
          → ((t : Members) → at_path keys (get key (merge_members t m)) ≡ some leaf)
          → at_path (key ∷ keys) (some (merge_value (obj m) o)) ≡ some leaf
      go none k = k end
      go (some (obj t)) k = k t
      go (some (arr t)) k = k t
      go (some w) k = k end
  at_path-merge_value keys old v h free e = e

-- Merging one object over another, every value of the second that is not an object wins: read along
-- a path of keys none of which is guarded, the merge has what the second object has there.
pub merge_deep-at_path :
    (leaf : Value) (key : String) (keys : List String) (t m : Members)
    → IsLeaf leaf
    → IsTree (obj m)
    → IsFree (key ∷ keys)
    → at_path (key ∷ keys) (some (obj m)) ≡ some leaf
    → at_path (key ∷ keys) (some (merge_deep (obj t) (obj m))) ≡ some leaf
unfolding merge_deep merge_members
merge_deep-at_path leaf key keys t m is_leaf tree free e =
    at_path-merge_value leaf is_leaf (key ∷ keys) (some (obj t)) (obj m) tree free e
