-- ===== src/Store/Paths.antt =====
-- Values along a path of keys, under the assignments that services/system/migrationService.js and
-- config/ConfigService.js make.
pub mod Frames
use azan_dashboard.Prelude.{
  String, ◌≡◌, refl, ap, sym, ◌∙◌, Option, none, some, List, [], ◌∷◌, arith, str_eq, eq_iff,
  if◌then◌else◌, Bool-cases, inl, inr, eq_refl,
}
use azan_dashboard.Result.{Result, ok, from_bind, Result-cases}
use azan_dashboard.Json.{
  Value, null, bool, num, str, arr, obj, Members, get, put, member, truthy_option,
}
use azan_dashboard.Json.Fields.{get-put, member-falsy}
use azan_dashboard.Json.Merge.{at_path, at_path-none}
use azan_dashboard.Migration.{change_value, change_child, ensure}

-- `leaf` stands at the path in the object.
abbrev pub Has : List String → Value → Members → Type 0
Has path leaf m = at_path path (some (obj m)) ≡ some leaf

-- How a change treats what stands at a path
abbrev pub Keeps : List String → Value → (Members → Result Members) → Type 0
Keeps path leaf change = (c c' : Members) → change c ≡ ok c' → Has path leaf c → Has path leaf c'

abbrev pub Sets : List String → Value → (Members → Result Members) → Type 0
Sets path leaf change = (c c' : Members) → change c ≡ ok c' → Has path leaf c'

-- A change of the members of a value that returns: the members before and after
record Changed (change : Members → Result Members) (v : Option Value) (w : Value) : Type 0 where
  before : Members
  after : Members
  changed : change before ≡ ok after
  member-before : (j : String) → member j v ≡ get j before
  member-after : (j : String) → member j (some w) ≡ get j after

change_value-Changed :
    (change : Members → Result Members) (v : Option Value) (w : Value)
    → change_value change v ≡ ok w
    → Changed change v w
change_value-Changed change none w e = absurd (ground arith)
change_value-Changed change (some (obj c)) w e = elim (Result-cases (change c)) [
  | inr (t, thrown) ↦ absurd (ground arith)
  | inl (c', done) ↦
      let same : obj c' ≡ w = ground arith in
      record {
        before = c;
        after = c';
        changed = done;
        member-before = λ j. refl;
        member-after = λ j. ap (λ (x : Value). member j (some x)) (sym same);
      }
]
change_value-Changed change (some (arr c)) w e = elim (Result-cases (change c)) [
  | inr (t, thrown) ↦ absurd (ground arith)
  | inl (c', done) ↦
      let same : arr c' ≡ w = ground arith in
      record {
        before = c;
        after = c';
        changed = done;
        member-before = λ j. refl;
        member-after = λ j. ap (λ (x : Value). member j (some x)) (sym same);
      }
]
change_value-Changed change (some null) w e = absurd (ground arith)
change_value-Changed change (some (bool b)) w e = absurd (ground arith)
change_value-Changed change (some (num n)) w e = absurd (ground arith)
change_value-Changed change (some (str s)) w e = absurd (ground arith)

module _ (leaf : Value) (j : String) (rest : List String) where
  pub change_child-Sets :
      (key : String) (change : Members → Result Members)
      → Sets (j ∷ rest) leaf change
      → Sets (key ∷ j ∷ rest) leaf (change_child key change)
  unfolding change_child
  change_child-Sets key change inner m m' e =
      let (w, e1, e2) = from_bind (change_value change (get key m)) _ m' e in
      let same : put key w m ≡ m' = ground arith in
      let ch = change_value-Changed change (get key m) w e1 in
      let now : get key m' ≡ some w =
        ap (get key) (sym same) ∙ ground (arith, get-put key key w m, eq_refl key) in
      ap (λ (v : Option Value). at_path rest (member j v)) now
      ∙ ap (at_path rest) (ch.member-after j)
      ∙ inner ch.before ch.after ch.changed

  pub change_child-Keeps :
      (key k : String) (change : Members → Result Members)
      → (key ≡ k → Keeps (j ∷ rest) leaf change)
      → Keeps (k ∷ j ∷ rest) leaf (change_child key change)
  unfolding change_child
  change_child-Keeps key k change inner m m' e has =
      let (w, e1, e2) = from_bind (change_value change (get key m)) _ m' e in
      let same : put key w m ≡ m' = ground arith in
      let ch = change_value-Changed change (get key m) w e1 in
      let read : get k m' ≡ (if str_eq key k then some w else get k m) =
        ap (get k) (sym same) ∙ get-put key k w m in
      ap (λ (v : Option Value). at_path rest (member j v)) read ∙ elim (Bool-cases (str_eq key k)) [
        | inr apart ↦ rw apart has
        | inl own ↦
            let here : key ≡ k = ground (arith, eq_iff key k) in
            let was : at_path rest (get j ch.before) ≡ some leaf =
              ap (at_path rest) (sym (ch.member-before j))
              ∙ ap (λ (x : String). at_path rest (member j (get x m))) here
              ∙ has in
            rw own
              (ap (at_path rest) (ch.member-after j) ∙ inner here ch.before ch.after ch.changed was)
      ]

  -- An object that is made where one is missing is not on a path that is there.
  pub ensure-Has :
      (key k : String) (made : Value) (m : Members)
      → Has (k ∷ j ∷ rest) leaf m
      → Has (k ∷ j ∷ rest) leaf (ensure key made m)
  ensure-Has key k made m has = elim (Bool-cases (truthy_option (get key m))) [
    | inl filled ↦ rw filled has
    | inr falsy ↦ elim (Bool-cases (str_eq key k)) [
      | inr apart ↦ rw falsy (
          ap (λ (v : Option Value). at_path rest (member j v))
            (ground (arith, get-put key k made m))
          ∙ has)
      | inl own ↦
          let here : key ≡ k = ground (arith, eq_iff key k) in
          let gone : member j (get k m) ≡ none =
            ap (λ (x : String). member j (get x m)) (sym here) ∙ member-falsy j (get key m) falsy in
          let none_here : none ≡ some leaf =
            sym (at_path-none rest) ∙ ap (at_path rest) (sym gone) ∙ has in
          absurd (ground arith)
    ]
  ]

pub put-Keeps :
    (leaf w : Value) (key k : String)
    → (key ≡ k → w ≡ leaf)
    → Keeps (k ∷ []) leaf (λ m. ok (put key w m))
put-Keeps leaf w key k own m m' e has =
    let same : put key w m ≡ m' = ground arith in
    ap (get k) (sym same) ∙ get-put key k w m ∙ elim (Bool-cases (str_eq key k)) [
      | inr apart ↦ rw apart has
      | inl here ↦ rw here (ap some (own (ground (arith, eq_iff key k))))
    ]

pub put-Sets : (leaf : Value) (key : String) → Sets (key ∷ []) leaf (λ m. ok (put key leaf m))
put-Sets leaf key m m' e =
    let same : put key leaf m ≡ m' = ground arith in
    ap (get key) (sym same) ∙ ground (arith, get-put key key leaf m, eq_refl key)
