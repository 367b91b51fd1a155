-- ===== src/Store/Paths/Frames.antt =====
-- Assignments of services/system/migrationService.js that leave a path alone, filled or not.
use azan_dashboard.Prelude.{
  String, ◌≡◌, refl, ap, sym, ◌∙◌, Option, none, some, List, [], ◌∷◌, arith, false, str_eq, eq_iff,
  if◌then◌else◌, Bool-cases, inl, inr,
}
use azan_dashboard.Result.{Result, ok, from_bind}
use azan_dashboard.Json.{Value, obj, Members, get, put, member, truthy_option}
use azan_dashboard.Json.Fields.{get-put, member-falsy}
use azan_dashboard.Json.Merge.{at_path, at_path-none}
use azan_dashboard.Migration.{change_value, change_child, ensure}
use azan_dashboard.Store.Paths.{change_value-Changed}

-- The change leaves what stands at the path.
abbrev pub Frames : List String → (Members → Result Members) → Type 0
Frames path change =
    (c c' : Members) → change c ≡ ok c' → at_path path (some (obj c')) ≡ at_path path (some (obj c))

module _ (j : String) (rest : List String) where
  pub change_child-Frames :
      (key k : String) (change : Members → Result Members)
      → (key ≡ k → Frames (j ∷ rest) change)
      → Frames (k ∷ j ∷ rest) (change_child key change)
  unfolding change_child
  change_child-Frames key k change inner m m' e =
      let (w, e1, e2) = from_bind (change_value change (get key m)) _ m' e in
      let same : put key w m ≡ m' = ground arith in
      let ch = change_value-Changed change (get key m) w e1 in
      let read : get k m' ≡ (if str_eq key k then some w else get k m) =
        ap (get k) (sym same) ∙ get-put key k w m in
      ap (λ (v : Option Value). at_path rest (member j v)) read ∙ elim (Bool-cases (str_eq key k)) [
        | inr apart ↦ rw apart refl
        | inl own ↦
            let here : key ≡ k = ground (arith, eq_iff key k) in
            rw own (
              ap (at_path rest) (ch.member-after j)
              ∙ inner here ch.before ch.after ch.changed
              ∙ ap (at_path rest) (sym (ch.member-before j))
              ∙ ap (λ (x : String). at_path rest (member j (get x m))) here)
      ]

  pub ensure-Frames :
      (key k : String) (made : Value) (m : Members)
      → at_path rest (member j (some made)) ≡ none
      → at_path (k ∷ j ∷ rest) (some (obj (ensure key made m)))
        ≡ at_path (k ∷ j ∷ rest) (some (obj m))
  ensure-Frames key k made m bare = elim (Bool-cases (truthy_option (get key m))) [
    | inl filled ↦ rw filled refl
    | inr falsy ↦ elim (Bool-cases (str_eq key k)) [
      | inr apart ↦ rw falsy (
          ap (λ (v : Option Value). at_path rest (member j v))
            (ground (arith, get-put key k made m)))
      | inl own ↦
          let here : key ≡ k = ground (arith, eq_iff key k) in
          let gone : member j (get k m) ≡ none =
            ap (λ (x : String). member j (get x m)) (sym here) ∙ member-falsy j (get key m) falsy in
          let set : get k (put key made m) ≡ some made = ground (arith, get-put key k made m) in
          rw falsy (
            ap (λ (v : Option Value). at_path rest (member j v)) set
            ∙ bare
            ∙ sym (at_path-none rest)
            ∙ ap (at_path rest) (sym gone))
    ]
  ]

pub put-Frames :
    (w : Value) (key k : String) → str_eq key k ≡ false → Frames (k ∷ []) (λ m. ok (put key w m))
put-Frames w key k apart m m' e =
    let same : put key w m ≡ m' = ground arith in
    ap (get k) (sym same) ∙ get-put key k w m ∙ rw apart refl
