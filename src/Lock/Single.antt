-- ===== src/Lock/Single.antt =====
-- run of utils/asyncLock.js: the operations in flight for a key.
use azan_dashboard.Prelude.{
  ℕ, suc, ◌+◌, ◌≤◌, String, ◌≡◌, refl, ap, Option, none, some, List, [], ◌∷◌, ◌++◌, arith,
  Option-cases, inl, inr, if◌then◌else◌, str_eq, eq_iff, eq_refl,
}
use azan_dashboard.Dict.{lookup, remove, lookup-insert, lookup-remove}
use azan_dashboard.Lock.{Run, Lock, new_lock, Start, awaits, throws, launch, run, settle}

-- The number of operations of a key that are in flight.
unfoldable pub in_flight : String → List Run → ℕ
in_flight key [] = 0
in_flight key (r ∷ rs) = let rest = in_flight key rs in if str_eq r.key key then suc rest else rest

abbrev one_if_some : Option ℕ → ℕ
one_if_some none = 0
one_if_some (some p) = 1

-- A key is pending exactly while its operation is in flight.
pub record IsSingle (s : Lock) : Type 0 where
  pub counted : (key : String) → in_flight key s.active ≡ one_if_some (lookup key s.pending)

in_flight-append :
    (key : String) (xs ys : List Run)
    → in_flight key (xs ++ ys) ≡ in_flight key xs + in_flight key ys
unfolding in_flight
in_flight-append key [] ys = omega arith
in_flight-append key (x ∷ xs) ys = ground (arith, in_flight-append key xs ys)

run-IsSingle : (key : String) (s : Lock) → IsSingle s → IsSingle (run key awaits s).1
unfolding run launch in_flight
run-IsSingle key s h = elim (Option-cases (lookup key s.pending)) [
  | inr (p, busy) ↦ rw (busy, run) h
  | inl idle ↦
      rw (idle, run)
        (record {
          counted = λ k. ground (
            arith,
            h.counted k,
            in_flight-append k s.active ((record { key = key; promise = s.next_promise }) ∷ []),
            lookup-insert key k s.next_promise s.pending,
            eq_iff key k,
          );
        })
]

settle-IsSingle :
    (before after : List Run) (r : Run) (s : Lock)
    → s.active ≡ before ++ r ∷ after
    → IsSingle s
    → IsSingle (settle before r after s)
unfolding settle in_flight
settle-IsSingle before after r s e h = record {
  counted = λ k.
      let whole : in_flight k s.active ≡ in_flight k (before ++ r ∷ after) = ap (in_flight k) e in
      ground (
        arith,
        whole,
        h.counted k,
        in_flight-append k before (r ∷ after),
        in_flight-append k before after,
        lookup-remove r.key k s.pending,
        eq_iff r.key k,
      );
}

-- Calls whose operation awaits, and operations that settle, in any order.
pub data Reach : Lock → Type 0 where
  created : Reach new_lock
  called : (key : String) (s : Lock) → Reach s → Reach (run key awaits s).1
  settled :
      (before after : List Run) (r : Run) (s : Lock)
      → s.active ≡ before ++ r ∷ after
      → Reach s
      → Reach (settle before r after s)

Reach-IsSingle : {s : Lock} → Reach s → IsSingle s
unfolding in_flight lookup
Reach-IsSingle created = record { counted = λ key. refl }
Reach-IsSingle (called key s r) = run-IsSingle key s (Reach-IsSingle r)
Reach-IsSingle (settled before after r s e h) =
    settle-IsSingle before after r s e (Reach-IsSingle h)

-- However calls and settlements interleave, a key never has two operations in flight, as long as no
-- operation throws before its first await.
pub in_flight-Reach : (key : String) (s : Lock) → Reach s → in_flight key s.active ≤ 1
in_flight-Reach key s h = ground (arith, (Reach-IsSingle h).counted key)

-- After a call whose operation awaits, and until that operation settles, a second call of the key
-- returns the same promise and changes nothing, whatever its own operation is.
pub run-shared :
    (key : String) (start : Start) (s : Lock)
    → run key start (run key awaits s).1 ≡ ((run key awaits s).0, (run key awaits s).1)
unfolding run launch
run-shared key start s = elim (Option-cases (lookup key s.pending)) [
  | inr (p, busy) ↦ ground arith
  | inl idle ↦ ground (arith, lookup-insert key key s.next_promise s.pending, eq_refl key)
]

-- An operation that throws before its first await leaves its rejected promise pending although
-- nothing is in flight for it: every further call of the key gets that promise and starts nothing.
pub run-throws :
    (key : String) (start : Start) (s : Lock)
    → lookup key s.pending ≡ none
    → ((run key throws s).1.active ≡ s.active)
      × (run key start (run key throws s).1 ≡ ((run key throws s).0, (run key throws s).1))
unfolding run launch
run-throws key start s idle =
    ground (arith, lookup-insert key key s.next_promise (remove key s.pending), eq_refl key)
