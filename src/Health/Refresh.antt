-- ===== src/Health/Refresh.antt =====
-- refresh of services/system/healthCheck.js: the entries that it changes.
use azan_dashboard.Prelude.{
  String, ◌≡◌, refl, ap, ◌∙◌, Bool, Option, some, List, [], ◌∷◌, arith, str_eq, eq_iff,
  if◌then◌else◌, Bool-cases, inl, inr,
}
use azan_dashboard.Dict.{lookup, insert, HasDistinctKeys, lookup-insert, lookup-spread}
use azan_dashboard.Settings.{member}
use azan_dashboard.Health.{Status, Cache, Env, init, stamp, targets_of, updates, refresh}

insert-HasDistinctKeys :
    (key : String) (new : Status) (m : Cache)
    → HasDistinctKeys m
    → HasDistinctKeys (insert key new m)
unfolding insert lookup
insert-HasDistinctKeys key new [] h = (refl, tt)
insert-HasDistinctKeys key new ((k, v) ∷ m) (fresh, h) = elim (Bool-cases (str_eq k key)) [
  | inl found ↦
      rw (found, insert) (ground (arith, eq_iff k key, ap (λ (x : String). lookup x m)), h)
  | inr other ↦
      rw (other, insert)
        (
          ground (arith, lookup-insert key k new m, eq_iff k key, eq_iff key k),
          insert-HasDistinctKeys key new m h,
        )
]

module _ (env : Env) (force : Bool) (cache : Cache) where
  updates-HasDistinctKeys :
      (ts : List String) (done : Cache)
      → HasDistinctKeys done
      → HasDistinctKeys (updates env force cache ts done)
  updates-HasDistinctKeys [] done h = h
  updates-HasDistinctKeys (t ∷ ts) done h =
      updates-HasDistinctKeys ts (insert t (stamp env force cache t) done)
        (insert-HasDistinctKeys t (stamp env force cache t) done h)

  lookup-updates :
      (key : String) (ts : List String) (done : Cache)
      → lookup key (updates env force cache ts done)
        ≡ (if member key ts then some (stamp env force cache key) else lookup key done)
  unfolding member
  lookup-updates key [] done = refl
  lookup-updates key (t ∷ ts) done =
      lookup-updates key ts (insert t (stamp env force cache t) done)
      ∙ ground (
        arith,
        lookup-insert t key (stamp env force cache t) done,
        eq_iff t key,
        ap (stamp env force cache),
      )

-- A refresh replaces the entries of exactly its targets, each by what the target's own check gives
-- against the cache as it was; every other entry stays as it is.
pub lookup-refresh :
    (env : Env) (target : String) (force : Bool) (state : Option Cache) (key : String)
    → lookup key (refresh env target force state) ≡ (
        if member key (targets_of env target)
        then some (stamp env force (init env state) key)
        else lookup key (init env state))
unfolding refresh lookup
lookup-refresh env target force state key =
    let cache = init env state in
    let ts = targets_of env target in
    lookup-spread key cache (updates env force cache ts [])
      (updates-HasDistinctKeys env force cache ts [] tt)
    ∙ ground (arith, lookup-updates env force cache key ts [])
