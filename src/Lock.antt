-- ===== src/Lock.antt =====
-- utils/asyncLock.js: calls that share a promise while it is in flight. A promise is its number, and
-- an operation that runs is a Run.
pub mod Single
pub mod Fetches
mod Tests
use azan_dashboard.Prelude.{
  ℕ, suc, String, Bool, true, false, Option, none, some, List, [], ◌∷◌, ◌++◌,
}
use azan_dashboard.Dict.{Dict, lookup, insert, remove}

pub record Run : Type 0 where
  pub key : String
  pub promise : ℕ

-- `pending`, the operations that have not settled, and the next promise
pub record Lock : Type 0 where
  pub pending : Dict ℕ
  pub active : List Run
  pub next_promise : ℕ

abbrev pub new_lock : Lock
new_lock = record { pending = []; active = []; next_promise = 0 }

-- How `fn()` begins: it returns a promise, or throws at once.
pub data Start : Type 0 where
  awaits throws : Start

-- The part of `run` where the key is not pending. An operation that throws at once settles before
-- `pending.set` is reached, so that its `finally` deletes nothing.
unfoldable pub launch : String → Start → Lock → ℕ × Lock
launch key awaits s = (
  s.next_promise,
  record {
    pending = insert key s.next_promise s.pending;
    active = s.active ++ (record { key = key; promise = s.next_promise }) ∷ [];
    next_promise = suc s.next_promise;
  },
)
launch key throws s = (
  s.next_promise,
  record {
    pending = insert key s.next_promise (remove key s.pending);
    active = s.active;
    next_promise = suc s.next_promise;
  },
)

-- run(key, fn): the promise that is returned
unfoldable pub run : String → Start → Lock → ℕ × Lock
unfolding launch
run key start s = elim (lookup key s.pending) [ some p ↦ (p, s) | none ↦ launch key start s ]

-- An active operation, the one between `before` and `after`, settles: `finally` deletes its key.
unfoldable pub settle : List Run → Run → List Run → Lock → Lock
settle before r after s = record s { active = before ++ after; pending = remove r.key s.pending }
