-- ===== src/Json/Guard.antt =====
-- _mergeDeep of config/ConfigService.js: the keys that it guards against.
use azan_dashboard.Prelude.{String, ◌≡◌, false, Option, none, some, str_eq, Bool-cases, inl, inr}
use azan_dashboard.Json.{
  Value, arr, obj, Members, end, field, get, put, is_guarded, merge_members, merge_value,
  merge_deep,
}

-- No object has a guarded key, at any depth outside arrays, which a merge copies whole.
abbrev mutual
  pub IsClean : Value → Type 0
  IsClean (obj m) = AreClean m
  IsClean _ = Unit

  pub AreClean : Members → Type 0
  AreClean end = Unit
  AreClean (field k v rest) = (is_guarded k ≡ false) × IsClean v × AreClean rest

put-AreClean :
    (key : String) (v : Value) (m : Members)
    → is_guarded key ≡ false
    → IsClean v
    → AreClean m
    → AreClean (put key v m)
unfolding put
put-AreClean key v end free h hs = (free, h, tt)
put-AreClean key v (field k w rest) free h (f, c, cs) = elim (Bool-cases (str_eq k key)) [
  | inl found ↦ rw (found, put) (free, h, cs)
  | inr other ↦ rw (other, put) (f, c, put-AreClean key v rest free h cs)
]

abbrev IsCleanOption : Option Value → Type 0
IsCleanOption none = Unit
IsCleanOption (some v) = IsClean v

get-IsClean : (key : String) (m : Members) → AreClean m → IsCleanOption (get key m)
unfolding get
get-IsClean key end h = tt
get-IsClean key (field k w rest) (f, c, cs) = elim (Bool-cases (str_eq k key)) [
  | inl found ↦ rw (found, get) c
  | inr other ↦ rw (other, get) (get-IsClean key rest cs)
]

mutual
  unfolding merge_members

  merge_members-AreClean : (t m : Members) → AreClean t → AreClean (merge_members t m)
  merge_members-AreClean t end h = h
  merge_members-AreClean t (field k v rest) h = elim (Bool-cases (is_guarded k)) [
    | inl skipped ↦ rw (skipped, merge_members) (merge_members-AreClean t rest h)
    | inr free ↦
        rw (free, merge_members)
          (merge_members-AreClean (put k (merge_value v (get k t)) t) rest (
            put-AreClean k (merge_value v (get k t)) t free
              (merge_value-IsClean v (get k t) (get-IsClean k t h)) h))
  ]

  merge_value-IsClean :
      (v : Value) (old : Option Value) → IsCleanOption old → IsClean (merge_value v old)
  merge_value-IsClean (obj m) (some (obj t)) h = merge_members-AreClean t m h
  merge_value-IsClean (obj m) (some (arr t)) h = tt
  merge_value-IsClean (obj m) old h = merge_members-AreClean end m tt
  merge_value-IsClean v old h = tt

-- Whatever object is merged in, the result has the keys __proto__, constructor and prototype nowhere
-- outside arrays, if the target has not.
pub merge_deep-IsClean : (t m : Members) → IsClean (obj t) → IsClean (merge_deep (obj t) (obj m))
unfolding merge_deep
merge_deep-IsClean t m h = merge_members-AreClean t m h
