-- ===== src/Json.antt =====
-- JSON values as JavaScript handles them, and the deep merge of config/ConfigService.js. An array is
-- its elements by index; numbers are whole, and a key whose value is `undefined` is left out.
pub mod Fields
pub mod Merge
pub mod Guard
mod Tests
use azan_dashboard.Prelude.{
  ℕ, String, Bool, true, false, not, ◌||◌, Option, none, some, ℤ, pos, str_eq, if◌then◌else◌, ◌==◌,
  negsuc,
}

mutual
  pub data Value : Type 0 where
    null : Value
    bool : Bool → Value
    num : ℤ → Value
    str : String → Value
    arr : Members → Value
    obj : Members → Value

  pub data Members : Type 0 where
    end : Members
    field : String → Value → Members → Members

-- `o[key]`, `none` for `undefined`
unfoldable pub get : String → Members → Option Value
get key end = none
get key (field k v rest) = if str_eq k key then some v else get key rest

-- `o[key] = new`
unfoldable pub put : String → Value → Members → Members
put key new end = field key new end
put key new (field k v rest) =
    if str_eq k key then field key new rest else field k v (put key new rest)

-- `delete o[key]`
unfoldable pub erase : String → Members → Members
erase key end = end
erase key (field k v rest) =
    let others = erase key rest in if str_eq k key then others else field k v others

-- `o[key] = value` where the value may be `undefined`
abbrev pub put_option : String → Option Value → Members → Members
put_option key none m = erase key m
put_option key (some v) m = put key v m

-- `typeof v === "object" && v !== null`
abbrev pub is_object : Value → Bool
is_object (arr m) = true
is_object (obj m) = true
is_object _ = false

-- `!!v`
abbrev pub truthy : Value → Bool
truthy null = false
truthy (bool b) = b
truthy (num (pos n)) = not (n == 0)
truthy (num (negsuc n)) = true
truthy (str s) = not (str_eq s "")
truthy (arr m) = true
truthy (obj m) = true

abbrev pub truthy_option : Option Value → Bool
truthy_option none = false
truthy_option (some v) = truthy v

-- `v?.[key]`; a primitive has none of the keys that the program reads.
abbrev pub member : String → Option Value → Option Value
member key none = none
member key (some (arr m)) = get key m
member key (some (obj m)) = get key m
member key (some _) = none

-- A change of the members of a value that has some
abbrev pub on_object : (Members → Members) → Value → Value
on_object f (arr m) = arr (f m)
on_object f (obj m) = obj (f m)
on_object f v = v

-- The same for `o[key]`, where it is there
unfoldable pub in_member : String → (Members → Members) → Members → Members
unfolding get put
in_member key f m = elim (get key m) [ none ↦ m | some v ↦ put key (on_object f v) m ]

-- A loop over the entries of an object, where a round changes the entry's value
unfoldable pub map_members : (String → Value → Value) → Members → Members
map_members f end = end
map_members f (field k v rest) = field k (f k v) (map_members f rest)

-- `{ ...m, ...source }`
unfoldable pub assign_members : Members → Members → Members
unfolding put
assign_members m end = m
assign_members m (field k v rest) = assign_members (put k v m) rest

-- The keys that a merge skips
abbrev pub is_guarded : String → Bool
is_guarded key = str_eq key "__proto__" || (str_eq key "constructor" || str_eq key "prototype")

unfoldable mutual
  -- The loop over the keys of the source
  pub merge_members : Members → Members → Members
  merge_members output end = output
  merge_members output (field k v rest) =
      merge_members
        (elim (is_guarded k) [
          | true ↦ output
          | false ↦ put k (merge_value v (get k output)) output
        ])
        rest

  -- What `output[key]` becomes: an object is merged with the object that is there, or else with a new
  -- one; anything else overwrites it. The clauses on objects are `_mergeDeep` of two objects.
  pub merge_value : Value → Option Value → Value
  merge_value (obj m) (some (obj t)) = obj (merge_members t m)
  merge_value (obj m) (some (arr t)) = arr (merge_members t m)
  merge_value (obj m) old = obj (merge_members end m)
  merge_value v old = v

-- `_mergeDeep(target, source)`. Of an array as target, only the indices are members.
unfoldable pub merge_deep : Value → Value → Value
unfolding merge_members
merge_deep (obj t) (obj m) = obj (merge_members t m)
merge_deep (obj t) (arr m) = obj (merge_members t m)
merge_deep (arr t) (obj m) = arr (merge_members t m)
merge_deep (arr t) (arr m) = arr (merge_members t m)
merge_deep target source = elim (is_object target) [ true ↦ target | false ↦ source ]
