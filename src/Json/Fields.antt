-- ===== src/Json/Fields.antt =====
-- Objects of JSON values: what is read from one after it was changed.
use azan_dashboard.Prelude.{
  String, false, ◌≡◌, refl, ap, Option-cases, inl, inr, Option, none, some, arith, eq_iff, eq_refl,
  str_eq, if◌then◌else◌,
}
use azan_dashboard.Json.{
  Value, null, bool, num, str, arr, obj, Members, end, field, get, put, erase, put_option,
  on_object, in_member, member, map_members, truthy_option,
}

pub get-put :
    (key other : String) (v : Value) (m : Members)
    → get other (put key v m) ≡ (if str_eq key other then some v else get other m)
unfolding get put
get-put key other v end = refl
get-put key other v (field k old rest) =
    ground (arith, get-put key other v rest, eq_iff k other, eq_iff k key, eq_iff key other)

pub get-erase :
    (key other : String) (m : Members)
    → get other (erase key m) ≡ (if str_eq key other then none else get other m)
unfolding get erase
get-erase key other end = ground arith
get-erase key other (field k old rest) =
    ground (arith, get-erase key other rest, eq_iff k other, eq_iff k key, eq_iff key other)

pub get-put_option :
    (key other : String) (v : Option Value) (m : Members)
    → get other (put_option key v m) ≡ (if str_eq key other then v else get other m)
get-put_option key other none m = get-erase key other m
get-put_option key other (some v) m = get-put key other v m

abbrev pub on_option : (Members → Members) → Option Value → Option Value
on_option f none = none
on_option f (some v) = some (on_object f v)

pub get-in_member :
    (key other : String) (f : Members → Members) (m : Members)
    → get other (in_member key f m)
      ≡ (if str_eq key other then on_option f (get other m) else get other m)
unfolding in_member
get-in_member key other f m = elim (Option-cases (get key m)) [
  | inl missing ↦
      ground (arith, eq_iff key other, ap (λ (x : String). get x m), ap (on_option f) missing)
  | inr (v, found) ↦ grind (arith, get-put, eq_iff key other, ap (λ (x : String). get x m))
]

-- Inside of a member that is changed
pub member-on_option :
    (key : String) (f : Members → Members) (o : Option Value)
    → member key (on_option (in_member key f) o) ≡ on_option f (member key o)
member-on_option key f none = refl
member-on_option key f (some (arr m)) = ground (arith, get-in_member key key f m, eq_refl key)
member-on_option key f (some (obj m)) = ground (arith, get-in_member key key f m, eq_refl key)
member-on_option key f (some null) = refl
member-on_option key f (some (bool b)) = refl
member-on_option key f (some (num n)) = refl
member-on_option key f (some (str s)) = refl

-- What a round makes of an entry that may be missing
abbrev pub at_key : (String → Value → Value) → String → Option Value → Option Value
at_key f key none = none
at_key f key (some v) = some (f key v)

pub get-map_members :
    (f : String → Value → Value) (key : String) (m : Members)
    → get key (map_members f m) ≡ at_key f key (get key m)
unfolding map_members get
get-map_members f key end = refl
get-map_members f key (field k v rest) = ground (arith, eq_iff k key, get-map_members f key rest)

pub member-map_members :
    (f : String → Value → Value) (key : String) (o : Option Value)
    → member key (on_option (map_members f) o) ≡ at_key f key (member key o)
member-map_members f key none = refl
member-map_members f key (some (arr m)) = get-map_members f key m
member-map_members f key (some (obj m)) = get-map_members f key m
member-map_members f key (some null) = refl
member-map_members f key (some (bool b)) = refl
member-map_members f key (some (num n)) = refl
member-map_members f key (some (str s)) = refl

pub member-falsy : (key : String) (o : Option Value) → truthy_option o ≡ false → member key o ≡ none
member-falsy key o e = ground arith
