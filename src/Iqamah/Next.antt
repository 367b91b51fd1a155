-- ===== src/Iqamah/Next.antt =====
-- calculateNextPrayer of utils/calculations.js.
use azan_dashboard.Prelude.{
  ◌≡◌, refl, ap, inl, inr, true, false, Option, none, some, List, [], ◌∷◌, ◌++◌, arith, Bool-cases,
  Option-cases, All, ◌↔◌,
}
use mathlib.Core.Path.{subst}
use mathlib.Core.Option.{some-injective}
use azan_dashboard.Clock.{Luxon}
use azan_dashboard.Prayer.{Prayer, Row, prayer_names}
use azan_dashboard.Iqamah.{NextPrayer, is_after, first_after, calculate_next_prayer}

module _ (l : Luxon) (now : l.DateTime) (rows : Prayer → Option (Row l.Iso)) where
  -- A prayer that is missing or has started.
  abbrev pub HasPassed : Prayer → Type 0
  HasPassed p = elim (rows p) [ none ↦ Unit {0} | some r ↦ is_after l now r.start ≡ false ]

  -- `np` is the first prayer of the list that is still to come.
  pub record IsFirst (names : List Prayer) (np : NextPrayer l) : Type 0 where
    pub before : List Prayer
    pub later : List Prayer
    pub split : names ≡ before ++ np.name ∷ later
    pub passed : All HasPassed before
    pub row : Row l.Iso
    pub listed : rows np.name ≡ some row
    pub to_come : is_after l now row.start ≡ true
    pub time : np.time ≡ row.start
    pub today : np.is_tomorrow ≡ false

  IsFirst-cons :
      (p : Prayer) (ps : List Prayer) (np : NextPrayer l)
      → HasPassed p
      → IsFirst ps np
      → IsFirst (p ∷ ps) np
  IsFirst-cons p ps np h f = record {
    before = p ∷ f.before;
    later = f.later;
    split = ap (λ (t : List Prayer). p ∷ t) f.split;
    passed = (h, f.passed);
    row = f.row;
    listed = f.listed;
    to_come = f.to_come;
    time = f.time;
    today = f.today;
  }

  IsFirst-head :
      (p : Prayer) (ps : List Prayer) (r : Row l.Iso)
      → rows p ≡ some r
      → is_after l now r.start ≡ true
      → IsFirst (p ∷ ps) (record { name = p; time = r.start; is_tomorrow = false })
  IsFirst-head p ps r listed coming = record {
    before = [];
    later = ps;
    split = refl;
    passed = tt;
    row = r;
    listed = listed;
    to_come = coming;
    time = refl;
    today = refl;
  }

  first_after-IsFirst :
      (names : List Prayer) (np : NextPrayer l)
      → first_after l now rows names ≡ some np
      → IsFirst names np
  unfolding first_after
  first_after-IsFirst [] np e = cc
  first_after-IsFirst (p ∷ ps) np e = elim (Option-cases (rows p)) [
    | inl missing ↦
        IsFirst-cons p ps np (rw (missing, HasPassed) tt)
          (first_after-IsFirst ps np (rw (missing, first_after) at e))
    | inr (r, listed) ↦ elim (Bool-cases (is_after l now r.start)) [
      | inl coming ↦
          subst (IsFirst (p ∷ ps)) (some-injective _ _ (ground arith))
            (IsFirst-head p ps r listed coming)
      | inr started ↦
          IsFirst-cons p ps np (rw (listed, HasPassed) started)
            (first_after-IsFirst ps np (ground arith))
    ]
  ]

  first_after-none :
      (names : List Prayer) → (first_after l now rows names ≡ none) ↔ All HasPassed names
  unfolding first_after
  first_after-none [] = ground arith
  first_after-none (p ∷ ps) = grind (arith, first_after-none ps)

  -- The next prayer is the first, from fajr to isha, that has a time and starts strictly after now;
  -- every prayer before it is missing or has started, and it is marked as today's.
  pub calculate_next_prayer-IsFirst :
      (np : NextPrayer l) → calculate_next_prayer l rows now ≡ some np → IsFirst prayer_names np
  unfolding calculate_next_prayer
  calculate_next_prayer-IsFirst np e = first_after-IsFirst prayer_names np e

  -- There is no next prayer today exactly when every prayer is missing or has started.
  pub calculate_next_prayer-none :
      (calculate_next_prayer l rows now ≡ none) ↔ All HasPassed prayer_names
  unfolding calculate_next_prayer
  calculate_next_prayer-none = first_after-none prayer_names
