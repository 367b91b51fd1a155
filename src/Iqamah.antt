-- ===== src/Iqamah.antt =====
-- utils/calculations.js: the iqamah time of a prayer and the next prayer of a day.
pub mod Rounding
pub mod Next
mod Tests
use azan_dashboard.Prelude.{
  ℕ, String, Bool, true, false, not, ◌-◌, ◌%◌, ℤ, pos, negsuc, ltb_ℤ, Option, none, some, List, [],
  ◌∷◌, str_eq, ◌==◌, if◌then◌else◌,
}
use azan_dashboard.Result.{Result, ok, err, invalid_arguments, invalid_iso, invalid_unit}
use azan_dashboard.Text.{split, number}
use azan_dashboard.Clock.{Luxon}
use azan_dashboard.Prayer.{Prayer, PrayerSetting, Row, prayer_names}

-- What `{ hour, minute }` is, read from the parts of a fixed time. A missing second part leaves the
-- minute alone, and luxon refuses a part that is not a number.
unfoldable pub fixed_parts : List String → Result (ℕ × Option ℕ)
fixed_parts [] = err invalid_unit
fixed_parts (h ∷ []) = elim (number h) [ none ↦ err invalid_unit | some hour ↦ ok (hour, none) ]
fixed_parts (h ∷ m ∷ _) = elim (number h) [
  | none ↦ err invalid_unit
  | some hour ↦ elim (number m) [ none ↦ err invalid_unit | some minute ↦ ok (hour, some minute) ]
]

-- `settings.fixedTime` where it is truthy
abbrev pub fixed_time : PrayerSetting → Option String
fixed_time s = elim s.fixed_time [ none ↦ none | some f ↦ if str_eq f "" then none else some f ]

-- The minutes that rounding adds: none for `roundTo <= 0` or a multiple of it.
unfoldable pub minutes_to_add : ℤ → ℕ → ℕ
minutes_to_add (pos n) minute = if n == 0 then 0 else if minute % n == 0 then 0 else n - minute % n
minutes_to_add (negsuc n) minute = 0

module _ (l : Luxon) where
  open l use {
    Iso, DateTime, from_iso, is_valid, set_zone, to_iso, plus_minutes, set_hour_minute,
    clear_seconds, millis,
  }

  abbrev pub fixed_iqamah : DateTime → String → Result DateTime
  fixed_iqamah t f = elim (fixed_parts (split b':' f)) [
    | ok hm ↦ ok (set_hour_minute hm.0 hm.1 t)
    | err e ↦ err e
  ]

  -- `if (roundTo > 0) { … }`
  unfoldable pub rounded : ℤ → DateTime → DateTime
  rounded round_to base =
      let add = minutes_to_add round_to (l.minute base) in
      if add == 0 then base else plus_minutes (pos add) base

  -- Priority 2: the offset, cleared of seconds, rounded up.
  unfoldable pub dynamic_iqamah : DateTime → PrayerSetting → DateTime
  dynamic_iqamah t s = rounded s.round_to (clear_seconds (plus_minutes s.iqamah_offset t))

  iqamah_of : DateTime → PrayerSetting → Result Iso
  unfolding dynamic_iqamah fixed_parts
  iqamah_of t s = elim (fixed_time s) [
    | none ↦ ok (to_iso (dynamic_iqamah t s))
    | some f ↦ elim (fixed_iqamah t f) [ ok u ↦ ok (to_iso u) | err e ↦ err e ]
  ]

  unfoldable pub calculate_iqamah : Option Iso → Option PrayerSetting → String → Result Iso
  unfolding iqamah_of
  calculate_iqamah none settings zone = err invalid_arguments
  calculate_iqamah (some iso) none zone = err invalid_arguments
  calculate_iqamah (some iso) (some s) zone =
      if str_eq zone ""
      then err invalid_arguments
      else let t = set_zone zone (from_iso iso) in
        if is_valid t then iqamah_of t s else err invalid_iso

  -- A candidate `{ name, time, isTomorrow }`.
  pub record NextPrayer : Type 0 where
    pub name : Prayer
    pub time : Iso
    pub is_tomorrow : Bool

  -- `DateTime.fromISO(prayers[name].start) > now`
  abbrev pub is_after : DateTime → Iso → Bool
  is_after now iso = ltb_ℤ (millis now) (millis (from_iso iso))

  -- the loop of `calculateNextPrayer`
  first_after : DateTime → (Prayer → Option (Row Iso)) → List Prayer → Option NextPrayer
  first_after now rows [] = none
  first_after now rows (p ∷ ps) = elim (rows p) [
    | none ↦ first_after now rows ps
    | some r ↦
        if is_after now r.start
        then some (record { name = p; time = r.start; is_tomorrow = false })
        else first_after now rows ps
  ]

  unfoldable pub calculate_next_prayer : (Prayer → Option (Row Iso)) → DateTime → Option NextPrayer
  unfolding first_after
  calculate_next_prayer rows now = first_after now rows prayer_names
