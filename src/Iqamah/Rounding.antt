-- ===== src/Iqamah/Rounding.antt =====
-- calculateIqamah of utils/calculations.js: the rounding of calculated times.
use native.Mathlib.Nat.{
  mod-mod_of_dvd, mod-lt, mod-eq-zero_of_dvd, dvd-mul_left, dvd_of_mod-eq-zero, add-zero,
  div-add-mod,
}
use azan_dashboard.Prelude.{
  ℕ, ◌+◌, ◌-◌, ◌*◌, ◌/◌, ◌%◌, ◌<◌, ◌≡◌, ◌≢◌, ap, ◌∙◌, inl, inr, true, String, none, some, arith,
  ◌==◌, eq_iff, Bool-cases, ℤ, pos, ◌+ℤ◌, ◌*ℤ◌, ◌≤ℤ◌, ◌<ℤ◌, +ℤ_parts, *ℤ_parts, pos_part, neg_part,
}
use azan_dashboard.Result.{ok}
use azan_dashboard.Clock.{Luxon, HasMinuteArithmetic}
use azan_dashboard.Prayer.{PrayerSetting}
use azan_dashboard.Iqamah.{minutes_to_add, dynamic_iqamah, rounded, calculate_iqamah, fixed_time}

-- The next multiple of `n`, from `m / n`.
next_multiple : (n m : ℕ) → 0 < n → m + (n - m % n) ≡ (m / n + 1) * n
next_multiple n m h = grind (arith, mod-lt m h, div-add-mod m n)

next_multiple-mod : (n m : ℕ) → 0 < n → (m + (n - m % n)) % n ≡ 0
next_multiple-mod n m h =
    ap (λ (t : ℕ). t % n) (next_multiple n m h) ∙ mod-eq-zero_of_dvd n (dvd-mul_left n (m / n + 1))

-- The minutes added reach a multiple of the interval, and fall short of a whole interval.
pub minutes_to_add-multiple :
    (n m : ℕ) → 0 < n → ((m + minutes_to_add (pos n) m) % n ≡ 0) × (minutes_to_add (pos n) m < n)
unfolding minutes_to_add
minutes_to_add-multiple n m h = ground (arith, next_multiple-mod n m h, mod-lt m h)

-- The instant `offset` minutes after the start of the prayer.
abbrev pub due : (l : Luxon) → l.DateTime → PrayerSetting → ℤ
due l start s = l.millis start +ℤ s.iqamah_offset *ℤ pos 60000

module _ (l : Luxon) (laws : HasMinuteArithmetic l) where
  open l use {DateTime, Iso, from_iso, is_valid, set_zone, to_iso, plus_minutes, minute, millis}

  minute-add :
      (n k : ℕ) (base : DateTime)
      → 60 % n ≡ 0
      → minute (plus_minutes (pos k) base) % n ≡ (minute base + k) % n
  minute-add n k base d =
      ap (λ (t : ℕ). t % n) (laws.minute-plus k base)
      ∙ mod-mod_of_dvd n (minute base + k) (dvd_of_mod-eq-zero n d)

  rounded-multiple :
      (n : ℕ) (base : DateTime) → 0 < n → 60 % n ≡ 0 → minute (rounded l (pos n) base) % n ≡ 0
  unfolding rounded
  rounded-multiple n base h d =
      let k = minutes_to_add (pos n) (minute base) in
      elim (Bool-cases (k == 0)) [
        | inl e ↦
            rw e (ground (arith, minutes_to_add-multiple n (minute base) h, add-zero (minute base)))
        | inr e ↦ rw e (minute-add n k base d ∙ (minutes_to_add-multiple n (minute base) h).0)
      ]

  -- `k` minutes later, in the two parts of the instants.
  later :
      (k : ℕ) (t : DateTime)
      → pos_part (millis (plus_minutes (pos k) t)) + neg_part (millis t)
        ≡ neg_part (millis (plus_minutes (pos k) t)) + pos_part (millis t) + k * 60000
  later k t =
      rw (laws.millis-plus (pos k) t)
        (omega (arith, +ℤ_parts (millis t) (pos k *ℤ pos 60000), *ℤ_parts (pos k) 60000))

  rounded_bounds :
      (n : ℕ) (base : DateTime)
      → 0 < n
      → (millis base ≤ℤ millis (rounded l (pos n) base))
        × (millis (rounded l (pos n) base) <ℤ millis base +ℤ pos n *ℤ pos 60000)
  unfolding rounded
  rounded_bounds n base h =
      let k = minutes_to_add (pos n) (minute base) in
      elim (Bool-cases (k == 0)) [
        | inl e ↦
            rw e
              (omega (arith, +ℤ_parts (millis base) (pos n *ℤ pos 60000), *ℤ_parts (pos n) 60000))
        | inr e ↦ rw e (
            omega (
              arith,
              later k base,
              (minutes_to_add-multiple n (minute base) h).1,
              +ℤ_parts (millis base) (pos n *ℤ pos 60000),
              *ℤ_parts (pos n) 60000,
            ))
      ]

  dynamic_bounds :
      (start : DateTime) (s : PrayerSetting) (n : ℕ)
      → 0 < n
      → s.round_to ≡ pos n
      → (due l start s <ℤ millis (dynamic_iqamah l start s) +ℤ pos 60000)
        × (millis (dynamic_iqamah l start s) <ℤ due l start s +ℤ pos n *ℤ pos 60000)
  unfolding dynamic_iqamah
  dynamic_bounds start s n h interval =
      let moved = plus_minutes s.iqamah_offset start in
      let base = l.clear_seconds moved in
      rw (interval, ← laws.millis-plus s.iqamah_offset start)
        (omega (
          arith,
          rounded_bounds n base h,
          laws.clear-le moved,
          laws.clear-gt moved,
          +ℤ_parts (millis (rounded l (pos n) base)) (pos 60000),
          +ℤ_parts (millis base) (pos 60000),
          +ℤ_parts (millis base) (pos n *ℤ pos 60000),
          +ℤ_parts (millis moved) (pos n *ℤ pos 60000),
        ))

  calculate-dynamic :
      (iso : Iso) (s : PrayerSetting) (zone : String)
      → zone ≢ ""
      → is_valid (set_zone zone (from_iso iso)) ≡ true
      → fixed_time s ≡ none
      → calculate_iqamah l (some iso) (some s) zone
        ≡ ok (to_iso (dynamic_iqamah l (set_zone zone (from_iso iso)) s))
  unfolding calculate_iqamah
  calculate-dynamic iso s zone named valid free = ground (arith, eq_iff zone "")

  -- A prayer with no fixed time and a rounding interval of `n` minutes that divides the hour has its
  -- iqamah at a time `t` whose minute is a multiple of `n`; `t` is less than a minute before the
  -- offset is over (the seconds are dropped first) and less than `n` minutes after.
  pub calculate_iqamah-rounded :
      (iso : Iso) (s : PrayerSetting) (zone : String) (n : ℕ)
      → zone ≢ ""
      → is_valid (set_zone zone (from_iso iso)) ≡ true
      → fixed_time s ≡ none
      → s.round_to ≡ pos n
      → 0 < n
      → 60 % n ≡ 0
      → (t : DateTime) × (calculate_iqamah l (some iso) (some s) zone ≡ ok (to_iso t))
        × (minute t % n ≡ 0)
        × (due l (set_zone zone (from_iso iso)) s <ℤ millis t +ℤ pos 60000)
        × (millis t <ℤ due l (set_zone zone (from_iso iso)) s +ℤ pos n *ℤ pos 60000)
  unfolding dynamic_iqamah
  calculate_iqamah-rounded iso s zone n named valid free interval h d =
      let start = set_zone zone (from_iso iso) in
      let (not_early, not_late) = dynamic_bounds start s n h interval in
      (
        dynamic_iqamah l start s,
        calculate-dynamic iso s zone named valid free,
        rw interval (rounded-multiple n (l.clear_seconds (plus_minutes s.iqamah_offset start)) h d),
        not_early,
        not_late,
      )
