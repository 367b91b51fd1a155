-- ===== src/Iqamah/Tests.antt =====
-- Runs of utils/calculations.js on the sample day.
use azan_dashboard.Prelude.{
  ◌≡◌, refl, arith, Option, none, some, [], ◌∷◌, ℤ, pos, ◌+ℤ◌, ◌*ℤ◌, ◌<ℤ◌, ◌%◌, false, eq_iff,
}
use azan_dashboard.Result.{ok}
use azan_dashboard.Clock.Utc.{utc, utc-HasMinuteArithmetic}
use azan_dashboard.Prayer.{Prayer, fajr, dhuhr, prayer_names, Row}
use azan_dashboard.Text.{number}
use azan_dashboard.Iqamah.{
  fixed_parts, minutes_to_add, rounded, calculate_iqamah, calculate_next_prayer, NextPrayer,
}
use azan_dashboard.Iqamah.Rounding.{due, calculate_iqamah-rounded}
use azan_dashboard.Iqamah.Next.{IsFirst, calculate_next_prayer-IsFirst}
use azan_dashboard.Samples.{at, setting}

calculate_iqamah_sample : calculate_iqamah utc (some (at 5 0)) (some setting) "UTC" ≡ ok (at 5 20)
unfolding calculate_iqamah rounded minutes_to_add ◌+ℤ◌ ◌*ℤ◌
calculate_iqamah_sample = refl

fixed_parts_sample : fixed_parts ("13" ∷ "45" ∷ []) ≡ ok (13, some 45)
unfolding fixed_parts number
fixed_parts_sample = refl

calculate_iqamah-rounded_example :
    (t : ℤ) × (calculate_iqamah utc (some (at 5 0)) (some setting) "UTC" ≡ ok t)
    × (utc.minute t % 5 ≡ 0)
    × (due utc (at 5 0) setting <ℤ t +ℤ pos 60000)
    × (t <ℤ due utc (at 5 0) setting +ℤ pos 5 *ℤ pos 60000)
unfolding ◌+ℤ◌ ◌*ℤ◌
calculate_iqamah-rounded_example =
    calculate_iqamah-rounded utc utc-HasMinuteArithmetic (at 5 0) setting "UTC" 5
      (ground (arith, eq_iff "UTC" "")) refl refl refl (omega arith) refl

-- Fajr is over, and the others are missing but for dhuhr.
abbrev rows : Prayer → Option (Row ℤ)
rows fajr = some (record { start = at 5 0; iqamah = none })
rows dhuhr = some (record { start = at 12 0; iqamah = none })
rows _ = none

abbrev noon : NextPrayer utc
noon = record { name = dhuhr; time = at 12 0; is_tomorrow = false }

calculate_next_prayer-IsFirst_sample : IsFirst utc (at 9 0) rows prayer_names noon
unfolding calculate_next_prayer
calculate_next_prayer-IsFirst_sample = calculate_next_prayer-IsFirst utc (at 9 0) rows noon refl
