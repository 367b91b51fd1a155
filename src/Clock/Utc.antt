-- ===== src/Clock/Utc.antt =====
-- A clock that meets the assumptions on luxon: instants are milliseconds in UTC, a timestamp is its
-- instant, years have 365 days, and the first days of 1970 have their names.
use azan_dashboard.Prelude.{
  ℕ, String, ◌≡◌, refl, true, ◌+◌, ◌-◌, ◌*◌, ◌/◌, ◌%◌, ◌<◌, ℤ, pos, negsuc, pos_part, ◌+ℤ◌, ◌-ℤ◌,
  ◌*ℤ◌, ◌≤ℤ◌, ◌<ℤ◌, Option, none, some, arith, ◌==◌, if◌then◌else◌,
}
use azan_dashboard.Clock.Interface.{Luxon, HasMinuteArithmetic, HasMillis}

abbrev minute_of : ℤ → ℕ
minute_of (pos n) = n / 60000 % 60
minute_of (negsuc n) = 59 - n / 60000 % 60

abbrev clear : ℤ → ℤ
clear (pos n) = pos (n - n % 60000)
clear (negsuc n) = negsuc (n / 60000 * 60000 + 59999)

abbrev day_of : ℤ → ℕ
day_of t = pos_part t / 86400000

abbrev hour_minute : ℕ → Option ℕ → ℤ → ℤ
hour_minute h none t = pos (day_of t * 86400000 + h * 3600000 + minute_of t * 60000)
hour_minute h (some m) t = pos (day_of t * 86400000 + h * 3600000 + m * 60000)

abbrev date_of : ℤ → String
date_of t =
    if day_of t == 0
    then "1970-01-01"
    else if day_of t == 1
    then "1970-01-02"
    else if day_of t == 2
    then "1970-01-03"
    else "later"

abbrev pub utc : Luxon
utc = record {
  Iso = ℤ;
  DateTime = ℤ;
  from_iso = λ s. s;
  is_valid = λ t. true;
  set_zone = λ z t. t;
  to_iso = λ t. t;
  plus_minutes = λ n t. t +ℤ n *ℤ pos 60000;
  minus_minutes = λ n t. t -ℤ pos n *ℤ pos 60000;
  minus_millis = λ n t. t -ℤ n;
  plus_days = λ n t. t +ℤ n *ℤ pos 86400000;
  set_hour_minute = hour_minute;
  clear_seconds = clear;
  start_of_day = λ t. pos (day_of t * 86400000);
  minute = minute_of;
  millis = λ t. t;
  year = λ t. 1970 + day_of t / 365;
  iso_date = date_of;
}

minute_of-plus : (n : ℕ) (t : ℤ) → minute_of (t +ℤ pos n *ℤ pos 60000) ≡ (minute_of t + n) % 60
unfolding ◌+ℤ◌ ◌*ℤ◌
minute_of-plus n t = ground arith

minute_of-clear : (t : ℤ) → minute_of (clear t) ≡ minute_of t
minute_of-clear (pos n) = omega arith
minute_of-clear (negsuc n) = omega arith

clear_bounds : (t : ℤ) → (clear t ≤ℤ t) × (t <ℤ clear t +ℤ pos 60000)
unfolding ◌+ℤ◌
clear_bounds t = ground arith

minute_of-lt : (t : ℤ) → minute_of t < 60
minute_of-lt t = ground arith

pub utc-HasMinuteArithmetic : HasMinuteArithmetic utc
utc-HasMinuteArithmetic = record {
  minute-lt = minute_of-lt;
  minute-plus = minute_of-plus;
  millis-plus = λ n t. refl;
  minute-clear = minute_of-clear;
  clear-le = λ t. (clear_bounds t).0;
  clear-gt = λ t. (clear_bounds t).1;
}

pub utc-HasMillis : HasMillis utc
utc-HasMillis = record { millis-minus = λ n t. refl }
