-- ===== src/Clock/Interface.antt =====
-- luxon's `DateTime` as the program uses it: a record of operations, and records of what it relies on.
use azan_dashboard.Prelude.{
  ℕ, String, ◌≡◌, Bool, ◌+◌, ◌%◌, ◌<◌, ℤ, pos, ◌+ℤ◌, ◌-ℤ◌, ◌≤ℤ◌, ◌<ℤ◌, ◌*ℤ◌, Option,
}

pub record Luxon : Type 1 where
  pub Iso : Type 0
  pub DateTime : Type 0
  -- DateTime.fromISO(s), dt.isValid, dt.setZone(z), dt.toISO()
  pub from_iso : Iso → DateTime
  pub is_valid : DateTime → Bool
  pub set_zone : String → DateTime → DateTime
  pub to_iso : DateTime → Iso
  -- dt.plus({ minutes }), dt.minus({ minutes }), dt.minus({ milliseconds }), dt.plus({ days })
  pub plus_minutes : ℤ → DateTime → DateTime
  pub minus_minutes : ℕ → DateTime → DateTime
  pub minus_millis : ℤ → DateTime → DateTime
  pub plus_days : ℤ → DateTime → DateTime
  -- dt.set({ hour, minute, second: 0, millisecond: 0 }), where an undefined minute is left alone
  pub set_hour_minute : ℕ → Option ℕ → DateTime → DateTime
  -- dt.set({ second: 0, millisecond: 0 }), dt.startOf("day")
  pub clear_seconds : DateTime → DateTime
  pub start_of_day : DateTime → DateTime
  -- dt.minute, dt.valueOf(), dt.year, dt.toISODate()
  pub minute : DateTime → ℕ
  pub millis : DateTime → ℤ
  pub year : DateTime → ℕ
  pub iso_date : DateTime → String

-- Documented behaviour that the theorems about rounding rest on: calendar arithmetic on minutes in a
-- zone whose offset is constant over the sum, and the effect of clearing the seconds.
pub record HasMinuteArithmetic (l : Luxon) : Type 0 where
  pub minute-lt : (t : l.DateTime) → l.minute t < 60
  pub minute-plus :
      (n : ℕ) (t : l.DateTime) → l.minute (l.plus_minutes (pos n) t) ≡ (l.minute t + n) % 60
  pub millis-plus :
      (n : ℤ) (t : l.DateTime) → l.millis (l.plus_minutes n t) ≡ l.millis t +ℤ n *ℤ pos 60000
  pub minute-clear : (t : l.DateTime) → l.minute (l.clear_seconds t) ≡ l.minute t
  pub clear-le : (t : l.DateTime) → l.millis (l.clear_seconds t) ≤ℤ l.millis t
  pub clear-gt : (t : l.DateTime) → l.millis t <ℤ l.millis (l.clear_seconds t) +ℤ pos 60000

-- `dt.minus({ milliseconds })` moves the instant back.
pub record HasMillis (l : Luxon) : Type 0 where
  pub millis-minus : (n : ℤ) (t : l.DateTime) → l.millis (l.minus_millis n t) ≡ l.millis t -ℤ n
