-- ===== src/Result.antt =====
-- Exceptions as values: what the modelled functions throw, and the monad of their results.
use azan_dashboard.Prelude.{String, ◌≡◌, refl, ◌⊎◌, inl, inr, arith}

pub data Error : Type 0 where
  -- utils/calculations.js; `invalid_unit` is luxon's refusal of a unit that is not a number
  invalid_arguments invalid_iso invalid_unit : Error
  -- providers/errors.js ProviderValidationError, and any other failure of a fetch
  provider_validation : String → Error
  provider_failure : String → Error
  -- services/core/prayerTimeService.js
  empty_primary : String → Error
  missing_date : String → Error
  -- a property of `undefined` was read
  type_error : Error
  -- config/ConfigService.js: its own error classes, a resolver that is not wired, a file that cannot
  -- be read, parsed or written, and what the schemas refuse
  critical_configuration : String → Error
  not_initialised not_wired unreadable save_failed save_in_progress validation_failed : Error
  source_invalid : String → Error
  unknown_provider : Error

pub data Result {ℓ} (Value : Type ℓ) : Type ℓ where
  ok : Value → Result Value
  err : Error → Result Value

infixl 5 ◌>>=◌
abbrev pub ◌>>=◌ {ℓ κ} :
    {Value : Type ℓ} {Next : Type κ} → Result Value → (Value → Result Next) → Result Next
err thrown >>= next = err thrown
ok value >>= next = next value

pub Result-cases {ℓ} :
    {A : Type ℓ} (r : Result A) → ((a : A) × (r ≡ ok a)) ⊎ ((e : Error) × (r ≡ err e))
Result-cases (ok a) = inl (a, refl)
Result-cases (err e) = inr (e, refl)

-- What returns has returned at its first step.
pub from_bind {ℓ κ} :
    {Value : Type ℓ} {Next : Type κ} (r : Result Value) (k : Value → Result Next) (b : Next)
    → (r >>= k) ≡ ok b
    → (a : Value) × (r ≡ ok a) × (k a ≡ ok b)
from_bind (ok a) k b e = (a, refl, e)
from_bind (err thrown) k b e = absurd (ground arith)

pub ok-injective {ℓ} : {Value : Type ℓ} {a b : Value} → ok a ≡ ok b → a ≡ b
ok-injective e = ground arith
