-- ===== src/Outcome.antt =====
-- What a call that may end the program returns.

-- The ways in which the program leaves the behaviour that its code describes.
pub data Fault : Type 0 where
  -- An exception that nothing catches: `std::terminate`.
  uncaught_exception : Fault
  -- A cast to a class that the object does not have.
  bad_cast : Fault
  -- An iterator moved past the end.
  past_the_end : Fault
  -- A write past the end of a local array.
  buffer_overflow : Fault
  -- A call on an object that is freed.
  use_after_free : Fault
  -- A division by zero.
  division_by_zero : Fault

pub data Outcome {ℓ} (A : Type ℓ) : Type ℓ where
  ok : A → Outcome A
  fault : Fault → Outcome A

infixl 5 ◌>>=◌
abbrev pub ◌>>=◌ {ℓ κ} : {A : Type ℓ} {B : Type κ} → Outcome A → (A → Outcome B) → Outcome B
ok a >>= f = f a
fault e >>= f = fault e
