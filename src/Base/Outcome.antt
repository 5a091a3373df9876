-- ===== src/Base/Outcome.antt =====
-- Go's panics as values: a call returns, or the process stops with a fault.
use mathlib.Core.Path.{◌≡◌, refl}
use mathlib.Core.Logic.{◌⊎◌, inl, inr}
use mathlib.Core.Option.{Option, none, some}
use mathlib.Core.List.{List}
use Prim.Native.Nat.{ℕ}

pub data Fault : Type 0 where
  -- a nil pointer, or an address that holds no object
  invalid_pointer : Fault
  index_out_of_range : Fault
  -- a write of the host past the end of a buffer
  buffer_overrun : Fault
  -- a length that became negative when it was cut to 32 bits
  negative_length : Fault
  -- a loop of the model ran out of fuel
  out_of_fuel : Fault
  -- `panic(…)` with its message as bytes
  message : List ℕ → Fault

pub data Outcome {ℓ} (A : Type ℓ) : Type ℓ where
  ok : A → Outcome A
  panic : Fault → Outcome A

infixl 5 ◌>>=◌
abbrev pub ◌>>=◌ {ℓ κ} : {A : Type ℓ} {B : Type κ} → Outcome A → (A → Outcome B) → Outcome B
ok a >>= f = f a
panic e >>= f = panic e

abbrev pub from_option {ℓ} : {A : Type ℓ} → Fault → Option A → Outcome A
from_option e none = panic e
from_option e (some a) = ok a

-- To split on a computed outcome and keep the equation.
pub Outcome-cases {ℓ} :
    {A : Type ℓ} (o : Outcome A) → ((fault : Fault) × (o ≡ panic fault)) ⊎ ((a : A) × (o ≡ ok a))
Outcome-cases (ok a) = inr (a, refl)
Outcome-cases (panic fault) = inl (fault, refl)

-- What went before a call that returned.
pub of_bind {ℓ κ} :
    {A : Type ℓ} {B : Type κ} {b : B} (o : Outcome A) {next : A → Outcome B}
    → (o >>= next) ≡ ok b
    → (a : A) × (next a ≡ ok b) × (o ≡ ok a)
of_bind (ok a) e = (a, e, refl)
of_bind (panic fault) e = cc
