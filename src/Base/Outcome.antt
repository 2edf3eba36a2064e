-- ===== src/Base/Outcome.antt =====
-- Exceptions as values, and methods that change an object: the state comes back after a raise
-- too, since what was written stays written.
use Prim.Native.Nat.{ℕ}
use mathlib.Core.Path.{◌≡◌, refl}
use mathlib.Core.Logic.{◌⊎◌, inl, inr}
use mathlib.Core.Bool.{Bool, true, false}
use mathlib.Core.Option.{Option}

-- The exception classes that the modelled code raises, without their messages.
-- `arithmetic_error` stands for ZeroDivisionError and for what `math.floor` raises outside the
-- finite floats.
pub data Error : Type 0 where
  value_error type_error data_error account_error corporate_action_error : Error
  mapping_error configuration_error arithmetic_error runtime_error assertion_error : Error
  sequence_out_of_range : ℕ → Option ℕ → Option ℕ → Error

pub data Result {ℓ} (A : Type ℓ) : Type ℓ where
  ok : A → Result A
  raise : Error → Result A

abbrev pub ⊤ : Type 0
⊤ = Unit

-- Plain code that may raise.
abbrev pub bind {ℓ κ} : {A : Type ℓ} {B : Type κ} → Result A → (A → Result B) → Result B
bind (ok a) f = f a
bind (raise e) f = raise e

abbrev pub raise_when : Bool → Error → Result ⊤
raise_when true e = raise e
raise_when false e = ok tt

pub bind-eq-ok {ℓ κ} :
    {A : Type ℓ} {B : Type κ} (m : Result A) (f : A → Result B) {b : B}
    → bind m f ≡ ok b
    → (a : A) × (m ≡ ok a) × (f a ≡ ok b)
bind-eq-ok (ok a) f h = (a, refl, h)
bind-eq-ok (raise e) f h = cc

pub ok-injective {ℓ} : {A : Type ℓ} {a b : A} → ok a ≡ ok b → a ≡ b
ok-injective h = cc

-- To split on a computed result and keep the equation.
pub Result-cases {ℓ} :
    {A : Type ℓ} (r : Result A) → ((e : Error) × (r ≡ raise e)) ⊎ ((a : A) × (r ≡ ok a))
Result-cases (ok a) = inr (a, refl)
Result-cases (raise e) = inl (e, refl)
