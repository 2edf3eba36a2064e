-- ===== src/Base/Method.antt =====
-- Methods of a Python object: a function of the object's state that returns or raises, beside the
-- state that it leaves. What was written before a raise stays written.
use mathlib.Core.Path.{◌≡◌, refl}
use mathlib.Core.Bool.{Bool, true, false}
use fpro_v.Base.Outcome.{Result, ok, raise, Error, ⊤}

abbrev pub Method : Type 0 → Type 0 → Type 0
Method S A = S → Result A × S

abbrev pub continue : {S A B : Type 0} → Result A → (A → Method S B) → Method S B
continue (ok a) f s = f a s
continue (raise e) f s = (raise e, s)

infixl 5 ◌>>=◌ ◌>>◌
abbrev pub ◌>>=◌ : {S A B : Type 0} → Method S A → (A → Method S B) → Method S B
◌>>=◌ m f s = let (r, s') = m s in continue r f s'

abbrev pub ◌>>◌ : {S A B : Type 0} → Method S A → Method S B → Method S B
m >> k = m >>= λ _. k

module _ {S A : Type 0} where
  abbrev pub pure : A → Method S A
  pure a s = (ok a, s)

  abbrev pub raising : Error → Method S A
  raising e s = (raise e, s)

  abbrev pub gets : (S → A) → Method S A
  gets f s = (ok (f s), s)

  -- code that reads the state and may raise
  abbrev pub reads : (S → Result A) → Method S A
  reads f s = (f s, s)

module _ {S : Type 0} where
  abbrev pub modify : (S → S) → Method S ⊤
  modify f s = (ok tt, f s)

  abbrev pub raise_if : Bool → Error → Method S ⊤
  raise_if true e s = (raise e, s)
  raise_if false e s = (ok tt, s)

-- Inversion of a method that returned, one step at a time.
module _ {S B : Type 0} {b : B} {t : S} where
  pub continue-eq-ok :
      {A : Type 0} (r : Result A) (f : A → Method S B) (s : S)
      → continue r f s ≡ (ok b, t)
      → (a : A) × (r ≡ ok a) × (f a s ≡ (ok b, t))
  continue-eq-ok (ok a) f s h = (a, refl, h)
  continue-eq-ok (raise e) f s h = cc
