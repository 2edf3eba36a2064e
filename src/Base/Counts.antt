-- ===== src/Base/Counts.antt =====
-- How many elements of a list pass a test, under the operations on lists.
use Prim.Native.Nat.{ℕ, ◌+◌}
use mathlib.Core.Path.{◌≡◌, refl}
use mathlib.Core.Bool.{Bool, not}
use mathlib.Core.List.{List, [], ◌∷◌, ◌++◌, map}
use mathlib.Core.Logic.{inl, inr}
use native.Mathlib.Omega.{arith}
use fpro_v.Base.Tests.{if◌then◌else◌, Bool-cases}
use fpro_v.Base.Lists.{filter}
use fpro_v.Base.Sort.{insert_sorted, sort}

module _ {ℓ} {A : Type ℓ} where
  abbrev pub count : (A → Bool) → List A → ℕ
  count p [] = 0
  count p (x ∷ xs) = (if p x then 1 else 0) + count p xs

  pub count-append : (p : A → Bool) (xs ys : List A) → count p (xs ++ ys) ≡ count p xs + count p ys
  count-append p [] ys = omega arith
  count-append p (x ∷ xs) ys = omega (arith, count-append p xs ys)

  count-insert_sorted :
      (p : A → Bool) (before : A → A → Bool) (x : A) (xs : List A)
      → count p (insert_sorted before x xs) ≡ count p (x ∷ xs)
  count-insert_sorted p before x [] = refl
  count-insert_sorted p before x (y ∷ ys) = elim (Bool-cases (before y x)) [
    | inl e ↦ rw e (omega (arith, count-insert_sorted p before x ys))
    | inr e ↦ rw e refl
  ]

  pub count-sort :
      (p : A → Bool) (before : A → A → Bool) (xs : List A) → count p (sort before xs) ≡ count p xs
  unfolding sort
  count-sort p before [] = refl
  count-sort p before (x ∷ xs) =
      omega (arith, count-insert_sorted p before x (sort before xs), count-sort p before xs)

  -- the two parts of a partition
  pub count-filter :
      (p test : A → Bool) (xs : List A)
      → count p (filter test xs) + count p (filter (λ x. not (test x)) xs) ≡ count p xs
  count-filter p test [] = refl
  count-filter p test (x ∷ xs) = elim (Bool-cases (test x)) [
    | inl e ↦ rw e (omega (arith, count-filter p test xs))
    | inr e ↦ rw e (omega (arith, count-filter p test xs))
  ]

module _ {ℓ κ} {A : Type ℓ} {B : Type κ} where
  pub count-map :
      (p : B → Bool) (q : A → Bool) (f : A → B) (xs : List A)
      → ((x : A) → p (f x) ≡ q x)
      → count p (map f xs) ≡ count q xs
  count-map p q f [] h = refl
  count-map p q f (x ∷ xs) h = rw (h x) (omega (arith, count-map p q f xs h))
