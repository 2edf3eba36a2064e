-- ===== src/Base/Predicates.antt =====
-- `All` under the operations on lists.
use mathlib.Core.Bool.{Bool}
use mathlib.Core.List.{List, [], ◌∷◌, ◌++◌}
use mathlib.Core.Logic.{inl, inr}
use fpro_v.Base.Tests.{Bool-cases}
use fpro_v.Base.Lists.{All, filter}
use fpro_v.Base.Sort.{insert_sorted, sort}

module _ {ℓ κ} {A : Type ℓ} (P : A → Type κ) where
  pub All-append : (xs ys : List A) → All P xs → All P ys → All P (xs ++ ys)
  All-append [] ys p q = q
  All-append (x ∷ xs) ys p q = (p.0, All-append xs ys p.1 q)

  pub All-insert_sorted :
      (before : A → A → Bool) (x : A) (xs : List A)
      → P x
      → All P xs
      → All P (insert_sorted before x xs)
  All-insert_sorted before x [] p ps = (p, tt)
  All-insert_sorted before x (y ∷ ys) p ps = elim (Bool-cases (before y x)) [
    | inl e ↦ rw e (ps.0, All-insert_sorted before x ys p ps.1)
    | inr e ↦ rw e (p, ps)
  ]

  pub All-sort : (before : A → A → Bool) (xs : List A) → All P xs → All P (sort before xs)
  unfolding sort
  All-sort before [] p = tt
  All-sort before (x ∷ xs) p =
      All-insert_sorted before x (sort before xs) p.0 (All-sort before xs p.1)

  pub All-filter : (test : A → Bool) (xs : List A) → All P xs → All P (filter test xs)
  All-filter test [] p = tt
  All-filter test (x ∷ xs) p = elim (Bool-cases (test x)) [
    | inl e ↦ rw e (p.0, All-filter test xs p.1)
    | inr e ↦ rw e (All-filter test xs p.1)
  ]

pub All-imp {ℓ κ μ} :
    {A : Type ℓ} {P : A → Type κ} {Q : A → Type μ} (xs : List A)
    → ((x : A) → P x → Q x)
    → All P xs
    → All Q xs
All-imp [] f p = tt
All-imp (x ∷ xs) f p = (f x p.0, All-imp xs f p.1)
