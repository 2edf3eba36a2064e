-- ===== src/Base/Sort.antt =====
-- Python's stable `sorted`, and the distinct elements of a list (a set, in order of first sight).
use mathlib.Core.Bool.{Bool, not}
use mathlib.Core.List.{List, [], ◌∷◌}
use fpro_v.Base.Tests.{if◌then◌else◌}
use fpro_v.Base.Keys.{Eq, ◌=?◌}
use fpro_v.Base.Lists.{filter, any}

module _ {ℓ} {A : Type ℓ} (before : A → A → Bool) where
  abbrev pub insert_sorted : A → List A → List A
  insert_sorted x [] = x ∷ []
  insert_sorted x (y ∷ ys) = if before y x then y ∷ insert_sorted x ys else x ∷ y ∷ ys

  unfoldable pub sort : List A → List A
  sort [] = []
  sort (x ∷ xs) = insert_sorted x (sort xs)

module _ {ℓ} {A : Type ℓ} ⦃e : Eq A⦄ where
  abbrev pub member : A → List A → Bool
  member a xs = any (λ x. a =? x) xs

  unfoldable pub distinct : List A → List A
  distinct [] = []
  distinct (x ∷ xs) = x ∷ filter (λ y. not (y =? x)) (distinct xs)
