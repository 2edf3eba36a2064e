-- ===== src/Backtest/CorporateActions/Calendar.antt =====
-- The session that stands in for a record date without one (`set_sessions` of
-- src/backtest/corporate_actions.py).
use fpro_v.Base.{
  ℕ, zero, suc, ◌≡◌, ◌≤◌, ◌<◌, refl, subst, nat_eq, inl, inr, ◌⊎◌, none, some, List, [], ◌∷◌,
  get_elem?, All, All-imp, All-insert_sorted, insert_sorted, sort, distinct, ltb, Bool-cases, Date,
  arith,
}
use fpro_v.Backtest.CorporateActions.Processor.{
  bisect_left, session_at, session_before, ordered_sessions,
}

unfoldable pub IsAscending : List ℕ → Type 0
IsAscending [] = Unit
IsAscending (x ∷ xs) = All (λ y. x ≤ y) xs × IsAscending xs

insert_sorted-IsAscending :
    (x : ℕ) (xs : List ℕ) → IsAscending xs → IsAscending (insert_sorted ltb x xs)
unfolding IsAscending
insert_sorted-IsAscending x [] a = (tt, tt)
insert_sorted-IsAscending x (y ∷ ys) a = elim (Bool-cases (ltb y x)) [
  | inl e ↦ rw e (
    All-insert_sorted (λ z. y ≤ z) ltb x ys (ground arith) a.0,
    insert_sorted-IsAscending x ys a.1,
  )
  | inr e ↦ rw e ((ground arith, All-imp ys (λ z h. ground arith) a.0), a)
]

sort-IsAscending : (xs : List ℕ) → IsAscending (sort ltb xs)
unfolding sort IsAscending
sort-IsAscending [] = tt
sort-IsAscending (x ∷ xs) = insert_sorted-IsAscending x (sort ltb xs) (sort-IsAscending xs)

All-get_elem? : (P : ℕ → Type 0) (xs : List ℕ) (i x : ℕ) → All P xs → get_elem? xs i ≡ some x → P x
All-get_elem? P [] i x p h = cc
All-get_elem? P (y ∷ ys) zero x p h = let e : y ≡ x = cc in subst P e p.0
All-get_elem? P (y ∷ ys) (suc i) x p h = All-get_elem? P ys i x p.1 h

-- the place of a day among ascending sessions
unfoldable pub IsPlace : List ℕ → ℕ → ℕ → Type 0
IsPlace xs day zero = All (λ t. day ≤ t) xs
IsPlace xs day (suc i) =
    (s : ℕ) × (get_elem? xs i ≡ some s) × (s < day) × All (λ t. t < day → t ≤ s) xs

IsPlace-cons :
    (x : ℕ) (xs : List ℕ) (day i : ℕ)
    → x < day
    → All (λ y. x ≤ y) xs
    → IsPlace xs day i
    → IsPlace (x ∷ xs) day (suc i)
unfolding IsPlace
IsPlace-cons x xs day zero lt a p =
    (x, refl, lt, ((λ h. omega arith), All-imp xs (λ t h k. absurd (omega arith)) p))
IsPlace-cons x xs day (suc i) lt a (s, at, before, latest) =
    (s, at, before, ((λ h. All-get_elem? (λ y. x ≤ y) xs i s a at), latest))

bisect_left-IsPlace : (xs : List ℕ) (day : ℕ) → IsAscending xs → IsPlace xs day (bisect_left xs day)
unfolding bisect_left IsAscending IsPlace
bisect_left-IsPlace [] day a = tt
bisect_left-IsPlace (x ∷ xs) day a = elim (Bool-cases (ltb x day)) [
  | inl e ↦ rw e (
      IsPlace-cons x xs day (bisect_left xs day) (ground arith) a.0
        (bisect_left-IsPlace xs day a.1))
  | inr e ↦ rw e (ground arith, All-imp xs (λ t h. ground arith) a.0)
]

at_place :
    (xs : List Date) (day i : ℕ)
    → IsPlace xs day i
    → ((session_at xs i ≡ none) × All (λ t. day ≤ t) xs)
      ⊎ ((s : Date) × (session_at xs i ≡ some s) × (s < day) × All (λ t. t < day → t ≤ s) xs)
unfolding IsPlace
at_place xs day zero p = inl (refl, p)
at_place xs day (suc i) p = inr p

-- The session before a date is the latest one before it; where there is none, every session is at
-- or after the date.
pub session_before_latest :
    (sessions : List Date) (day : Date)
    → let ordered = ordered_sessions sessions in
      ((session_before ordered day ≡ none) × All (λ t. day ≤ t) ordered)
      ⊎ ((s : Date) × (session_before ordered day ≡ some s)
          × (s < day)
          × All (λ t. t < day → t ≤ s) ordered)
unfolding session_before ordered_sessions
session_before_latest sessions day =
    let ordered = sort ltb (distinct sessions) in
    at_place ordered day (bisect_left ordered day)
      (bisect_left-IsPlace ordered day (sort-IsAscending (distinct sessions)))
