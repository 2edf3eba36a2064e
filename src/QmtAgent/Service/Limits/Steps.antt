-- ===== src/QmtAgent/Service/Limits/Steps.antt =====
-- Methods that add at most so many stock subscriptions, and how they combine (src/qmt_agent/service.py).
use fpro_v.Base.{
  ℕ, suc, ◌+◌, ◌≤◌, ◌≡◌, refl, ap, subst, ◌∙◌, Bool, true, false, List, [], ◌∷◌, arith, length,
  sort, insert_sorted, Text, text_eq, ◌=?◌, Dict, insert, erase, Result, ⊤, Error, Bool-cases,
  Result-cases, inl, inr,
}
use fpro_v.Base.Method.{Method, ◌>>=◌, pure, gets, reads, modify, raise_if}
use fpro_v.QmtAgent.Service.{Arrival, Gateway, Service}
use fpro_v.QmtAgent.Service.Callbacks.{ask, attempt}
use fpro_v.QmtAgent.Service.Closing.{closing}
use fpro_v.QmtAgent.Service.Limits.{
  Adds, Adds-refl, Adds-trans, Adds-more, Adds-two, Adds-arrive_all, Adds-activate_market,
  Adds-activate_stock, Adds-suspend_market, Adds-suspend_stock, Adds-close_market, Adds-close_stock,
}

pub length-insert_le {κ} :
    {V : Type κ} (k : Text) (v : V) (d : Dict Text V) → length (insert k v d) ≤ length d + 1
length-insert_le k v [] = omega arith
length-insert_le k v ((j, w) ∷ d) = elim (Bool-cases (k =? j)) [
  | inl e ↦ rw e (omega arith)
  | inr e ↦ rw e (omega (arith, length-insert_le k v d))
]

pub length-erase_le {κ} : {V : Type κ} (k : Text) (d : Dict Text V) → length (erase k d) ≤ length d
length-erase_le k [] = omega arith
length-erase_le k ((j, w) ∷ d) = elim (Bool-cases (k =? j)) [
  | inl e ↦ rw e (omega arith)
  | inr e ↦ rw e (omega (arith, length-erase_le k d))
]

pub length-sort {ℓ} :
    {A : Type ℓ} (before : A → A → Bool) (xs : List A) → length (sort before xs) ≡ length xs
unfolding sort
length-sort before [] = refl
length-sort {A = A} before (x ∷ xs) = inserted (sort before xs) ∙ ap suc (length-sort before xs)
  where
    inserted : (ys : List A) → length (insert_sorted before x ys) ≡ suc (length ys)
    inserted [] = refl
    inserted (y ∷ ys) = elim (Bool-cases (before y x)) [
      | inl e ↦ rw e (ap suc (inserted ys))
      | inr e ↦ rw e refl
    ]

module _ {G Q : Type 0} where
  -- a method that returns or raises with at most `n` subscriptions more
  unfoldable pub Stays : {A : Type 0} → ℕ → Method (Service G Q) A → Type 0
  Stays n m = (s : Service G Q) → Adds n s (m s).1

module _ (G Q : Type 0) where
  pub Stays-pure : {A : Type 0} (n : ℕ) (a : A) → Stays {G = G} {Q = Q} n (pure a)
  unfolding Stays
  Stays-pure n a s = Adds-more 0 n s s (omega arith) (Adds-refl s)

  pub Stays-raise_if : (n : ℕ) (b : Bool) (e : Error) → Stays {G = G} {Q = Q} n (raise_if b e)
  unfolding Stays
  Stays-raise_if n true e s = Adds-more 0 n s s (omega arith) (Adds-refl s)
  Stays-raise_if n false e s = Adds-more 0 n s s (omega arith) (Adds-refl s)

module _ {G Q : Type 0} where
  pub Stays-bind :
      {A B : Type 0} (n : ℕ) (m : Method (Service G Q) A) (f : A → Method (Service G Q) B)
      → Stays 0 m
      → ((a : A) → Stays n (f a))
      → Stays n (m >>= f)
  unfolding Stays
  Stays-bind n m f k g s = elim (Result-cases (m s).0) [
    | inl (e, raised) ↦ rw raised (Adds-more 0 n s (m s).1 (omega arith) (k s))
    | inr (a, returned) ↦ rw returned (
        Adds-more (0 + n) n s _ (omega arith)
          (Adds-trans 0 n s (m s).1 (f a (m s).1).1 (k s) (g a (m s).1)))
  ]

  pub Stays-more :
      {A B : Type 0} (n k : ℕ) (m : Method (Service G Q) A) (f : A → Method (Service G Q) B)
      → Stays n m
      → ((a : A) → Stays k (f a))
      → Stays (n + k) (m >>= f)
  unfolding Stays
  Stays-more n k m f h g s = elim (Result-cases (m s).0) [
    | inl (e, raised) ↦ rw raised (Adds-more n (n + k) s (m s).1 (omega arith) (h s))
    | inr (a, returned) ↦ rw returned (Adds-trans n k s (m s).1 (f a (m s).1).1 (h s) (g a (m s).1))
  ]

  -- a last step that adds none
  pub Stays-last :
      {A B : Type 0} (n : ℕ) (m : Method (Service G Q) A) (f : A → Method (Service G Q) B)
      → Stays n m
      → ((a : A) → Stays 0 (f a))
      → Stays n (m >>= f)
  Stays-last n m f h g =
      subst (λ k. Stays k (m >>= f)) {x = n + 0} {y = n} (omega arith) (Stays-more n 0 m f h g)

  pub Stays-gets : {A : Type 0} (n : ℕ) (f : Service G Q → A) → Stays n (gets f)
  unfolding Stays
  Stays-gets n f s = Adds-more 0 n s s (omega arith) (Adds-refl s)

  pub Stays-reads : {A : Type 0} (n : ℕ) (f : Service G Q → Result A) → Stays n (reads f)
  unfolding Stays
  Stays-reads n f s = Adds-more 0 n s s (omega arith) (Adds-refl s)

  pub Stays-modify :
      (n : ℕ) (f : Service G Q → Service G Q)
      → ((s : Service G Q) → Adds n s (f s))
      → Stays n (modify f)
  unfolding Stays
  Stays-modify n f h s = h s

  pub Stays-ask : {A : Type 0} (call : G → (Result A × List (Arrival Q)) × G) → Stays 0 (ask call)
  unfolding Stays
  Stays-ask call s =
      let t : Service G Q = record s { outside = (call s.outside).1 } in
      let kept : Adds 0 s t = record { limit = refl; few = omega arith } in
      Adds-two s t _ kept (Adds-arrive_all (call s.outside).0.1 t)

  pub Stays-attempt :
      {A : Type 0} (m : Method (Service G Q) A) (cleanup : Service G Q → Service G Q)
      → Stays 0 m
      → ((s : Service G Q) → Adds 0 s (cleanup s))
      → Stays 0 (attempt m cleanup)
  unfolding Stays
  Stays-attempt m cleanup k h s = elim (Result-cases (m s).0) [
    | inl (e, raised) ↦ rw raised (Adds-two s (m s).1 _ (k s) (h (m s).1))
    | inr (a, returned) ↦ rw returned (k s)
  ]

  pub Stays-closing :
      (m : Method (Service G Q) ⊤) (ended : Service G Q → Service G Q)
      → Stays 0 m
      → ((s : Service G Q) → Adds 0 s (ended s))
      → (gateway : Gateway G Q) → Stays 0 (closing gateway m ended)
  unfolding Stays
  Stays-closing m ended k h gateway s = Adds-two s (m s).1 _ (k s) (h (m s).1)

  -- a change that leaves the stock subscriptions alone
  pub Adds-kept :
      (s t : Service G Q)
      → t.max_stock_subscriptions ≡ s.max_stock_subscriptions
      → t.stock_subscriptions ≡ s.stock_subscriptions
      → Adds 0 s t
  Adds-kept s t e e' = record { limit = e; few = rw e' (omega arith) }

  pub ruleset staying = (
    Stays-bind, Stays-pure, Stays-gets, Stays-reads, Stays-modify, Stays-ask, Stays-attempt,
    Stays-closing, Stays-raise_if, Adds-refl, Adds-activate_market, Adds-activate_stock,
    Adds-suspend_market, Adds-suspend_stock, Adds-close_market, Adds-close_stock,
  )
