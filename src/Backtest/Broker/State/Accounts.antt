-- ===== src/Backtest/Broker/State/Accounts.antt =====
-- Every order is accounted for: it waits, or it has ended once (src/backtest/broker.py).
use fpro_v.Base.{
  ℕ, ◌+◌, ◌≡◌, ◌≤◌, refl, inl, inr, Bool, true, false, not, ◌&&◌, Option, some, List, [], ◌∷◌, ◌++◌,
  map, filter, ◌==◌, Bool-cases, Option-cases, Result-cases, count, count-append, count-filter,
  count-map, Datetime, arith,
}
use fpro_v.Base.Int.{ℤ, pos}
use fpro_v.Base.Host.{Host}
use fpro_v.Backtest.Domain.{OrderStatus, OrderReason, OrderRequest, Order, OrderUpdate}
use fpro_v.Backtest.Config.{BacktestConfig}
use fpro_v.MarketData.Identity.{History}
use fpro_v.Backtest.Portfolio.State.{Key}
use fpro_v.Backtest.Broker.State.{
  Broker, create, order_of, update_of, enqueue, take_out, cancel, is_named, sid_named,
  cancel_symbol, expire_all, admit, submit,
}

abbrev pub is_final : OrderStatus → Bool
is_final OrderStatus.submitted = false
is_final _ = true

module _ {F : Type 0} where
  abbrev pub has_id : ℕ → Order F → Bool
  has_id n order = order.order_id == n

  abbrev pub ends : ℕ → OrderUpdate F → Bool
  ends n u = is_final u.status && has_id n u.order

  -- Of each number: the orders that wait and those that have ended are those submitted; at most
  -- one was submitted, and none of the numbers to come.
  pub record IsAccounted (b : Broker F) : Type 0 where
    pub balance :
        (n : ℕ) → count (has_id n) b.pending + count (ends n) b.updates ≡ count (has_id n) b.orders
    pub unique : (n : ℕ) → count (has_id n) b.orders ≤ 1
    pub fresh : (n : ℕ) → b.next_order_id ≤ n → count (has_id n) b.orders ≡ 0

  pub create-IsAccounted :
      (config : BacktestConfig F) (h : Option History) → IsAccounted (create config h)
  unfolding create
  create-IsAccounted config h = record {
    balance = λ n. refl;
    unique = λ n. omega arith;
    fresh = λ n k. refl;
  }

  enqueue-IsAccounted :
      (order : Order F) (at : Datetime) (b : Broker F)
      → order.order_id ≡ b.next_order_id
      → IsAccounted b
      → IsAccounted (enqueue order at b)
  unfolding enqueue
  enqueue-IsAccounted order at b same h = record {
    balance = λ n. omega (
      arith,
      count-append (has_id n) b.pending (order ∷ []),
      count-append (has_id n) b.orders (order ∷ []),
      count-append (ends n) b.updates
          (update_of OrderStatus.submitted at (pos 0) OrderReason.blank order ∷ []),
      h.balance n,
    );
    unique =
        λ n. ground (arith, count-append (has_id n) b.orders (order ∷ []), h.unique n, h.fresh n);
    fresh = λ n k.
        ground (arith, count-append (has_id n) b.orders (order ∷ []), h.fresh n (omega arith));
  }

  -- the closing updates of a list of orders
  pub count-close :
      (n : ℕ) (status : OrderStatus) (at : Datetime) (q : ℤ) (reason : OrderReason)
      (orders : List (Order F))
      → is_final status ≡ true
      → count (ends n) (map (update_of status at q reason) orders) ≡ count (has_id n) orders
  count-close n status at q reason orders final =
      count-map (ends n) (has_id n) (update_of status at q reason) orders (λ o. rw final refl)

  -- a change that moves orders from the pending ones to the closed ones
  pub moved-IsAccounted :
      (b : Broker F) (rest : List (Order F)) (new : List (OrderUpdate F))
      → ((n : ℕ) → count (has_id n) rest + count (ends n) new ≡ count (has_id n) b.pending)
      → IsAccounted b
      → IsAccounted (record b { pending = rest; updates = b.updates ++ new })
  moved-IsAccounted b rest new moved h = record {
    balance = λ n. omega (arith, count-append (ends n) b.updates new, moved n, h.balance n);
    unique = h.unique;
    fresh = h.fresh;
  }

  count-take_out :
      (m n : ℕ) (orders rest : List (Order F)) (order : Order F)
      → take_out m orders ≡ some (order, rest)
      → count (has_id n) rest + count (has_id n) (order ∷ []) ≡ count (has_id n) orders
  unfolding take_out
  count-take_out m n [] rest order h = cc
  count-take_out m n (o ∷ orders) rest order h = elim (Bool-cases (o.order_id == m)) [
    | inl e ↦ ground (arith, rw e at h)
    | inr e ↦ elim (Option-cases (take_out m orders)) [
      | inl none_left ↦ ground (arith, rw (e, none_left) at h)
      | inr ((found, rest'), ends_in) ↦
          ground (arith, rw (e, ends_in) at h, count-take_out m n orders rest' found ends_in)
    ]
  ]

  pub cancel-IsAccounted :
      (m : ℕ) (at : Datetime) (b : Broker F) → IsAccounted b → IsAccounted (cancel m at b).1
  unfolding cancel
  cancel-IsAccounted m at b h = elim (Option-cases (take_out m b.pending)) [
    | inl e ↦ rw e h
    | inr ((order, rest), e) ↦ rw e (
        moved-IsAccounted b rest _ (λ n. omega (arith, count-take_out m n b.pending rest order e))
          h)
  ]

  pub cancel_symbol-IsAccounted :
      (symbol : Key) (reason : OrderReason) (at : Datetime) (b : Broker F)
      → IsAccounted b
      → IsAccounted (cancel_symbol symbol reason at b).1
  unfolding cancel_symbol
  cancel_symbol-IsAccounted symbol reason at b h =
      elim (Result-cases (sid_named b.identities symbol)) [
        | inl (_, e) ↦ rw e h
        | inr (found, e) ↦
            let named = is_named found symbol in
            rw e (
              moved-IsAccounted b (filter (λ o. not (named o)) b.pending) _
                (λ n. omega (
                  arith,
                  count-close n OrderStatus.canceled at (pos 0) reason (filter named b.pending)
                      refl,
                  count-filter (has_id n) named b.pending,
                ))
                h)
      ]

  pub expire_all-IsAccounted :
      (at : Datetime) (b : Broker F) → IsAccounted b → IsAccounted (expire_all at b)
  unfolding expire_all
  expire_all-IsAccounted at b h =
      moved-IsAccounted b [] _
        (λ n. omega (
          arith,
          count-close n OrderStatus.expired at (pos 0) OrderReason.end_of_backtest b.pending refl,
        ))
        h

module _ {F : Type 0} ⦃host : Host F⦄ where
  pub submit-IsAccounted :
      (request : OrderRequest F) (at : Datetime) (b : Broker F)
      → IsAccounted b
      → IsAccounted (submit request at b).1
  unfolding submit order_of
  submit-IsAccounted request at b h = elim (Result-cases (admit b request at)) [
    | inl (_, e) ↦ rw e h
    | inr ((symbol, found), e) ↦
        rw e (enqueue-IsAccounted (order_of request b.next_order_id symbol found at) at b refl h)
  ]
