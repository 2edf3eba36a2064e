-- ===== src/QmtAgent/Service/Limits/Histories.antt =====
-- The limit of the stock subscriptions in every history of a service (src/qmt_agent/service.py).
use fpro_v.Base.{
  ℕ, ◌+◌, ◌≤◌, ◌≡◌, Option, List, [], arith, ltb, leb, length, distinct, Text, text_eq, ok,
  value_error, Bool-cases, Result-cases, inl, inr,
}
use fpro_v.QuoteSequence.Defs.{init as new_buffer}
use fpro_v.QmtAgent.Service.{Arrival, Gateway, Service, create}
use fpro_v.QmtAgent.Service.Callbacks.{arrive}
use fpro_v.QmtAgent.Service.Operations.{
  subscribe_markets, unsubscribe_markets, subscribe_added, subscribe_stocks, unsubscribe_stocks,
  new_stocks, stock_subscription_result,
}
use fpro_v.QmtAgent.Service.Closing.{close_service}
use fpro_v.QmtAgent.Service.Limits.{Adds, Adds-arrive}
use fpro_v.QmtAgent.Service.Limits.Steps.{
  Stays, Stays-bind, Stays-gets, Stays-reads, Stays-raise_if, Stays-last,
}
use fpro_v.QmtAgent.Service.Limits.Operations.{
  Stays-each_sorted, Stays-subscribe_stock, Stays-subscribe_markets, Stays-unsubscribe_markets,
  Stays-unsubscribe_stocks, Stays-close_service,
}

module _ {G Q : Type 0} where
  pub record IsWithin (s : Service G Q) : Type 0 where
    pub few : length s.stock_subscriptions ≤ s.max_stock_subscriptions
    pub limited : s.max_stock_subscriptions ≤ 50

  Adds-IsWithin :
      (n : ℕ) (s t : Service G Q)
      → length s.stock_subscriptions + n ≤ s.max_stock_subscriptions
      → IsWithin s
      → Adds n s t
      → IsWithin t
  Adds-IsWithin n s t room h a = record {
    few = omega (arith, a.limit, a.few);
    limited = omega (arith, a.limit, h.limited);
  }

  kept-IsWithin : (s t : Service G Q) → IsWithin s → Adds 0 s t → IsWithin t
  kept-IsWithin s t h a = Adds-IsWithin 0 s t (omega (arith, h.few)) h a

  create-IsWithin :
      (outside : G) (max capacity : ℕ) (s : Service G Q)
      → create outside max capacity ≡ ok s
      → IsWithin s
  unfolding create
  create-IsWithin outside max capacity s e = elim (Bool-cases (leb 1 max)) [
    | inl least ↦ elim (Bool-cases (leb max 50)) [
      | inl most ↦ elim (Result-cases (new_buffer {Q = Q} capacity)) [
        | inl (error, refused) ↦ ground (arith, refused)
        | inr (buffer, made) ↦ ground (arith, made)
      ]
      | inr over ↦ ground arith
    ]
    | inr none_fits ↦ ground arith
  ]

module _ {G Q : Type 0} (gateway : Gateway G Q) where
  -- The states of a service from its creation on: after operations that returned or raised, and
  -- callbacks of XtData between them.
  pub data Reachable : Service G Q → Type 0 where
    starts :
        {s : Service G Q} (outside : G) (max capacity : ℕ)
        → create outside max capacity ≡ ok s
        → Reachable s
    market_subscribes :
        {s : Service G Q} (markets : List Text)
        → Reachable s
        → Reachable (subscribe_markets gateway markets s).1
    market_unsubscribes :
        {s : Service G Q} (markets : Option (List Text))
        → Reachable s
        → Reachable (unsubscribe_markets gateway markets s).1
    stock_subscribes :
        {s : Service G Q} (stocks : List Text) (period : Text)
        → Reachable s
        → Reachable (subscribe_stocks gateway stocks period s).1
    stock_unsubscribes :
        {s : Service G Q} (stocks : List Text) (period : Text)
        → Reachable s
        → Reachable (unsubscribe_stocks gateway stocks period s).1
    arrives : {s : Service G Q} (arrival : Arrival Q) → Reachable s → Reachable (arrive arrival s)
    closes : {s : Service G Q} → Reachable s → Reachable (close_service gateway s).1

  Stays-subscribe_added :
      (stocks added : List Text) (period : Text)
      → Stays (length added) (subscribe_added gateway stocks added period)
  unfolding subscribe_added
  Stays-subscribe_added stocks added period =
      Stays-bind (length added) _ _ (Stays-gets 0 _) (λ conflict.
        Stays-bind (length added) _ _ (Stays-raise_if G Q 0 conflict value_error) (λ _.
          Stays-last (length added) _ _
            (Stays-each_sorted gateway _ added (Stays-subscribe_stock gateway period))
            (λ _. Stays-reads 0 (stock_subscription_result added [] [] []))))

  subscribe_stocks-IsWithin :
      (stocks : List Text) (period : Text) (s : Service G Q)
      → IsWithin s
      → IsWithin (subscribe_stocks gateway stocks period s).1
  unfolding subscribe_stocks Stays
  subscribe_stocks-IsWithin stocks period s h =
      let added = new_stocks gateway (distinct stocks) s in
      elim (Bool-cases
        (ltb s.max_stock_subscriptions (length s.stock_subscriptions + length added))) [
          | inl full ↦ rw full h
          | inr room ↦ rw room (
              Adds-IsWithin (length added) s _ (ground arith) h
                (Stays-subscribe_added stocks added period s))
        ]

  -- In every state of a service from its creation on, whatever the gateway answers and calls back,
  -- and whether operations return or raise: there are at most as many stock subscriptions as the
  -- limit of the service, which is at most 50.
  pub Reachable-IsWithin : {s : Service G Q} → Reachable s → IsWithin s
  unfolding Stays
  Reachable-IsWithin {s} (starts outside max capacity e) = create-IsWithin outside max capacity s e
  Reachable-IsWithin (market_subscribes {s} markets r) =
      kept-IsWithin s _ (Reachable-IsWithin r) (Stays-subscribe_markets gateway markets s)
  Reachable-IsWithin (market_unsubscribes {s} markets r) =
      kept-IsWithin s _ (Reachable-IsWithin r) (Stays-unsubscribe_markets gateway markets s)
  Reachable-IsWithin (stock_subscribes {s} stocks period r) =
      subscribe_stocks-IsWithin stocks period s (Reachable-IsWithin r)
  Reachable-IsWithin (stock_unsubscribes {s} stocks period r) =
      kept-IsWithin s _ (Reachable-IsWithin r) (Stays-unsubscribe_stocks gateway stocks period s)
  Reachable-IsWithin (arrives {s} arrival r) =
      kept-IsWithin s _ (Reachable-IsWithin r) (Adds-arrive arrival s)
  Reachable-IsWithin (closes {s} r) =
      kept-IsWithin s _ (Reachable-IsWithin r) (Stays-close_service gateway s)
