-- ===== src/QmtAgent/Service/Limits/Operations.antt =====
-- No operation lets the stock subscriptions pass their limit (src/qmt_agent/service.py).
use fpro_v.Base.{
  ℕ, suc, ◌+◌, refl, subst, Option, none, some, List, [], ◌∷◌, ◌++◌, arith, length, sort, Text,
  text_ltb, text_eq, Dict, insert, erase, ⊤,
}
use fpro_v.Base.Method.{Method}
use fpro_v.QmtAgent.Service.{
  Gateway, MarketSubscription, StockSubscription, MarketCallback, StockCallback, Service,
}
use fpro_v.QmtAgent.Service.Callbacks.{
  close_market, close_stock, clear_market_cache, clear_stock_cache,
}
use fpro_v.QmtAgent.Service.Operations.{
  subscribe_market, subscribe_markets, unsubscribe_market, unsubscribe_markets, subscribe_stock,
  unsubscribe_stock, unsubscribe_stocks, each_of, drop_market, drop_stock, record_market,
  record_stock, forget_market, forget_stock,
}
use fpro_v.QmtAgent.Service.Closing.{close_markets, close_stocks, close_service}
use fpro_v.QmtAgent.Service.Limits.{
  Adds, Adds-trans, Adds-two, Adds-activate_market, Adds-activate_stock, Adds-close_market,
  Adds-close_stock,
}
use fpro_v.QmtAgent.Service.Limits.Steps.{
  Adds-kept, Stays, Stays-bind, Stays-more, Stays-pure, length-erase_le, length-insert_le,
  length-sort, staying,
}

module _ {G Q : Type 0} where
  module _ (gateway : Gateway G Q) where
    Adds-record_market :
        (market : Text) (n place : ℕ) (s : Service G Q)
        → Adds 0 s (record_market gateway market n place s)
    Adds-record_market market n place s =
        let t : Service G Q = record s {
          market_subscriptions =
              insert market (record { subscription_id = n; callback = place })
                s.market_subscriptions;
        } in
        Adds-two s t _ (Adds-kept s t refl refl) (Adds-activate_market place t)

    Adds-record_stock :
        (stock period : Text) (n place : ℕ) (s : Service G Q)
        → Adds 1 s (record_stock gateway stock period n place s)
    Adds-record_stock stock period n place s =
        let t : Service G Q = record s {
          stock_subscriptions =
              insert stock (record { subscription_id = n; period = period; callback = place })
                s.stock_subscriptions;
        } in
        let one : Adds 1 s t = record {
          limit = refl;
          few = length-insert_le stock _ s.stock_subscriptions;
        } in
        Adds-trans 1 0 s t _ one (Adds-activate_stock place t)

    Adds-forget_market :
        (market : Text) (place : ℕ) (s : Service G Q)
        → Adds 0 s (forget_market gateway market place s)
    Adds-forget_market market place s =
        Adds-two s _ _ (Adds-close_market place s) (Adds-kept (close_market place s) _ refl refl)

    Adds-forget_stock :
        (stock : Text) (place : ℕ) (s : Service G Q) → Adds 0 s (forget_stock gateway stock place s)
    Adds-forget_stock stock place s = Adds-two s _ _ (Adds-close_stock place s) (record {
      limit = refl;
      few = omega (arith, length-erase_le stock (close_stock place s).stock_subscriptions);
    })

    -- a change of the caches or of the list of callback objects
    Adds-clear_market : (market : Text) (s : Service G Q) → Adds 0 s (clear_market_cache market s)
    Adds-clear_market market s = Adds-kept s _ refl refl

    Adds-clear_stock : (stock : Text) (s : Service G Q) → Adds 0 s (clear_stock_cache stock s)
    Adds-clear_stock stock s = Adds-kept s _ refl refl

    Adds-market_callback :
        (c : MarketCallback Q) (s : Service G Q)
        → Adds 0 s (record s { market_callbacks = s.market_callbacks ++ (c ∷ []) })
    Adds-market_callback c s = Adds-kept s _ refl refl

    Adds-stock_callback :
        (c : StockCallback Q) (s : Service G Q)
        → Adds 0 s (record s { stock_callbacks = s.stock_callbacks ++ (c ∷ []) })
    Adds-stock_callback c s = Adds-kept s _ refl refl

    Stays-subscribe_market : (market : Text) → Stays 0 (subscribe_market gateway market)
    unfolding subscribe_market
    Stays-subscribe_market market =
        search (staying, Adds-clear_market, Adds-market_callback, Adds-record_market) depth 16

    pub Stays-subscribe_stock :
        (period stock : Text) → Stays 1 (subscribe_stock gateway period stock)
    unfolding subscribe_stock
    Stays-subscribe_stock period stock =
        search (staying, Adds-clear_stock, Adds-stock_callback, Adds-record_stock) depth 16

    Stays-drop_market :
        (market : Text) (subscription : Option MarketSubscription)
        → Stays 0 (drop_market gateway market subscription)
    Stays-drop_market market none = search staying depth 12
    Stays-drop_market market (some subscription) = search (staying, Adds-forget_market) depth 16

    Stays-unsubscribe_market : (market : Text) → Stays 0 (unsubscribe_market gateway market)
    unfolding unsubscribe_market
    Stays-unsubscribe_market market = search (staying, Stays-drop_market) depth 12

    Stays-drop_stock :
        (stock : Text) (subscription : Option StockSubscription)
        → Stays 0 (drop_stock gateway stock subscription)
    Stays-drop_stock stock none = search staying depth 12
    Stays-drop_stock stock (some subscription) = search (staying, Adds-forget_stock) depth 16

    Stays-unsubscribe_stock : (stock : Text) → Stays 0 (unsubscribe_stock gateway stock)
    unfolding unsubscribe_stock
    Stays-unsubscribe_stock stock = search (staying, Stays-drop_stock) depth 12

    Stays-each_of :
        (body : Text → Method (Service G Q) ⊤) (names : List Text)
        → ((name : Text) → Stays 0 (body name))
        → Stays 0 (each_of gateway body names)
    unfolding each_of
    Stays-each_of body [] h = Stays-pure G Q 0 tt
    Stays-each_of body (name ∷ names) h =
        Stays-bind 0 _ _ (h name) (λ _. Stays-each_of body names h)

    pub Stays-each_one :
        (body : Text → Method (Service G Q) ⊤) (names : List Text)
        → ((name : Text) → Stays 1 (body name))
        → Stays (length names) (each_of gateway body names)
    unfolding each_of
    Stays-each_one body [] h = Stays-pure G Q 0 tt
    Stays-each_one body (name ∷ names) h =
        subst (λ n. Stays n (each_of gateway body (name ∷ names))) {x = 1 + length names}
          {y = suc (length names)} (omega arith)
          (Stays-more 1 (length names) _ _ (h name) (λ _. Stays-each_one body names h))

    -- as many more as names, in an order of them
    pub Stays-each_sorted :
        (body : Text → Method (Service G Q) ⊤) (names : List Text)
        → ((name : Text) → Stays 1 (body name))
        → Stays (length names) (each_of gateway body (sort text_ltb names))
    Stays-each_sorted body names h =
        subst (λ n. Stays n (each_of gateway body (sort text_ltb names)))
          (length-sort text_ltb names) (Stays-each_one body (sort text_ltb names) h)

    pub Stays-subscribe_markets :
        (markets : List Text) → Stays 0 (subscribe_markets gateway markets)
    unfolding subscribe_markets
    Stays-subscribe_markets markets =
        search (staying, Stays-each_of, Stays-subscribe_market) depth 16

    pub Stays-unsubscribe_markets :
        (markets : Option (List Text)) → Stays 0 (unsubscribe_markets gateway markets)
    unfolding unsubscribe_markets
    Stays-unsubscribe_markets markets =
        search (staying, Stays-each_of, Stays-unsubscribe_market) depth 16

    pub Stays-unsubscribe_stocks :
        (stocks : List Text) (period : Text) → Stays 0 (unsubscribe_stocks gateway stocks period)
    unfolding unsubscribe_stocks
    Stays-unsubscribe_stocks stocks period =
        search (staying, Stays-each_of, Stays-unsubscribe_stock) depth 16

    Adds-erase_stock :
        (stock : Text) (s : Service G Q)
        → Adds 0 s (record s { stock_subscriptions = erase stock s.stock_subscriptions })
    Adds-erase_stock stock s = record {
      limit = refl;
      few = omega (arith, length-erase_le stock s.stock_subscriptions);
    }

    Adds-erase_market :
        (market : Text) (s : Service G Q)
        → Adds 0 s (record s { market_subscriptions = erase market s.market_subscriptions })
    Adds-erase_market market s = Adds-kept s _ refl refl

    Stays-close_markets :
        (rest : Dict Text MarketSubscription) → Stays 0 (close_markets gateway rest)
    unfolding close_markets
    Stays-close_markets [] = search staying depth 12
    Stays-close_markets ((market, subscription) ∷ rest) =
        search (staying, Adds-erase_market, Stays-close_markets rest) depth 16

    Stays-close_stocks : (rest : Dict Text StockSubscription) → Stays 0 (close_stocks gateway rest)
    unfolding close_stocks
    Stays-close_stocks [] = search staying depth 12
    Stays-close_stocks ((stock, subscription) ∷ rest) =
        search (staying, Adds-erase_stock, Stays-close_stocks rest) depth 16

    pub Stays-close_service : Stays 0 (close_service gateway)
    unfolding close_service
    Stays-close_service = search (staying, Stays-close_markets, Stays-close_stocks) depth 12
