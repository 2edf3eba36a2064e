-- ===== src/QmtAgent/Service/Operations.antt =====
-- The operations on subscriptions and caches (src/qmt_agent/service.py).
use fpro_v.Base.{
  ℕ, ◌+◌, Bool, false, not, ◌&&◌, Option, none, some, List, [], ◌∷◌, ◌++◌, filter, if◌then◌else◌,
  any, ltb, length, sort, distinct, member, is_some, Text, text_eq, text_ltb, ◌=?◌, Dict, lookup,
  insert, erase, Result, ok, raise, ⊤, value_error,
}
use fpro_v.Base.Method.{Method, ◌>>=◌, pure, gets, reads, modify, raise_if}
use fpro_v.QmtAgent.Callback.{new_gate}
use fpro_v.QmtAgent.Service.{
  Gateway, MarketSubscription, StockSubscription, Service, MarketResponse, StockResponse,
}
use fpro_v.QmtAgent.Service.Callbacks.{
  keys, same_set, attempt, ask, clear_market_cache, clear_stock_cache, activate_market,
  activate_stock, suspend_market, suspend_stock, close_market, close_stock,
}

-- the period of a stock's subscription, as a test
abbrev pub has_other_period : Text → Option StockSubscription → Bool
has_other_period period none = false
has_other_period period (some subscription) = not (subscription.period =? period)

-- `current if markets is None else set(markets)`
abbrev pub or_all : Option (List Text) → List Text → List Text
or_all none current = current
or_all (some markets) current = distinct markets

-- the periods of subscribed stocks
abbrev pub add_period : Text → Option StockSubscription → Dict Text Text → Dict Text Text
add_period stock none periods = periods
add_period stock (some subscription) periods = (stock, subscription.period) ∷ periods

unfoldable pub periods_of : Dict Text StockSubscription → List Text → Dict Text Text
periods_of subscriptions [] = []
periods_of subscriptions (stock ∷ stocks) =
    add_period stock (lookup stock subscriptions) (periods_of subscriptions stocks)

-- `StockSubscriptionResponse.validate_periods`
abbrev pub validate_periods : StockResponse → Result StockResponse
validate_periods response =
    if same_set (keys response.periods) response.subscribed then ok response else raise value_error

module _ {G Q : Type 0} where
  -- `_market_subscription_result`
  abbrev pub market_subscription_result :
      List Text → List Text → List Text → Service G Q → MarketResponse
  market_subscription_result added removed missing s = record {
    subscribed = sort text_ltb (keys s.market_subscriptions);
    added = sort text_ltb added;
    removed = sort text_ltb removed;
    not_found = sort text_ltb missing;
  }

  -- `_stock_subscription_result`; no caller gives `updated`
  abbrev pub stock_subscription_result :
      List Text → List Text → List Text → Dict Text Text → Service G Q → Result StockResponse
  stock_subscription_result added removed missing mismatches s =
      let stocks = sort text_ltb (keys s.stock_subscriptions) in
      validate_periods (record {
        periods = periods_of s.stock_subscriptions stocks;
        subscribed = stocks;
        added = sort text_ltb added;
        updated = [];
        removed = sort text_ltb removed;
        not_found = sort text_ltb missing;
        period_mismatches = mismatches;
      })

  module _ (gateway : Gateway G Q) where
    -- a round of the loop of `subscribe_markets`
    abbrev pub record_market : Text → ℕ → ℕ → Service G Q → Service G Q
    record_market market subscription_id place s = activate_market place (record s {
      market_subscriptions =
          insert market (record { subscription_id = subscription_id; callback = place })
            s.market_subscriptions;
    })

    unfoldable pub subscribe_market : Text → Method (Service G Q) ⊤
    subscribe_market market = do
      _ ← modify (clear_market_cache market)
      place ← gets (λ s. length s.market_callbacks)
      _ ← modify (λ s. record s {
        market_callbacks = s.market_callbacks ++ (record { gate = new_gate; market = market } ∷ []);
      })
      subscription_id ←
          attempt (ask (gateway.subscribe_market_quote market place)) (close_market place)
      modify (record_market market subscription_id place)

    unfoldable pub each_of : (Text → Method (Service G Q) ⊤) → List Text → Method (Service G Q) ⊤
    each_of body [] = pure tt
    each_of body (name ∷ names) = do _ ← body name; each_of body names

    -- `subscribe_markets`
    unfoldable pub subscribe_markets : List Text → Method (Service G Q) MarketResponse
    subscribe_markets markets = do
      added ←
          gets
            (λ s. filter (λ m. not (is_some (lookup m s.market_subscriptions))) (distinct markets))
      _ ← each_of subscribe_market (sort text_ltb added)
      gets (market_subscription_result added [] [])

    -- a round of the loop of `unsubscribe_markets`, for a subscription that is there
    abbrev pub forget_market : Text → ℕ → Service G Q → Service G Q
    forget_market market place s =
        let closed = close_market place s in
        clear_market_cache market
          (record closed { market_subscriptions = erase market closed.market_subscriptions })

    abbrev pub drop_market : Text → Option MarketSubscription → Method (Service G Q) ⊤
    drop_market market none = pure tt
    drop_market market (some subscription) = do
      _ ← modify (suspend_market subscription.callback)
      _ ←
          attempt (ask (gateway.unsubscribe subscription.subscription_id))
            (activate_market subscription.callback)
      modify (forget_market market subscription.callback)

    unfoldable pub unsubscribe_market : Text → Method (Service G Q) ⊤
    unsubscribe_market market = do
      subscription ← gets (λ s. lookup market s.market_subscriptions)
      drop_market market subscription

    -- `unsubscribe_markets`
    unfoldable pub unsubscribe_markets : Option (List Text) → Method (Service G Q) MarketResponse
    unsubscribe_markets markets = do
      current ← gets (λ s. keys s.market_subscriptions)
      _ ←
          each_of unsubscribe_market
            (sort text_ltb (filter (λ m. member m (or_all markets current)) current))
      gets (
          market_subscription_result [] (filter (λ m. member m (or_all markets current)) current)
            (filter (λ m. not (member m current)) (or_all markets current)))

    -- a round of the loop of `subscribe_stocks`
    abbrev pub record_stock : Text → Text → ℕ → ℕ → Service G Q → Service G Q
    record_stock stock period subscription_id place s = activate_stock place (record s {
      stock_subscriptions =
          insert stock
            (record { subscription_id = subscription_id; period = period; callback = place })
            s.stock_subscriptions;
    })

    unfoldable pub subscribe_stock : Text → Text → Method (Service G Q) ⊤
    subscribe_stock period stock = do
      _ ← modify (clear_stock_cache stock)
      place ← gets (λ s. length s.stock_callbacks)
      _ ← modify (λ s. record s {
        stock_callbacks =
            s.stock_callbacks ++ (record { gate = new_gate; stock = stock; period = period } ∷ []);
      })
      subscription_id ←
          attempt (ask (gateway.subscribe_stock_quote stock period place)) (close_stock place)
      modify (record_stock stock period subscription_id place)

    -- the stocks of a request that have no subscription
    abbrev pub new_stocks : List Text → Service G Q → List Text
    new_stocks requested s = filter (λ c. not (is_some (lookup c s.stock_subscriptions))) requested

    -- what `subscribe_stocks` does once the limit is kept
    unfoldable pub subscribe_added :
        List Text → List Text → Text → Method (Service G Q) StockResponse
    subscribe_added stocks added period = do
      conflict ← gets (λ s.
          any (λ c. has_other_period period (lookup c s.stock_subscriptions)) (distinct stocks))
      _ ← raise_if conflict value_error
      _ ← each_of (subscribe_stock period) (sort text_ltb added)
      reads (stock_subscription_result added [] [] [])

    -- `subscribe_stocks`
    unfoldable pub subscribe_stocks : List Text → Text → Method (Service G Q) StockResponse
    subscribe_stocks stocks period s =
        let added = new_stocks (distinct stocks) s in
        if ltb s.max_stock_subscriptions (length s.stock_subscriptions + length added)
        then (raise value_error, s)
        else subscribe_added stocks added period s

    -- a round of the loop of `unsubscribe_stocks`
    abbrev pub forget_stock : Text → ℕ → Service G Q → Service G Q
    forget_stock stock place s =
        let closed = close_stock place s in
        clear_stock_cache stock
          (record closed { stock_subscriptions = erase stock closed.stock_subscriptions })

    abbrev pub drop_stock : Text → Option StockSubscription → Method (Service G Q) ⊤
    drop_stock stock none = pure tt
    drop_stock stock (some subscription) = do
      _ ← modify (suspend_stock subscription.callback)
      _ ←
          attempt (ask (gateway.unsubscribe subscription.subscription_id))
            (activate_stock subscription.callback)
      modify (forget_stock stock subscription.callback)

    unfoldable pub unsubscribe_stock : Text → Method (Service G Q) ⊤
    unsubscribe_stock stock = do
      subscription ← gets (λ s. lookup stock s.stock_subscriptions)
      drop_stock stock subscription

    -- `unsubscribe_stocks`
    unfoldable pub unsubscribe_stocks : List Text → Text → Method (Service G Q) StockResponse
    unsubscribe_stocks stocks period = do
      current ← gets (λ s. keys s.stock_subscriptions)
      mismatched ← gets (λ s.
          filter (λ c. has_other_period period (lookup c s.stock_subscriptions)) (distinct stocks))
      period_mismatches ← gets (λ s. periods_of s.stock_subscriptions (sort text_ltb mismatched))
      removed ←
          gets (λ s. filter (λ c. member c current && not (member c mismatched)) (distinct stocks))
      _ ← each_of unsubscribe_stock (sort text_ltb removed)
      reads (
          stock_subscription_result [] removed
            (filter (λ c. not (member c current)) (distinct stocks)) period_mismatches)
