-- ===== src/QmtAgent/Service/Closing.antt =====
-- `close`, which releases all subscriptions (src/qmt_agent/service.py).
use fpro_v.Base.{[], ◌∷◌, Text, text_eq, Dict, erase, Result, ok, raise, ⊤, runtime_error}
use fpro_v.Base.Method.{Method, ◌>>=◌, pure, gets, modify}
use fpro_v.QmtAgent.Service.{Gateway, MarketSubscription, StockSubscription, Service}
use fpro_v.QmtAgent.Service.Callbacks.{
  ask, suspend_market, suspend_stock, close_market, close_stock,
}

-- a QmtGatewayError, which `runtime_error` stands for, is logged and dropped
abbrev pub settle_close : Result ⊤ → Result ⊤
settle_close (raise runtime_error) = ok tt
settle_close answer = answer

module _ {G Q : Type 0} where
  module _ (gateway : Gateway G Q) where
    -- `_close_subscription`: the gate is closed whatever happens
    abbrev pub closing :
        Method (Service G Q) ⊤ → (Service G Q → Service G Q) → Method (Service G Q) ⊤
    closing m ended s = let (answer, s') = m s in (settle_close answer, ended s')

    unfoldable pub close_markets : Dict Text MarketSubscription → Method (Service G Q) ⊤
    close_markets [] = pure tt
    close_markets ((market, subscription) ∷ rest) = do
      _ ← modify (suspend_market subscription.callback)
      _ ←
          closing (ask (gateway.unsubscribe subscription.subscription_id))
            (close_market subscription.callback)
      _ ← modify (λ s. record s { market_subscriptions = erase market s.market_subscriptions })
      close_markets rest

    unfoldable pub close_stocks : Dict Text StockSubscription → Method (Service G Q) ⊤
    close_stocks [] = pure tt
    close_stocks ((stock, subscription) ∷ rest) = do
      _ ← modify (suspend_stock subscription.callback)
      _ ←
          closing (ask (gateway.unsubscribe subscription.subscription_id))
            (close_stock subscription.callback)
      _ ← modify (λ s. record s { stock_subscriptions = erase stock s.stock_subscriptions })
      close_stocks rest

    -- `close`
    unfoldable pub close_service : Method (Service G Q) ⊤
    close_service = do
      markets ← gets (λ s. s.market_subscriptions)
      _ ← close_markets markets
      stocks ← gets (λ s. s.stock_subscriptions)
      close_stocks stocks
