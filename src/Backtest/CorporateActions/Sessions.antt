-- ===== src/Backtest/CorporateActions/Sessions.antt =====
-- What the start and the end of a session do to the account and the broker
-- (src/backtest/corporate_actions.py).
use fpro_v.Base.{
  Bool, true, false, Option, none, some, List, [], ◌∷◌, ◌++◌, if◌then◌else◌, text_eq, nat_eq, Text,
  lookup, Datetime, date_of, ⊤, is_some,
}
use fpro_v.Base.Int.{ℤ, pos, ltb_ℤ}
use fpro_v.Base.Host.{Host, ◌⊗◌, ◌⊲◌, of_ℤ, zero_f}
use fpro_v.Base.Method.{Method, ◌>>=◌, ◌>>◌, pure, gets, reads, modify}
use fpro_v.Backtest.Domain.{OrderReason, CorporateAction}
use fpro_v.Backtest.Portfolio.State.{Portfolio}
use fpro_v.Backtest.Portfolio.Dividends.{
  capture_entitlement, recognize_dividend, settle_dividend, add_stock_dividend, list_stock_dividend,
}
use fpro_v.Backtest.Broker.State.{Broker, cancel_symbol}
use fpro_v.Backtest.CorporateActions.Processor.{Processor, actions_at}
use fpro_v.Backtest.CorporateActions.Checks.{
  action_key, cash_per_share, gives_stock, validate, entitlement_of,
}

-- The objects that a session changes.
pub record World (F : Type 0) : Type 0 where
  pub processor : Processor F
  pub portfolio : Portfolio F
  pub broker : Broker F

module _ {F : Type 0} {A : Type 0} where
  abbrev pub on_portfolio : Method (Portfolio F) A → Method (World F) A
  on_portfolio call w = let (r, s) = call w.portfolio in (r, record w { portfolio = s })

  abbrev pub on_broker : Method (Broker F) A → Method (World F) A
  on_broker call w = let (r, b) = call w.broker in (r, record w { broker = b })

module _ {F : Type 0} where
  -- a `for` loop over actions
  unfoldable pub for_each :
      (CorporateAction F → Method (World F) ⊤) → List (CorporateAction F) → Method (World F) ⊤
  for_each body [] = pure tt
  for_each body (action ∷ actions) = body action >> for_each body actions

module _ {F : Type 0} ⦃host : Host F⦄ where
  -- `_capture_entitlement`
  abbrev pub validate_if : Bool → CorporateAction F → Method (World F) ⊤
  validate_if false action = pure tt
  validate_if true action = reads (λ w. validate w.processor action)

  unfoldable pub capture : CorporateAction F → Method (World F) ⊤
  capture action = do
    n ← on_portfolio (capture_entitlement action.action_id (action_key action))
    validate_if (ltb_ℤ (pos 0) n) action

  -- `_recognize_cash`
  abbrev pub recognize_amount : Text → ℤ → Option F → Method (World F) ⊤
  recognize_amount action n none = pure tt
  recognize_amount action n (some cash) =
      if zero_f ⊲ cash then on_portfolio (recognize_dividend action (of_ℤ n ⊗ cash)) else pure tt

  unfoldable pub recognize_cash : CorporateAction F → ℤ → Method (World F) ⊤
  recognize_cash action n = recognize_amount action.action_id n (cash_per_share action)

  -- `_recognize_stock`
  unfoldable pub recognize_stock : CorporateAction F → ℤ → Method (World F) ⊤
  recognize_stock action n =
      if gives_stock action
      then on_portfolio (
          add_stock_dividend action.action_id (action_key action) n action.stock_dividend
          >> pure tt)
      else pure tt

  -- `if entitlement > 0`: the validation, and what follows it
  abbrev pub when_entitled : Bool → CorporateAction F → Method (World F) ⊤ → Method (World F) ⊤
  when_entitled false action follow = pure tt
  when_entitled true action follow = reads (λ w. validate w.processor action) >> follow

  -- the three loops of `on_session_start`
  unfoldable pub ex_action : Datetime → CorporateAction F → Method (World F) ⊤
  ex_action at action = do
    on_broker (cancel_symbol (action_key action) OrderReason.corporate_action at)
    n ← reads (λ w. entitlement_of action w.portfolio)
    when_entitled (ltb_ℤ (pos 0) n) action (recognize_cash action n >> recognize_stock action n)

  abbrev pub without_ex : Bool → CorporateAction F → (ℤ → Method (World F) ⊤) → Method (World F) ⊤
  without_ex true action follow = pure tt
  without_ex false action follow = do
    n ← reads (λ w. entitlement_of action w.portfolio)
    when_entitled (ltb_ℤ (pos 0) n) action (follow n)

  unfoldable pub pay_action : CorporateAction F → Method (World F) ⊤
  pay_action action = do
    without_ex (is_some action.ex_date) action (recognize_cash action)
    on_portfolio (settle_dividend action.action_id)

  unfoldable pub listing_action : CorporateAction F → Method (World F) ⊤
  listing_action action = do
    without_ex (is_some action.ex_date) action (recognize_stock action)
    on_portfolio (list_stock_dividend action.action_id)

  -- `on_session_start`
  unfoldable pub on_session_start : Datetime → Method (World F) ⊤
  on_session_start at = do
    before ← gets (λ w. w.processor.record_before_start)
    for_each capture before
    modify (λ w. record w { processor = record w.processor { record_before_start = [] } })
    ex ← gets (λ w. actions_at (lookup (date_of at) w.processor.exes))
    for_each (ex_action at) ex
    pay ← gets (λ w. actions_at (lookup (date_of at) w.processor.pays))
    for_each pay_action pay
    listing ← gets (λ w. actions_at (lookup (date_of at) w.processor.listings))
    for_each listing_action listing

  -- `on_session_end`
  unfoldable pub on_session_end : Datetime → Method (World F) ⊤
  on_session_end at = do
    due ← gets (λ w.
        actions_at (lookup (date_of at) w.processor.records)
        ++ actions_at (lookup (date_of at) w.processor.record_after_close))
    for_each capture due
