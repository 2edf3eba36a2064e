-- ===== src/Backtest/Engine/History/Actions.antt =====
-- What the corporate actions call of the broker (src/backtest/corporate_actions.py).
use fpro_v.Base.{Bool, true, false, Option, none, some, Datetime, ⊤}
use fpro_v.Base.Int.{ℤ}
use fpro_v.Base.Host.{Host}
use fpro_v.Base.Method.{Method}
use fpro_v.Backtest.Domain.{CorporateAction}
use fpro_v.Backtest.CorporateActions.Sessions.{
  World, capture, validate_if, recognize_amount, recognize_cash, recognize_stock, when_entitled,
  ex_action, without_ex, pay_action, listing_action, on_session_start, on_session_end,
}
use fpro_v.Backtest.Engine.History.{Tracks, Tracks-keeps, its_broker, Tracks-for_each, tracking}

module _ {F : Type 0} ⦃host : Host F⦄ where
  Tracks-validate_if :
      (b : Bool) (action : CorporateAction F) → Tracks its_broker (validate_if b action)
  Tracks-validate_if true action = search tracking depth 12
  Tracks-validate_if false action = search tracking depth 12

  Tracks-capture : (action : CorporateAction F) → Tracks its_broker (capture action)
  unfolding capture
  Tracks-capture action = search (tracking, Tracks-validate_if) depth 12

  Tracks-recognize_cash :
      (action : CorporateAction F) (n : ℤ) (cash : Option F)
      → Tracks its_broker (recognize_amount action.action_id n cash)
  Tracks-recognize_cash action n none = search tracking depth 12
  Tracks-recognize_cash action n (some cash) = search tracking depth 12

  Tracks-recognize_stock :
      (action : CorporateAction F) (n : ℤ) → Tracks its_broker (recognize_stock action n)
  unfolding recognize_stock
  Tracks-recognize_stock action n = search tracking depth 12

  Tracks-when_entitled :
      (b : Bool) (action : CorporateAction F) (follow : Method (World F) ⊤)
      → Tracks its_broker follow
      → Tracks its_broker (when_entitled b action follow)
  Tracks-when_entitled true action follow k = search tracking depth 12
  Tracks-when_entitled false action follow k = search tracking depth 12

  Tracks-without_ex :
      (b : Bool) (action : CorporateAction F) (follow : ℤ → Method (World F) ⊤)
      → ((n : ℤ) → Tracks its_broker (follow n))
      → Tracks its_broker (without_ex b action follow)
  Tracks-without_ex true action follow k = search tracking depth 12
  Tracks-without_ex false action follow k = search (tracking, Tracks-when_entitled, k) depth 12

  ruleset acting = (
    tracking, Tracks-recognize_cash, Tracks-recognize_stock, Tracks-when_entitled,
    Tracks-without_ex,
  )

  Tracks-ex_action :
      (at : Datetime) (action : CorporateAction F) → Tracks its_broker (ex_action at action)
  unfolding ex_action recognize_cash
  Tracks-ex_action at action = search acting depth 12

  Tracks-pay_action : (action : CorporateAction F) → Tracks its_broker (pay_action action)
  unfolding pay_action recognize_cash
  Tracks-pay_action action = search acting depth 12

  Tracks-listing_action : (action : CorporateAction F) → Tracks its_broker (listing_action action)
  unfolding listing_action
  Tracks-listing_action action = search acting depth 12

module _ (F : Type 0) ⦃host : Host F⦄ where
  pub Tracks-on_session_start : (at : Datetime) → Tracks (its_broker {F = F}) (on_session_start at)
  unfolding on_session_start
  Tracks-on_session_start at =
      search
        (
          tracking, Tracks-keeps, Tracks-for_each, Tracks-capture, Tracks-ex_action,
          Tracks-pay_action, Tracks-listing_action,
        )
        depth 14

  pub Tracks-on_session_end : (at : Datetime) → Tracks (its_broker {F = F}) (on_session_end at)
  unfolding on_session_end
  Tracks-on_session_end at = search (tracking, Tracks-for_each, Tracks-capture) depth 12
