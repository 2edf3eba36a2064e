-- ===== src/Backtest/Engine/History/Sessions.antt =====
-- What the parts of the engine call of the broker (src/backtest/engine.py).
use fpro_v.Base.{
  ap, subst, Bool, true, false, Option, none, some, List, [], ◌∷◌, Text, Dict, Date, Datetime,
}
use fpro_v.Base.Host.{Host}
use fpro_v.Base.Method.{modify}
use fpro_v.Backtest.Clock.{Event}
use fpro_v.Backtest.Config.{BacktestConfig}
use fpro_v.Backtest.Domain.{Fill, Bar, OrderRequest, AccountSnapshot}
use fpro_v.Backtest.Portfolio.State.{Key}
use fpro_v.Backtest.Broker.State.{submit, cancel, set_session}
use fpro_v.Backtest.Broker.Lifecycle.{Step}
use fpro_v.Backtest.CorporateActions.Sessions.{World, on_broker}
use fpro_v.Backtest.Engine.{Reader, Plan}
use fpro_v.Backtest.Engine.Sessions.{
  start_session, settle_each, settle_missing, check_managed, check_lifecycles,
}
use fpro_v.Backtest.Engine.Bars.{apply_fills, match_event, match_pending}
use fpro_v.Backtest.Engine.Calls.{plain_request, carry_out, submit_each, rebalance}
use fpro_v.Backtest.Engine.History.{Steps, Steps-trans, Tracks, its_broker, tracking}
use fpro_v.Backtest.Engine.History.Actions.{Tracks-on_session_start}

module _ (F : Type 0) ⦃host : Host F⦄ where
  Tracks-open :
      (session : Date)
      → Tracks
          (its_broker {F = F})
          (modify (λ w. record w { broker = set_session session w.broker }))
  unfolding Tracks
  Tracks-open session s t a h =
      subst (Steps s.broker) (ap (λ x. x.1.broker) h) (Steps.next Steps.start (Step.opens session))

module _ {F : Type 0} ⦃host : Host F⦄ where
  Tracks-settle_each :
      (config : BacktestConfig F) (at : Datetime) (held : List Key)
      (lifecycles : Dict Key (Option Date)) (keys : List Key)
      → Tracks its_broker (settle_each config at held lifecycles keys)
  unfolding settle_each
  Tracks-settle_each config at held lifecycles [] = search tracking depth 12
  Tracks-settle_each config at held lifecycles (key ∷ keys) =
      search (tracking, Tracks-settle_each config at held lifecycles keys) depth 14

  Tracks-settle_missing :
      (config : BacktestConfig F) (reader : Reader F) (at : Datetime) (held missing : List Key)
      → Tracks its_broker (settle_missing config reader at held missing)
  Tracks-settle_missing config reader at held [] = search tracking depth 12
  Tracks-settle_missing config reader at held (key ∷ keys) =
      search (tracking, Tracks-settle_each) depth 12

  Tracks-check_managed :
      (config : BacktestConfig F) (reader : Reader F) (at : Datetime) (held managed : List Key)
      → Tracks its_broker (check_managed config reader at held managed)
  Tracks-check_managed config reader at held [] = search tracking depth 12
  Tracks-check_managed config reader at held (key ∷ keys) =
      search (tracking, Tracks-settle_missing) depth 12

  Tracks-check_lifecycles :
      (config : BacktestConfig F) (reader : Reader F) (at : Datetime)
      → Tracks its_broker (check_lifecycles config reader at)
  unfolding check_lifecycles
  Tracks-check_lifecycles config reader at = search (tracking, Tracks-check_managed) depth 12

  pub Tracks-start_session :
      (config : BacktestConfig F) (reader : Reader F) (at : Datetime)
      → Tracks its_broker (start_session config reader at)
  unfolding start_session
  Tracks-start_session config reader at =
      search (tracking, Tracks-on_session_start, Tracks-check_lifecycles, Tracks-open) depth 14

  Tracks-apply_fills : (fills : List (Fill F)) → Tracks its_broker (apply_fills fills)
  unfolding apply_fills
  Tracks-apply_fills [] = search tracking depth 12
  Tracks-apply_fills (fill ∷ fills) = search (tracking, Tracks-apply_fills fills) depth 12

  Tracks-match_pending :
      (reader : Reader F) (event : Event) (bars : Dict Text (Bar F)) (symbols : List Text)
      → Tracks its_broker (match_pending reader event bars symbols)
  Tracks-match_pending reader event bars [] = search tracking depth 12
  Tracks-match_pending reader event bars (_ ∷ _) = search (tracking, Tracks-apply_fills) depth 12

  pub Tracks-match_event :
      (b : Bool) (reader : Reader F) (event : Event) (bars : Dict Text (Bar F))
      → Tracks its_broker (match_event b reader event bars)
  Tracks-match_event true reader event bars = search (tracking, Tracks-match_pending) depth 12
  Tracks-match_event false reader event bars = search tracking depth 12

  Tracks-submit_each :
      (requests : List (OrderRequest F)) (at : Datetime)
      → Tracks its_broker (submit_each requests at)
  unfolding submit_each
  Tracks-submit_each [] at = search tracking depth 12
  Tracks-submit_each (request ∷ requests) at =
      search (tracking, Tracks-submit_each requests at) depth 12

  pub Tracks-rebalance :
      (config : BacktestConfig F) (reader : Reader F) (event : Event) (account : AccountSnapshot F)
      (weights : Option (Dict Text F))
      → Tracks its_broker (rebalance config reader event account weights)
  Tracks-rebalance config reader event account none = search tracking depth 12
  Tracks-rebalance config reader event account (some weights) =
      search (tracking, Tracks-submit_each) depth 12

  -- every step of a plan is a call of the broker, or none
  pub carry_out-Steps :
      {S : Type 0} (at : Datetime) (plan : Plan F S) (w : World F)
      → Steps w.broker (carry_out at plan w).1.1.broker
  unfolding carry_out
  carry_out-Steps at (Plan.returns s weights) w = Steps.start
  carry_out-Steps at (Plan.raises s e) w = Steps.start
  carry_out-Steps at (Plan.orders symbol side quantity follow) w =
      let request = plain_request symbol side quantity in
      Steps-trans (Steps.next Steps.start (Step.submits request at)) (
        carry_out-Steps at (follow (submit request at w.broker).0)
          (on_broker (submit request at) w).1)
  carry_out-Steps at (Plan.cancels order_id follow) w =
      Steps-trans (Steps.next Steps.start (Step.cancels order_id at)) (
        carry_out-Steps at (follow (cancel order_id at w.broker).0)
          (record w { broker = (cancel order_id at w.broker).1 }))
  carry_out-Steps at (Plan.looks follow) w = carry_out-Steps at (follow w.broker.pending) w
