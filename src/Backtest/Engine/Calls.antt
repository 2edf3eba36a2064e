-- ===== src/Backtest/Engine/Calls.antt =====
-- A call of the strategy (src/backtest/engine.py, src/backtest/strategy.py).
use fpro_v.Base.{
  ℕ, Bool, false, not, Option, none, some, List, [], ◌∷◌, map, filter, foldl, if◌then◌else◌, any,
  member, Text, text_eq, ◌=?◌, nat_eq, Date, Datetime, Dict, lookup, insert, Result, ok, raise,
  bind, raise_when, ⊤, value_error,
}
use fpro_v.Base.Int.{ℤ}
use fpro_v.Base.Host.{Host, ◌⊲◌, ◌≗◌, zero_f}
use fpro_v.Base.Method.{Method, ◌>>=◌, pure, gets, reads}
use fpro_v.MarketData.Identity.{History as Identities, sid_of, code_at}
use fpro_v.Backtest.Clock.{Event}
use fpro_v.Backtest.Config.{BacktestConfig}
use fpro_v.Backtest.Domain.{Side, OrderRequest, AccountSnapshot}
use fpro_v.Backtest.Orders.{validate_target_weights, create_orders}
use fpro_v.Backtest.Portfolio.State.{account_snapshot}
use fpro_v.Backtest.Broker.State.{submit, cancel, allowed_on}
use fpro_v.Backtest.CorporateActions.Sessions.{World, on_broker}
use fpro_v.Backtest.Engine.{Reader, Plan, Strategy, Engine, on_world}

module _ {F : Type 0} where
  -- `OrderRequest(symbol, side, quantity)`
  abbrev pub plain_request : Text → Side → ℤ → OrderRequest F
  plain_request symbol side quantity = record {
    symbol = symbol;
    side = side;
    quantity = quantity;
    target_weight = none;
    sid = none;
  }

  abbrev pub with_strategy :
      {S A : Type 0} → Result A → S × World F → Engine F S → Result A × Engine F S
  with_strategy answer (s, w) e = (answer, record e { strategy = s; world = w })

module _ {F : Type 0} ⦃host : Host F⦄ where
  -- A call of `on_event`: what the context does at the time `at` for each step of the plan
  unfoldable pub carry_out :
      {S : Type 0} → Datetime → Plan F S → World F → Result (Option (Dict Text F)) × (S × World F)
  carry_out at (Plan.returns s weights) w = (ok weights, (s, w))
  carry_out at (Plan.raises s e) w = (raise e, (s, w))
  carry_out at (Plan.orders symbol side quantity next) w =
      let (answer, w') = on_broker (submit (plain_request symbol side quantity) at) w in
      carry_out at (next answer) w'
  carry_out at (Plan.cancels order_id next) w =
      let (found, b) = cancel order_id at w.broker in
      carry_out at (next found) (record w { broker = b })
  carry_out at (Plan.looks next) w = carry_out at (next w.broker.pending) w

  abbrev pub call_strategy :
      {S : Type 0} → Strategy F S → Event → Method (Engine F S) (Option (Dict Text F))
  call_strategy strategy event e =
      let plan = strategy.on_event event (account_snapshot e.world.portfolio) e.strategy in
      let (answer, left) = carry_out event.at plan e.world in with_strategy answer left e

  -- the weights by identity; two weights of one identity that differ are refused
  abbrev pub differs : Option F → F → Bool
  differs none weight = false
  differs (some other) weight = not (other ≗ weight)

  unfoldable pub weights_by_sid : Identities → Dict Text F → Dict ℕ F → Result (Dict ℕ F)
  weights_by_sid h [] normalized = ok normalized
  weights_by_sid h ((symbol, weight) ∷ weights) normalized =
      bind (validate_target_weights ((symbol, weight) ∷ [])) λ _. bind (sid_of h symbol) λ n.
        if differs (lookup n normalized) weight
        then raise value_error
        else weights_by_sid h weights (insert n weight normalized)

  unfoldable pub weights_by_code : Identities → Date → Dict ℕ F → Dict Text F → Result (Dict Text F)
  weights_by_code h session [] weights = ok weights
  weights_by_code h session ((n, weight) ∷ normalized) weights =
      bind (code_at h n session)
        λ symbol. weights_by_code h session normalized (insert symbol weight weights)

  abbrev pub todays_weights : Option Identities → Date → Dict Text F → Result (Dict Text F)
  todays_weights none session weights = ok weights
  todays_weights (some h) session weights =
      bind (weights_by_sid h weights []) λ normalized. weights_by_code h session normalized []

  -- `set(targets) - set(allowed)`
  abbrev pub outside_universe : Option (List Text) → Dict Text F → Bool
  outside_universe none targets = false
  outside_universe (some allowed) targets = any (λ x. not (member x.0 allowed)) targets

  -- a dict of the rows that have a close; `prices.get` reads a missing one and a None alike
  abbrev pub add_close : Dict Text F → Text × Option F → Dict Text F
  add_close prices (symbol, none) = filter (λ x. not (x.0 =? symbol)) prices
  add_close prices (symbol, some close) = insert symbol close prices

  abbrev pub closes_of : Reader F → Event → Text → List Text → Result (Dict Text F)
  closes_of reader event frequency [] = ok []
  closes_of reader event frequency (symbol ∷ symbols) =
      bind (reader.last_closes event.at (symbol ∷ symbols) frequency)
        λ rows. ok (foldl add_close [] rows)

  -- the orders that weights ask for
  unfoldable pub target_orders :
      BacktestConfig F
      → Reader F
      → Event
      → AccountSnapshot F
      → Option Identities
      → Dict Text F
      → Result (List (OrderRequest F))
  target_orders config reader event account h weights =
      bind (todays_weights h event.session weights) λ todays.
        bind (validate_target_weights todays) λ targets.
          bind (allowed_on h config.symbols event.session) λ allowed.
            bind (raise_when (outside_universe allowed targets) value_error) λ _.
              bind
                (closes_of reader event config.frequency
                  (map (λ x. x.0) (filter (λ x. zero_f ⊲ x.1) targets)))
                λ prices. create_orders targets account prices event.session

  unfoldable pub submit_each : List (OrderRequest F) → Datetime → Method (World F) ⊤
  submit_each [] at = pure tt
  submit_each (request ∷ requests) at = do
    _ ← on_broker (submit request at)
    submit_each requests at

  abbrev pub rebalance :
      BacktestConfig F
      → Reader F
      → Event
      → AccountSnapshot F
      → Option (Dict Text F)
      → Method (World F) ⊤
  rebalance config reader event account none = pure tt
  rebalance config reader event account (some weights) = do
    requests ← reads (λ w. target_orders config reader event account w.portfolio.identities weights)
    submit_each requests event.at

  -- `_run_strategy`
  unfoldable pub run_strategy :
      {S : Type 0} → BacktestConfig F → Reader F → Strategy F S → Event → Method (Engine F S) ⊤
  run_strategy config reader strategy event = do
    account ← gets (λ e. account_snapshot e.world.portfolio)
    weights ← call_strategy strategy event
    on_world (rebalance config reader event account weights)
