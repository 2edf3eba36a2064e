-- ===== src/Backtest/Engine/History/Runs.antt =====
-- The result of a backtest accounts for every order (src/backtest/engine.py).
use fpro_v.Base.{
  ◌++◌, ◌==◌, raise_when, data_error, ok-injective, bind-eq-ok, ℕ, ◌≡◌, ◌≤◌, refl, sym, ap, subst,
  ◌∙◌, Option, some, List, [], ◌∷◌, Date, Datetime, ok, count, arith, inl, inr,
}
use fpro_v.Base.Host.{Host}
use fpro_v.Base.Method.{Method, modify, continue-eq-ok}
use fpro_v.MarketData.Identity.{History as Identities}
use fpro_v.Backtest.Clock.{Event, EventKind}
use fpro_v.Backtest.Config.{BacktestConfig}
use fpro_v.Backtest.Domain.{Bar, EquitySnapshot}
use fpro_v.Backtest.Portfolio.State.{Key, account_snapshot}
use fpro_v.Backtest.Broker.State.{Broker, expire_all}
use fpro_v.Backtest.Broker.State.{create as create_broker}
use fpro_v.Backtest.Broker.State.Accounts.{
  has_id, ends, IsAccounted, create-IsAccounted, expire_all-IsAccounted,
}
use fpro_v.Backtest.Portfolio.State.{create as create_portfolio}
use fpro_v.Backtest.CorporateActions.Processor.{Processor}
use fpro_v.Backtest.Schedule.{schedule_events}
use fpro_v.Backtest.Clock.{MarketHours, market_timeline, is_empty}
use fpro_v.Backtest.Engine.{create, check_universe}
use fpro_v.Backtest.Broker.Lifecycle.{Step-IsAccounted}
use fpro_v.Backtest.CorporateActions.Sessions.{World}
use fpro_v.Backtest.Engine.{Engine, Reader, Strategy, on_world, BacktestResult}
use fpro_v.Backtest.Engine.Sessions.{end_session}
use fpro_v.Backtest.Engine.Bars.{count_bars, process_bar}
use fpro_v.Backtest.Engine.Calls.{run_strategy, call_strategy}
use fpro_v.Backtest.Engine.Replay.{
  step, replay, run, handle, move_clock, expired, missing_requested_symbols, result_of,
}
use fpro_v.Backtest.Engine.History.{
  Steps, Tracks, Tracks-bind, Tracks-keeps, its_broker, Tracks-pure, Tracks-gets, Tracks-reads,
  Tracks-on_portfolio,
}
use fpro_v.Backtest.Engine.History.Times.{replay-now}
use fpro_v.Backtest.Engine.History.Actions.{Tracks-on_session_end}
use fpro_v.Backtest.Engine.History.Sessions.{
  Tracks-start_session, Tracks-match_event, Tracks-rebalance, carry_out-Steps,
}

module _ {F : Type 0} (S : Type 0) ⦃host : Host F⦄ where
  abbrev engine_broker : Engine F S → Broker F
  engine_broker e = e.world.broker

  Tracks-on_world :
      {A : Type 0} (m : Method (World F) A)
      → Tracks its_broker m
      → Tracks engine_broker (on_world m)
  unfolding Tracks
  Tracks-on_world m k s t a h = k s.world t.world a (ap (λ x. (x.0, x.1.world)) h)

  Tracks-call_strategy :
      (strategy : Strategy F S) (event : Event)
      → Tracks engine_broker (call_strategy strategy event)
  unfolding Tracks
  Tracks-call_strategy strategy event s t a h =
      subst (Steps s.world.broker) (ap (λ x. x.1.world.broker) h) (
        carry_out-Steps event.at
          (strategy.on_event event (account_snapshot s.world.portfolio) s.strategy) s.world)

  Tracks-count_bars :
      (bars : List (Key × Bar F)) → Tracks engine_broker (modify (count_bars {S = S} bars))
  unfolding count_bars
  Tracks-count_bars [] = Tracks-keeps engine_broker _ (λ s. refl)
  Tracks-count_bars (_ ∷ _) = Tracks-keeps engine_broker _ (λ s. refl)

  ruleset running =
      (Tracks-bind, Tracks-pure, Tracks-gets, Tracks-reads, Tracks-on_portfolio, Tracks-on_world)

  module _ (config : BacktestConfig F) (reader : Reader F) (strategy : Strategy F S) where
    Tracks-process_bar : (event : Event) → Tracks engine_broker (process_bar config reader event)
    unfolding process_bar
    Tracks-process_bar event = search (running, Tracks-count_bars, Tracks-match_event) depth 14

    Tracks-run_strategy :
        (event : Event) → Tracks engine_broker (run_strategy config reader strategy event)
    unfolding run_strategy
    Tracks-run_strategy event = search (running, Tracks-call_strategy, Tracks-rebalance) depth 14

    Tracks-snapshot :
        (snapshot : EquitySnapshot F)
        → Tracks engine_broker
            (modify (λ (e : Engine F S). record e { equity = e.equity ++ (snapshot ∷ []) }))
    Tracks-snapshot snapshot = Tracks-keeps engine_broker _ (λ s. refl)

    Tracks-end_session : (event : Event) → Tracks engine_broker (end_session event)
    unfolding end_session
    Tracks-end_session event = search (running, Tracks-on_session_end, Tracks-snapshot) depth 14

    Tracks-handle :
        (kind : EventKind) (event : Event)
        → Tracks engine_broker (handle config reader strategy kind event)
    Tracks-handle EventKind.session_start event =
        Tracks-on_world _ (Tracks-start_session config reader event.at)
    Tracks-handle EventKind.bar event = Tracks-process_bar event
    Tracks-handle EventKind.auction event = Tracks-process_bar event
    Tracks-handle EventKind.strategy event = Tracks-run_strategy event
    Tracks-handle EventKind.session_end event = Tracks-end_session event

    Tracks-move_clock : (at : Datetime) → Tracks engine_broker (move_clock at)
    Tracks-move_clock at = Tracks-keeps engine_broker (move_clock at) (λ s. refl)

    Tracks-step : (event : Event) → Tracks engine_broker (step config reader strategy event)
    unfolding step
    Tracks-step event = search (running, Tracks-move_clock, Tracks-handle) depth 14

    Tracks-replay :
        (events : List Event) → Tracks engine_broker (replay config reader strategy events)
    unfolding replay
    Tracks-replay [] = search running depth 12
    Tracks-replay (event ∷ events) = search (running, Tracks-step, Tracks-replay events) depth 12

    -- a run that has met a bar has set the clock
    has_time :
        (events : List Event) (e u : Engine F S)
        → e.bar_count ≡ 0
        → replay config reader strategy events e ≡ (ok tt, u)
        → raise_when (u.bar_count == 0) data_error ≡ ok tt
        → (at : Datetime) × (u.now ≡ some at)
    has_time events e u none_yet replayed checked =
        elim (replay-now S config reader strategy events e u replayed) [
          | inl same ↦
              let still : u.bar_count ≡ 0 = ap (λ x. x.bar_count) same ∙ none_yet in
              ground (arith, still, checked)
          | inr timed ↦ timed
        ]

    -- the broker of a run before its waiting orders expire, and the lists that the result shows
    run-Steps :
        (events : List Event) (e t : Engine F S) (result : BacktestResult F)
        → e.bar_count ≡ 0
        → run config reader strategy events e ≡ (ok result, t)
        → (u : Engine F S) × Steps e.world.broker u.world.broker
          × ((at : Datetime) × (u.now ≡ some at) × (t ≡ expired u))
          × (result.orders ≡ t.world.broker.orders)
          × (result.order_updates ≡ t.world.broker.updates)
    unfolding run result_of Tracks
    run-Steps events e t result none_yet h =
        let (_, replayed, h₁) =
          continue-eq-ok (replay config reader strategy events e).0 _
            (replay config reader strategy events e).1 h in
        let u = (replay config reader strategy events e).1 in
        let (_, checked, h₂) =
          continue-eq-ok (raise_when (u.bar_count == 0) data_error) _ (expired u) h₁ in
        let (at, timed) : (at : Datetime) × (u.now ≡ some at) =
          has_time events e u none_yet (ap (λ r. (r, u)) replayed) checked in
        let (missing, found, h₃) =
          continue-eq-ok (missing_requested_symbols config (expired u)) _ (expired u) h₂ in
        let left : expired u ≡ t = ap (λ x. x.1) h₃ in
        let shown : result_of events missing (expired u) ≡ result =
          ok-injective (ap (λ x. x.0) h₃) in
        (
          u,
          Tracks-replay events e u tt (ap (λ r. (r, u)) replayed),
          (at, timed, sym left),
          sym (ap (λ x. x.orders) shown) ∙ ap (λ x. x.world.broker.orders) left,
          sym (ap (λ x. x.order_updates) shown) ∙ ap (λ x. x.world.broker.updates) left,
        )

module _ {F S : Type 0} ⦃host : Host F⦄ (config : BacktestConfig F) (reader : Reader F)
    (strategy : Strategy F S) where
  -- what a backtest starts with
  create-starts :
      (identities : Option Identities) (market : MarketHours) (sessions calendar : List Date)
      (start : S) (actions : Processor F) (events : List Event) (e : Engine F S)
      → create identities config market sessions calendar strategy start actions ≡ ok (events, e)
      → (e.world.broker ≡ create_broker config identities) × (e.bar_count ≡ 0)
  unfolding create
  create-starts identities market sessions calendar start actions events e h =
      let (_, _, h₁) = bind-eq-ok (raise_when (is_empty sessions) data_error) _ h in
      let (_, _, h₂) = bind-eq-ok (check_universe identities config.symbols) _ h₁ in
      let (market_events, _, h₃) =
        bind-eq-ok (market_timeline sessions config.frequency market) _ h₂ in
      let (_, _, h₄) =
        bind-eq-ok (schedule_events strategy.schedule market_events calendar market) _ h₃ in
      let (_, _, h₅) = bind-eq-ok (create_portfolio config.initial_cash identities) _ h₄ in
      let made = ok-injective h₅ in
      (sym (ap (λ x. x.1.world.broker) made), sym (ap (λ x. x.1.bar_count) made))

  IsAccounted-Steps : {b c : Broker F} → IsAccounted b → Steps b c → IsAccounted c
  IsAccounted-Steps h Steps.start = h
  IsAccounted-Steps h (Steps.next s call) = Step-IsAccounted (IsAccounted-Steps h s) call

  expired-ends :
      (u : Engine F S) (at : Datetime)
      → u.now ≡ some at
      → IsAccounted u.world.broker
      → let b = (expired u).world.broker in
        (n : ℕ)
        → (b.pending ≡ [])
          × (count (ends n) b.updates ≡ count (has_id n) b.orders)
          × (count (has_id n) b.orders ≤ 1)
  unfolding expire_all
  expired-ends u at timed h n =
      let closed = expire_all-IsAccounted at u.world.broker h in
      rw timed (refl, omega (arith, closed.balance n), closed.unique n)

  -- A backtest that is created and whose run returns, with any strategy and any data. No order is
  -- waiting after it, and in its result each order number is submitted at most once and has as many
  -- closing updates as submissions: every order has ended exactly once.
  pub run-Accounts :
      (identities : Option Identities) (market : MarketHours) (sessions calendar : List Date)
      (start : S) (actions : Processor F) (events : List Event) (e t : Engine F S)
      (result : BacktestResult F) (n : ℕ)
      → create identities config market sessions calendar strategy start actions ≡ ok (events, e)
      → run config reader strategy events e ≡ (ok result, t)
      → (t.world.broker.pending ≡ [])
        × (count (ends n) result.order_updates ≡ count (has_id n) result.orders)
        × (count (has_id n) result.orders ≤ 1)
  run-Accounts identities market sessions calendar start actions events e t result n made h =
      let (first, none_yet) =
        create-starts identities market sessions calendar start actions events e made in
      let (u, steps, (at, timed, left), orders, updates) =
        run-Steps S config reader strategy events e t result none_yet h in
      let before : IsAccounted e.world.broker =
        subst IsAccounted (sym first) (create-IsAccounted config identities) in
      rw (orders, updates, left) (expired-ends u at timed (IsAccounted-Steps before steps) n)
