-- ===== src/Backtest/Engine/Replay.antt =====
-- The run of a backtest from its first event to its result (src/backtest/engine.py).
use fpro_v.Base.{
  Bool, true, false, not, Option, none, some, List, [], ◌∷◌, map, filter, foldl, ◌==◌, length,
  member, sort, Text, text_eq, text_ltb, nat_eq, Datetime, Dict, insert, Result, ok, bind,
  raise_when, ⊤, data_error,
}
use fpro_v.Base.Host.{Host}
use fpro_v.Base.Method.{Method, ◌>>=◌, pure, gets, reads, modify}
use fpro_v.MarketData.Identity.{History as Identities}
use fpro_v.Backtest.Clock.{Event, EventKind, move_to}
use fpro_v.Backtest.Config.{BacktestConfig}
use fpro_v.Backtest.Domain.{EquitySnapshot}
use fpro_v.Backtest.Portfolio.State.{Key, key_eq, code, identity, assert_valid}
use fpro_v.Backtest.Broker.State.{Broker, expire_all}
use fpro_v.Backtest.CorporateActions.Sessions.{on_portfolio}
use fpro_v.Backtest.Engine.{Reader, Strategy, Engine, BacktestResult, on_world}
use fpro_v.Backtest.Engine.Sessions.{start_session, end_session, identities_of}
use fpro_v.Backtest.Engine.Bars.{process_bar}
use fpro_v.Backtest.Engine.Calls.{run_strategy}

-- `identity(symbol): symbol for symbol in …`
unfoldable pub by_identity : Option Identities → List Text → Result (List (Key × Text))
by_identity h [] = ok []
by_identity h (symbol ∷ symbols) =
    bind (identity h (code symbol))
      λ key. bind (by_identity h symbols) λ rest. ok ((key, symbol) ∷ rest)

abbrev pub or_none : Option (List Text) → List Text
or_none none = []
or_none (some symbols) = symbols

abbrev pub is_market : EventKind → Bool
is_market EventKind.bar = true
is_market EventKind.auction = true
is_market _ = false

-- `if self.clock.now is not None`
abbrev pub expire_at : {F : Type 0} → Option Datetime → Broker F → Broker F
expire_at none b = b
expire_at (some now) b = expire_all now b

module _ {F S : Type 0} where
  -- `_missing_requested_symbols`
  unfoldable pub missing_requested_symbols : BacktestConfig F → Engine F S → Result (List Text)
  missing_requested_symbols config e =
      let h = e.world.portfolio.identities in
      bind (identities_of h e.symbols_with_bars) λ observed.
        bind (by_identity h (or_none config.symbols)) λ rows.
          let requested = foldl (λ (d : Dict Key Text) row. insert row.0 row.1 d) [] rows in
          ok (sort text_ltb (map (λ x. x.1) (filter (λ x. not (member x.0 observed)) requested)))

  abbrev pub expired : Engine F S → Engine F S
  expired e = record e { world = record e.world { broker = expire_at e.now e.world.broker } }

  unfoldable pub result_of : List Event → List Text → Engine F S → BacktestResult F
  result_of events missing e = record {
    sessions = map (λ (row : EquitySnapshot F). row.session) e.equity;
    orders = e.world.broker.orders;
    order_updates = e.world.broker.updates;
    fills = e.world.broker.fills;
    equity = e.equity;
    market_data_coverage = record {
      expected_events = length (filter (λ (event : Event). is_market event.kind) events);
      events_with_bars = e.events_with_bars;
      bar_count = e.bar_count;
      symbols_with_bars = sort text_ltb e.symbols_with_bars;
      sessions_without_bars =
          filter (λ session. not (member session e.sessions_with_bars))
            (map (λ (row : EquitySnapshot F). row.session) e.equity);
      requested_symbols_without_bars = missing;
    };
  }

  abbrev pub move_clock : Datetime → Method (Engine F S) ⊤
  move_clock at e = let (answer, now) = move_to at e.now in (answer, record e { now = now })

module _ {F S : Type 0} ⦃host : Host F⦄ (config : BacktestConfig F) (reader : Reader F)
    (strategy : Strategy F S) where
  -- what `run` does for each kind of event
  abbrev pub handle : EventKind → Event → Method (Engine F S) ⊤
  handle EventKind.session_start event = on_world (start_session config reader event.at)
  handle EventKind.bar event = process_bar config reader event
  handle EventKind.auction event = process_bar config reader event
  handle EventKind.strategy event = run_strategy config reader strategy event
  handle EventKind.session_end event = end_session event

  unfoldable pub step : Event → Method (Engine F S) ⊤
  step event = do
    _ ← move_clock event.at
    _ ← handle event.kind event
    on_world (on_portfolio assert_valid)

  unfoldable pub replay : List Event → Method (Engine F S) ⊤
  replay [] = pure tt
  replay (event ∷ events) = do _ ← step event; replay events

  -- `run`
  unfoldable pub run : List Event → Method (Engine F S) (BacktestResult F)
  run events = do
    _ ← replay events
    _ ← modify expired
    _ ← reads (λ e. raise_when (e.bar_count == 0) data_error)
    missing ← reads (missing_requested_symbols config)
    gets (result_of events missing)
