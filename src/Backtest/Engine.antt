-- ===== src/Backtest/Engine.antt =====
-- The engine that drives a backtest through its events: its interfaces and its state
-- (src/backtest/engine.py, src/backtest/strategy.py).
pub mod Sessions
pub mod Bars
pub mod Calls
pub mod Replay
pub mod History
mod Tests
use fpro_v.Base.{
  ℕ, zero, ◌+◌, Bool, true, false, not, ◌&&◌, ◌||◌, Option, none, some, List, [], ◌∷◌, ◌++◌, sort,
  Text, Date, Datetime, Dict, Result, ok, raise, bind, ltb, ◌==◌, if◌then◌else◌, raise_when, ⊤,
  data_error, Error,
}
use fpro_v.Base.Int.{ℤ}
use fpro_v.Base.Host.{Host}
use fpro_v.Base.Method.{Method, reads, ◌>>=◌, pure}
use fpro_v.MarketData.Identity.{History as Identities, canonical_symbols}
use fpro_v.Backtest.Domain.{Side, Order, AccountSnapshot, EquitySnapshot, OrderUpdate, Fill}
use fpro_v.Backtest.Config.{BacktestConfig}
use fpro_v.Backtest.Clock.{Event, EventKind, MarketHours, market_timeline, is_empty}
use fpro_v.Backtest.Schedule.{Schedule, schedule_events}
use fpro_v.Backtest.Portfolio.State.{Key, create as create_portfolio}
use fpro_v.Backtest.Broker.State.{create as create_broker}
use fpro_v.Backtest.Broker.Market.{DataView}
use fpro_v.Backtest.CorporateActions.Processor.{Processor, set_sessions}
use fpro_v.Backtest.CorporateActions.Sessions.{World}

-- a row of the bars that the engine reads
pub record BarRow (F : Type 0) : Type 0 where
  pub symbol : Text
  pub interval_start : Datetime
  pub open_price : Option F
  pub close : Option F

-- `DataReader`, as far as the engine asks it. The first argument of a query is the time of its view;
-- no universe stands for `ALL_SYMBOLS`.
pub record Reader (F : Type 0) : Type 0 where
  pub view : Datetime → DataView F
  pub bars : Datetime → Option (List Text) → Text → Datetime → Datetime → Result (List (BarRow F))
  pub last_closes : Datetime → List Text → Text → Result (List (Text × Option F))
  -- the codes that `listed_symbols` returns
  pub listed_symbols : Datetime → Result (List Text)
  -- a code and its delisting date
  pub security_lifecycles : List Text → Result (List (Text × Option Date))

-- What a strategy does in a call of `on_event`, one call of its context at a time. It leaves a state `S` and
-- returns or raises; an exception of `order` it may catch.
pub data Plan (F S : Type 0) : Type 0 where
  returns : S → Option (Dict Text F) → Plan F S
  raises : S → Error → Plan F S
  orders : Text → Side → ℤ → (Result (Order F) → Plan F S) → Plan F S
  cancels : ℕ → (Bool → Plan F S) → Plan F S
  looks : (List (Order F) → Plan F S) → Plan F S

pub record Strategy (F S : Type 0) : Type 0 where
  pub schedule : Schedule
  pub on_event : Event → AccountSnapshot F → S → Plan F S

-- The state of a run.
pub record Engine (F S : Type 0) : Type 0 where
  pub now : Option Datetime
  pub world : World F
  pub strategy : S
  pub equity : List (EquitySnapshot F)
  pub bar_count : ℕ
  pub events_with_bars : ℕ
  pub sessions_with_bars : List Date
  pub symbols_with_bars : List Text
  pub last_bar_starts : Dict Key Datetime

pub record MarketDataCoverage : Type 0 where
  pub expected_events : ℕ
  pub events_with_bars : ℕ
  pub bar_count : ℕ
  pub symbols_with_bars : List Text
  pub sessions_without_bars : List Date
  pub requested_symbols_without_bars : List Text

pub record BacktestResult (F : Type 0) : Type 0 where
  pub sessions : List Date
  pub orders : List (Order F)
  pub order_updates : List (OrderUpdate F)
  pub fills : List (Fill F)
  pub equity : List (EquitySnapshot F)
  pub market_data_coverage : MarketDataCoverage

-- at the same time the market comes first, then the strategy, then the end of the session
abbrev pub priority : EventKind → ℕ
priority EventKind.session_start = 0
priority EventKind.auction = 1
priority EventKind.bar = 1
priority EventKind.strategy = 2
priority EventKind.session_end = 3

abbrev pub event_before : Event → Event → Bool
event_before a b = ltb a.at b.at || ((a.at == b.at) && ltb (priority a.kind) (priority b.kind))

-- the sorted events of a run; an element stays before the next unless that one comes strictly first
unfoldable pub ordered_events : List Event → List Event → List Event
ordered_events market strategy = sort (λ b a. event_before b a) (market ++ strategy)

module _ {F S : Type 0} where
  abbrev pub on_world : {A : Type 0} → Method (World F) A → Method (Engine F S) A
  on_world m e = let (answer, w) = m e.world in (answer, record e { world = w })

-- the check of the universe of the configuration
abbrev pub check_universe : Option Identities → Option (List Text) → Result ⊤
check_universe (some h) (some symbols) = bind (canonical_symbols h symbols) λ _. ok tt
check_universe _ _ = ok tt

module _ {F S : Type 0} ⦃host : Host F⦄ where
  -- `__init__`: the events of the run, and the state before it
  unfoldable pub create :
      Option Identities
      → BacktestConfig F
      → MarketHours
      → List Date
      → List Date
      → Strategy F S
      → S
      → Processor F
      → Result (List Event × Engine F S)
  create identities config market sessions calendar strategy start actions =
      bind (raise_when (is_empty sessions) data_error) λ _.
        bind (check_universe identities config.symbols) λ _.
          bind (market_timeline sessions config.frequency market) λ market_events.
            bind (schedule_events strategy.schedule market_events calendar market)
              λ strategy_events. bind (create_portfolio config.initial_cash identities) λ portfolio.
                ok (
                  ordered_events market_events strategy_events,
                  record {
                    now = none;
                    world = record {
                      processor = set_sessions sessions config.start_date config.end_date actions;
                      portfolio = portfolio;
                      broker = create_broker config identities;
                    };
                    strategy = start;
                    equity = [];
                    bar_count = 0;
                    events_with_bars = 0;
                    sessions_with_bars = [];
                    symbols_with_bars = [];
                    last_bar_starts = [];
                  },
                )
