-- ===== src/Backtest/Engine/Tests.antt =====
-- A backtest of two days with one order, in millionths (src/backtest/engine.py).
use fpro_v.Base.{
  ℕ, zero, ◌+◌, ◌*◌, ◌≡◌, ◌≤◌, refl, ap, Bool, true, false, Option, none, some, List, [], ◌∷◌, map,
  count, Text, codes, date, at_time, date_of, Date, Datetime, Dict, Result, ok, raise, arith,
  if◌then◌else◌, ltb,
}
use fpro_v.Base.Int.{ℤ, pos}
use fpro_v.Base.Host.{Micro, micro_host}
use fpro_v.Backtest.Clock.{Event, MarketHours}
use fpro_v.Backtest.Schedule.{Schedule}
use fpro_v.Backtest.Config.{BacktestConfig}
use fpro_v.Backtest.Domain.{Side, Fill}
use fpro_v.Backtest.Broker.State.{create as create_broker}
use fpro_v.Backtest.Broker.State.Accounts.{has_id, ends}
use fpro_v.Backtest.CorporateActions.Processor.{Processor, create as create_processor}
use fpro_v.Backtest.Engine.{
  Engine, Reader, BarRow, Plan, Strategy, BacktestResult, MarketDataCoverage, create,
}
use fpro_v.Backtest.Engine.Replay.{run}
use fpro_v.Backtest.Engine.History.Runs.{run-Accounts}

abbrev clock_time : ℕ → ℕ → ℕ
clock_time hour minute = (hour * 60 + minute) * 60_000_000

abbrev hours : MarketHours
hours = record {
  exchange = codes "SSE";
  timezone = codes "Asia/Shanghai";
  opens_at = clock_time 9 25;
  closes_at = clock_time 16 5;
  segments = (clock_time 9 30, clock_time 11 30) ∷ (clock_time 13 0, clock_time 15 0) ∷ [];
  daily_bar_at = clock_time 16 5;
  opening_auction = none;
}

abbrev config : BacktestConfig Micro
config = record {
  start_date = date 2024 1 2;
  end_date = date 2024 1 3;
  frequency = codes "1d";
  symbols = none;
  initial_cash = pos 10_000_000_000;
  slippage_bps = pos 0;
  volume_limit = none;
  commission_rate = pos 300;
  minimum_commission = pos 5_000_000;
  delisting_policy = codes "error";
  cash_dividend_model = codes "source_cash_then_gross";
  fractional_share_model = codes "floor";
}

abbrev bank : Text
bank = codes "600000.SH"

-- Each day opens and closes at 10.
abbrev reader : Reader Micro
reader = record {
  view = λ at. record {
    status = λ symbols. ok (
        record {
          symbol = bank;
          suspended = some false;
          up_limit = some (pos 11_000_000);
          down_limit = some (pos 9_000_000);
          price_limit_status = some (codes "limited");
        }
        ∷ []);
    last_bars = λ symbols frequency. ok [];
  };
  bars = λ at symbols frequency start end. ok (
      record {
        symbol = bank;
        interval_start = start;
        open_price = some (pos 10_000_000);
        close = some (pos 10_000_000);
      }
      ∷ []);
  last_closes = λ at symbols frequency. ok [];
  listed_symbols = λ at. ok (bank ∷ []);
  security_lifecycles = λ symbols. ok [];
}

-- The strategy buys 200 shares in its first call.
abbrev plan : ℕ → Plan Micro ℕ
plan zero = Plan.orders bank Side.buy (pos 200) (λ answer. Plan.returns 1 none)
plan n = Plan.returns n none

abbrev strategy : Strategy Micro ℕ
strategy = record {
  schedule = record { every = codes "bar"; at = none; times = none };
  on_event = λ event account n. plan n;
}

abbrev sessions : List Date
sessions = date 2024 1 2 ∷ date 2024 1 3 ∷ []

abbrev no_engine : Engine Micro ℕ
no_engine = record {
  now = none;
  world = record {
    processor = create_processor [];
    portfolio = record {
      cash = pos 0;
      identities = none;
      session = none;
      positions = [];
      receivables = [];
      entitlements = [];
      pending_stock = [];
      last_equity = pos 0;
    };
    broker = create_broker config none;
  };
  strategy = 0;
  equity = [];
  bar_count = 0;
  events_with_bars = 0;
  sessions_with_bars = [];
  symbols_with_bars = [];
  last_bar_starts = [];
}

abbrev made_of : Result (List Event × Engine Micro ℕ) → List Event × Engine Micro ℕ
made_of (ok made) = made
made_of (raise _) = ([], no_engine)

abbrev made : List Event × Engine Micro ℕ
made = made_of (create none config hours sessions [] strategy 0 (create_processor []))

abbrev no_result : BacktestResult Micro
no_result = record {
  sessions = [];
  orders = [];
  order_updates = [];
  fills = [];
  equity = [];
  market_data_coverage = record {
    expected_events = 0;
    events_with_bars = 0;
    bar_count = 0;
    symbols_with_bars = [];
    sessions_without_bars = [];
    requested_symbols_without_bars = [];
  };
}

abbrev told : Result (BacktestResult Micro) → BacktestResult Micro
told (ok r) = r
told (raise _) = no_result

abbrev left : Result (BacktestResult Micro) × Engine Micro ℕ
left = run config reader strategy made.0 made.1

abbrev result : BacktestResult Micro
result = told left.0

is_made : create none config hours sessions [] strategy 0 (create_processor []) ≡ ok made
unfolding fpro_v.Backtest.Clock.middle_events fpro_v.Backtest.Clock.session_events
    fpro_v.Backtest.Clock.all_events fpro_v.Backtest.Clock.frequency_step
    fpro_v.Backtest.Clock.market_timeline fpro_v.Backtest.Engine.create
    fpro_v.Backtest.Portfolio.State.create fpro_v.Backtest.Schedule.rule_times
    fpro_v.Backtest.Schedule.trigger_times fpro_v.Backtest.Schedule.boundaries_of
    fpro_v.Backtest.Schedule.strategy_events fpro_v.Backtest.Schedule.build_strategy_events
    fpro_v.Backtest.Schedule.schedule_events fpro_v.Base.text_beq fpro_v.Base.sort
    fpro_v.Base.distinct fpro_v.Base.Int.◌*ℤ◌
is_made = refl

abbrev has_returned : Result (BacktestResult Micro) → Bool
has_returned (ok _) = true
has_returned (raise _) = false

told-ok :
    (answer : Result (BacktestResult Micro))
    → has_returned answer ≡ true
    → answer ≡ ok (told answer)
told-ok (ok r) h = refl
told-ok (raise _) h = cc

left-has_returned : has_returned left.0 ≡ true
unfolding fpro_v.Backtest.Broker.Execution.blocked fpro_v.Backtest.Broker.Execution.funded
    fpro_v.Backtest.Broker.Execution.sized fpro_v.Backtest.Broker.Execution.priced
    fpro_v.Backtest.Broker.Execution.opened fpro_v.Backtest.Broker.Execution.executable_quantity
    fpro_v.Backtest.Broker.Execution.make_fill fpro_v.Backtest.Broker.Market.market_statuses
    fpro_v.Backtest.Broker.Market.previous_volumes fpro_v.Backtest.Broker.Market.due_orders
    fpro_v.Backtest.Broker.Matching.assess fpro_v.Backtest.Broker.Matching.execute
    fpro_v.Backtest.Broker.Matching.conclude fpro_v.Backtest.Broker.Matching.match_order
    fpro_v.Backtest.Broker.Matching.match_orders fpro_v.Backtest.Broker.Matching.read_market
    fpro_v.Backtest.Broker.Matching.match_due fpro_v.Backtest.Broker.Matching.match_bar
    fpro_v.Backtest.Broker.Pricing.valid_price fpro_v.Backtest.Broker.Pricing.known_price_limits
    fpro_v.Backtest.Broker.Pricing.reaches_limit fpro_v.Backtest.Broker.Pricing.slipped
    fpro_v.Backtest.Broker.Pricing.legal_price fpro_v.Backtest.Broker.Pricing.fees
    fpro_v.Backtest.Broker.Pricing.fee_sum fpro_v.Backtest.Broker.Pricing.is_affordable
    fpro_v.Backtest.Broker.Pricing.first_from fpro_v.Backtest.Broker.Pricing.affordable_quantity
    fpro_v.Backtest.Broker.Pricing.volume_capacity fpro_v.Backtest.Broker.State.order_of
    fpro_v.Backtest.Broker.State.enqueue fpro_v.Backtest.Broker.State.create
    fpro_v.Backtest.Broker.State.set_session fpro_v.Backtest.Broker.State.trading_symbol
    fpro_v.Backtest.Broker.State.symbols_of fpro_v.Backtest.Broker.State.pending_symbols
    fpro_v.Backtest.Broker.State.admit fpro_v.Backtest.Broker.State.submit
    fpro_v.Backtest.Clock.middle_events fpro_v.Backtest.Clock.session_events
    fpro_v.Backtest.Clock.all_events fpro_v.Backtest.Clock.frequency_step
    fpro_v.Backtest.Clock.market_timeline fpro_v.Backtest.Clock.move_to
    fpro_v.Backtest.CorporateActions.Processor.index_actions
    fpro_v.Backtest.CorporateActions.Processor.create
    fpro_v.Backtest.CorporateActions.Processor.file_actions
    fpro_v.Backtest.CorporateActions.Processor.set_sessions
    fpro_v.Backtest.CorporateActions.Sessions.for_each
    fpro_v.Backtest.CorporateActions.Sessions.on_session_start
    fpro_v.Backtest.CorporateActions.Sessions.on_session_end fpro_v.Backtest.Engine.ordered_events
    fpro_v.Backtest.Engine.create fpro_v.Backtest.Engine.Bars.collect_bars
    fpro_v.Backtest.Engine.Bars.new_bars fpro_v.Backtest.Engine.Bars.count_bars
    fpro_v.Backtest.Engine.Bars.collect_prices fpro_v.Backtest.Engine.Bars.read_bars
    fpro_v.Backtest.Engine.Bars.apply_fills fpro_v.Backtest.Engine.Bars.process_bar
    fpro_v.Backtest.Engine.Calls.carry_out fpro_v.Backtest.Engine.Calls.run_strategy
    fpro_v.Backtest.Engine.Replay.by_identity
    fpro_v.Backtest.Engine.Replay.missing_requested_symbols fpro_v.Backtest.Engine.Replay.step
    fpro_v.Backtest.Engine.Replay.replay fpro_v.Backtest.Engine.Replay.run
    fpro_v.Backtest.Engine.Sessions.identities_of fpro_v.Backtest.Engine.Sessions.check_lifecycles
    fpro_v.Backtest.Engine.Sessions.start_session fpro_v.Backtest.Engine.Sessions.end_session
    fpro_v.Backtest.Portfolio.State.key_beq fpro_v.Backtest.Portfolio.State.identity
    fpro_v.Backtest.Portfolio.State.position_value fpro_v.Backtest.Portfolio.State.total_equity
    fpro_v.Backtest.Portfolio.State.create fpro_v.Backtest.Portfolio.State.is_valid
    fpro_v.Backtest.Portfolio.State.assert_valid fpro_v.Backtest.Portfolio.State.account_snapshot
    fpro_v.Backtest.Portfolio.Trading.set_session fpro_v.Backtest.Portfolio.Trading.unlock_t1
    fpro_v.Backtest.Portfolio.Trading.new_cash fpro_v.Backtest.Portfolio.Trading.filled
    fpro_v.Backtest.Portfolio.Trading.settle_fill fpro_v.Backtest.Portfolio.Trading.has_bad_amount
    fpro_v.Backtest.Portfolio.Trading.route_fill fpro_v.Backtest.Portfolio.Trading.apply_fill
    fpro_v.Backtest.Portfolio.Trading.normalize fpro_v.Backtest.Portfolio.Trading.mark_positions
    fpro_v.Backtest.Portfolio.Trading.mark_to_market
    fpro_v.Backtest.Portfolio.Trading.equity_snapshot fpro_v.Backtest.Schedule.rule_times
    fpro_v.Backtest.Schedule.trigger_times fpro_v.Backtest.Schedule.boundaries_of
    fpro_v.Backtest.Schedule.strategy_events fpro_v.Backtest.Schedule.build_strategy_events
    fpro_v.Backtest.Schedule.schedule_events fpro_v.Backtest.TradingRules.round_down
    fpro_v.Backtest.TradingRules.valid fpro_v.Backtest.TradingRules.partition_dot
    fpro_v.Backtest.TradingRules.quantity_rule fpro_v.MarketData.Identity.sorted_set
    fpro_v.Base.text_beq fpro_v.Base.starts_with fpro_v.Base.sort fpro_v.Base.distinct
    fpro_v.Base.Int.◌*ℤ◌ fpro_v.Base.Int.◌/ℤ◌ fpro_v.Base.Int.◌+ℤ◌ fpro_v.Base.Int.◌-ℤ◌
left-has_returned = refl

is_left : run config reader strategy made.0 made.1 ≡ (ok result, left.1)
is_left = ap (λ r. (r, left.1)) (told-ok left.0 left-has_returned)

-- The order of the first day is filled at the opening of the second.
result-fills :
    map {B = ℤ × Date} (λ (fill : Fill Micro). (fill.quantity, date_of fill.filled_at)) result.fills
    ≡ (pos 200, date 2024 1 3) ∷ []
unfolding fpro_v.Backtest.Broker.Execution.blocked fpro_v.Backtest.Broker.Execution.funded
    fpro_v.Backtest.Broker.Execution.sized fpro_v.Backtest.Broker.Execution.priced
    fpro_v.Backtest.Broker.Execution.opened fpro_v.Backtest.Broker.Execution.executable_quantity
    fpro_v.Backtest.Broker.Execution.make_fill fpro_v.Backtest.Broker.Market.market_statuses
    fpro_v.Backtest.Broker.Market.previous_volumes fpro_v.Backtest.Broker.Market.due_orders
    fpro_v.Backtest.Broker.Matching.assess fpro_v.Backtest.Broker.Matching.execute
    fpro_v.Backtest.Broker.Matching.conclude fpro_v.Backtest.Broker.Matching.match_order
    fpro_v.Backtest.Broker.Matching.match_orders fpro_v.Backtest.Broker.Matching.read_market
    fpro_v.Backtest.Broker.Matching.match_due fpro_v.Backtest.Broker.Matching.match_bar
    fpro_v.Backtest.Broker.Pricing.valid_price fpro_v.Backtest.Broker.Pricing.known_price_limits
    fpro_v.Backtest.Broker.Pricing.reaches_limit fpro_v.Backtest.Broker.Pricing.slipped
    fpro_v.Backtest.Broker.Pricing.legal_price fpro_v.Backtest.Broker.Pricing.fees
    fpro_v.Backtest.Broker.Pricing.fee_sum fpro_v.Backtest.Broker.Pricing.is_affordable
    fpro_v.Backtest.Broker.Pricing.first_from fpro_v.Backtest.Broker.Pricing.affordable_quantity
    fpro_v.Backtest.Broker.Pricing.volume_capacity fpro_v.Backtest.Broker.State.order_of
    fpro_v.Backtest.Broker.State.enqueue fpro_v.Backtest.Broker.State.create
    fpro_v.Backtest.Broker.State.set_session fpro_v.Backtest.Broker.State.trading_symbol
    fpro_v.Backtest.Broker.State.symbols_of fpro_v.Backtest.Broker.State.pending_symbols
    fpro_v.Backtest.Broker.State.expire_all fpro_v.Backtest.Broker.State.admit
    fpro_v.Backtest.Broker.State.submit fpro_v.Backtest.Clock.middle_events
    fpro_v.Backtest.Clock.session_events fpro_v.Backtest.Clock.all_events
    fpro_v.Backtest.Clock.frequency_step fpro_v.Backtest.Clock.market_timeline
    fpro_v.Backtest.Clock.move_to fpro_v.Backtest.CorporateActions.Processor.index_actions
    fpro_v.Backtest.CorporateActions.Processor.create
    fpro_v.Backtest.CorporateActions.Processor.file_actions
    fpro_v.Backtest.CorporateActions.Processor.set_sessions
    fpro_v.Backtest.CorporateActions.Sessions.for_each
    fpro_v.Backtest.CorporateActions.Sessions.on_session_start
    fpro_v.Backtest.CorporateActions.Sessions.on_session_end fpro_v.Backtest.Engine.ordered_events
    fpro_v.Backtest.Engine.create fpro_v.Backtest.Engine.Bars.collect_bars
    fpro_v.Backtest.Engine.Bars.new_bars fpro_v.Backtest.Engine.Bars.count_bars
    fpro_v.Backtest.Engine.Bars.collect_prices fpro_v.Backtest.Engine.Bars.read_bars
    fpro_v.Backtest.Engine.Bars.apply_fills fpro_v.Backtest.Engine.Bars.process_bar
    fpro_v.Backtest.Engine.Calls.carry_out fpro_v.Backtest.Engine.Calls.run_strategy
    fpro_v.Backtest.Engine.Replay.by_identity
    fpro_v.Backtest.Engine.Replay.missing_requested_symbols fpro_v.Backtest.Engine.Replay.result_of
    fpro_v.Backtest.Engine.Replay.step fpro_v.Backtest.Engine.Replay.replay
    fpro_v.Backtest.Engine.Replay.run fpro_v.Backtest.Engine.Sessions.identities_of
    fpro_v.Backtest.Engine.Sessions.check_lifecycles fpro_v.Backtest.Engine.Sessions.start_session
    fpro_v.Backtest.Engine.Sessions.end_session fpro_v.Backtest.Portfolio.State.key_beq
    fpro_v.Backtest.Portfolio.State.identity fpro_v.Backtest.Portfolio.State.position_value
    fpro_v.Backtest.Portfolio.State.total_equity fpro_v.Backtest.Portfolio.State.create
    fpro_v.Backtest.Portfolio.State.is_valid fpro_v.Backtest.Portfolio.State.assert_valid
    fpro_v.Backtest.Portfolio.State.account_snapshot fpro_v.Backtest.Portfolio.Trading.set_session
    fpro_v.Backtest.Portfolio.Trading.unlock_t1 fpro_v.Backtest.Portfolio.Trading.new_cash
    fpro_v.Backtest.Portfolio.Trading.filled fpro_v.Backtest.Portfolio.Trading.settle_fill
    fpro_v.Backtest.Portfolio.Trading.has_bad_amount fpro_v.Backtest.Portfolio.Trading.route_fill
    fpro_v.Backtest.Portfolio.Trading.apply_fill fpro_v.Backtest.Portfolio.Trading.normalize
    fpro_v.Backtest.Portfolio.Trading.mark_positions
    fpro_v.Backtest.Portfolio.Trading.mark_to_market
    fpro_v.Backtest.Portfolio.Trading.equity_snapshot fpro_v.Backtest.Schedule.rule_times
    fpro_v.Backtest.Schedule.trigger_times fpro_v.Backtest.Schedule.boundaries_of
    fpro_v.Backtest.Schedule.strategy_events fpro_v.Backtest.Schedule.build_strategy_events
    fpro_v.Backtest.Schedule.schedule_events fpro_v.Backtest.TradingRules.round_down
    fpro_v.Backtest.TradingRules.valid fpro_v.Backtest.TradingRules.partition_dot
    fpro_v.Backtest.TradingRules.quantity_rule fpro_v.MarketData.Identity.sorted_set
    fpro_v.Base.text_beq fpro_v.Base.starts_with fpro_v.Base.sort fpro_v.Base.distinct
    fpro_v.Base.Int.◌*ℤ◌ fpro_v.Base.Int.◌/ℤ◌ fpro_v.Base.Int.◌+ℤ◌ fpro_v.Base.Int.◌-ℤ◌
result-fills = refl

run-Accounts_example :
    (left.1.world.broker.pending ≡ [])
    × (count (ends 1) result.order_updates ≡ count (has_id 1) result.orders)
    × (count (has_id 1) result.orders ≤ 1)
run-Accounts_example =
    run-Accounts config reader strategy none hours sessions [] 0 (create_processor []) made.0 made.1
      left.1 result 1 is_made is_left
