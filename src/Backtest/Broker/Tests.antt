-- ===== src/Backtest/Broker/Tests.antt =====
-- Runs of a simulated broker in millionths (src/backtest/broker.py).
use fpro_v.Base.{
  ℕ, ◌+◌, ◌≡◌, ◌≢◌, ◌≤◌, ◌<◌, ◌⊎◌, refl, ap, true, false, Option, none, some, List, [], ◌∷◌, count,
  Text, codes, date, at_time, Datetime, Dict, Result, ok, raise, arith,
}
use fpro_v.Base.Int.{ℤ, pos, min_ℤ, max_ℤ, pos_part}
use fpro_v.Base.Host.{Micro, micro_host, divide, floor}
use fpro_v.Backtest.Clock.{Event, EventKind}
use fpro_v.Backtest.Config.{BacktestConfig, validate}
use fpro_v.Backtest.Domain.{
  Side, OrderReason, OrderRequest, Order, Bar, MarketStatus, PriceLimitStatus, Fill,
  AccountSnapshot,
}
use fpro_v.Backtest.Broker.Pricing.{is_affordable, affordable_quantity}
use fpro_v.Backtest.Broker.Pricing.Affordable.{affordable_quantity_greatest}
use fpro_v.Backtest.Broker.Execution.{Execution, executable_quantity}
use fpro_v.Backtest.Broker.Execution.Gates.{IsExecutable, executable_quantity-IsExecutable}
use fpro_v.Backtest.Broker.State.{Broker, create, submit, expire_all}
use fpro_v.Backtest.Broker.State.Accounts.{has_id, ends, IsAccounted}
use fpro_v.Backtest.Broker.Market.{DataView, StatusRow, VolumeRow}
use fpro_v.Backtest.Broker.Matching.{match_bar}
use fpro_v.Backtest.Broker.Lifecycle.{Run, start, next, submits, matches, Run-IsAccounted, Run-ends}

abbrev config : BacktestConfig Micro
config = record {
  start_date = date 2024 1 2;
  end_date = date 2024 1 3;
  frequency = codes "1d";
  symbols = none;
  initial_cash = pos 10_000_000_000;
  slippage_bps = pos 5_000_000;
  volume_limit = some (pos 100_000);
  commission_rate = pos 300;
  minimum_commission = pos 5_000_000;
  delisting_policy = codes "error";
  cash_dividend_model = codes "source_cash_then_gross";
  fractional_share_model = codes "floor";
}

config-validate : validate config ≡ ok tt
unfolding validate fpro_v.Base.text_beq fpro_v.Base.Int.◌*ℤ◌
config-validate = refl

-- 10 000 pay for 999 shares at 10: the commission of 5 takes the thousandth.
affordable :
    affordable_quantity config (pos 2_000) (pos 10_000_000) (pos 10_000_000_000) (date 2024 1 2)
    ≡ ok (pos 999)
unfolding affordable_quantity fpro_v.Base.Int.◌*ℤ◌ fpro_v.Backtest.Broker.Pricing.first_from
    fpro_v.Base.Int.◌/ℤ◌ is_affordable fpro_v.Base.Int.◌+ℤ◌ fpro_v.Backtest.Broker.Pricing.fee_sum
    fpro_v.Backtest.Broker.Pricing.fees
affordable = refl

affordable_quantity_greatest_example :
    (ratio : Micro) × (bound : ℤ) × (q : ℕ) × (divide ⦃h = micro_host⦄
        (pos 10_000_000_000)
        (pos 10_000_000)
      ≡ ok ratio)
    × (floor ⦃h = micro_host⦄ ratio ≡ ok bound)
    × (pos 999 ≡ pos q)
    × (q ≤ pos_part (min_ℤ (pos 2_000) (max_ℤ (pos 0) bound)))
    × ((q ≡ 0)
        ⊎ (is_affordable config (pos 10_000_000) (pos 10_000_000_000) (date 2024 1 2) q ≡ true))
    × ((m : ℕ)
        → q < m
        → m ≤ pos_part (min_ℤ (pos 2_000) (max_ℤ (pos 0) bound))
        → is_affordable config (pos 10_000_000) (pos 10_000_000_000) (date 2024 1 2) m ≡ false)
affordable_quantity_greatest_example =
    affordable_quantity_greatest config (pos 2_000) (pos 999) (pos 10_000_000) (pos 10_000_000_000)
      (date 2024 1 2) affordable

-- An order of the evening before, and the bar of the next day.
abbrev evening : Datetime
evening = at_time (date 2024 1 2) 60_000_000_000

abbrev morning : Datetime
morning = at_time (date 2024 1 3) 34_200_000_000

abbrev bank : Text
bank = codes "600000.SH"

abbrev request : OrderRequest Micro
request = record {
  symbol = bank;
  side = Side.buy;
  quantity = pos 200;
  target_weight = none;
  sid = none;
}

abbrev order : Order Micro
order = record {
  order_id = 1;
  symbol = bank;
  side = Side.buy;
  quantity = pos 200;
  submitted_at = evening;
  target_weight = none;
  sid = none;
}

abbrev waiting : Broker Micro
waiting = (submit request evening (create config none)).1

abbrev bar : Bar Micro
bar = record {
  symbol = bank;
  interval_start = morning;
  open_price = some (pos 10_000_000);
  close = none;
}

abbrev event : Event
event = record {
  at = at_time (date 2024 1 3) 54_000_000_000;
  session = date 2024 1 3;
  interval_start = morning;
  frequency = codes "1d";
  kind = EventKind.bar;
}

-- The data of one security that trades between 9 and 11, and of 1 500 shares the day before.
abbrev view : DataView Micro
view = record {
  status = λ _. ok (
      record {
        symbol = bank;
        suspended = some false;
        up_limit = some (pos 11_000_000);
        down_limit = some (pos 9_000_000);
        price_limit_status = some (codes "limited");
      }
      ∷ []);
  last_bars = λ _ _.
      ok (
        record { symbol = bank; interval_start = evening; volume = some (pos 1_500_000_000) } ∷ []);
}

abbrev account : AccountSnapshot Micro
account = record {
  cash = pos 10_000_000_000;
  dividend_receivable = pos 0;
  market_value = pos 0;
  total_equity = pos 10_000_000_000;
  holdings = [];
}

abbrev status : MarketStatus Micro
status = record {
  symbol = bank;
  suspended = some false;
  up_limit = some (pos 11_000_000);
  down_limit = some (pos 9_000_000);
  price_limit_status = PriceLimitStatus.limited;
}

-- The volume's share of 150 cuts the order of 200.
abbrev cut : Execution Micro
cut = record {
  quantity = pos 150;
  reason = OrderReason.volume_limit;
  price = some (pos 10_005_000);
}

order-executable_quantity :
    executable_quantity config order
      (some bar)
      status
      (some (pos 1_500_000_000))
      account.cash
      (pos 0)
      (date 2024 1 3)
    ≡ ok cut
unfolding executable_quantity fpro_v.Backtest.Broker.Execution.opened
    fpro_v.Backtest.Broker.Execution.priced fpro_v.Backtest.Broker.Execution.blocked
    fpro_v.Backtest.Broker.Execution.sized fpro_v.Backtest.Broker.Execution.funded
    fpro_v.Backtest.Broker.Pricing.valid_price fpro_v.Backtest.Broker.Pricing.known_price_limits
    fpro_v.Backtest.Broker.Pricing.reaches_limit fpro_v.Backtest.Broker.Pricing.slipped
    fpro_v.Backtest.Broker.Pricing.legal_price fpro_v.Backtest.Broker.Pricing.fees
    fpro_v.Backtest.Broker.Pricing.fee_sum fpro_v.Backtest.Broker.Pricing.is_affordable
    fpro_v.Backtest.Broker.Pricing.first_from fpro_v.Backtest.Broker.Pricing.volume_capacity
    affordable_quantity fpro_v.Backtest.TradingRules.quantity_rule
    fpro_v.Backtest.TradingRules.partition_dot fpro_v.Backtest.TradingRules.valid
    fpro_v.Backtest.TradingRules.round_down fpro_v.Base.text_beq fpro_v.Base.starts_with
    fpro_v.Base.Int.◌*ℤ◌ fpro_v.Base.Int.◌-ℤ◌ fpro_v.Base.Int.◌+ℤ◌ fpro_v.Base.Int.◌/ℤ◌
order-executable_quantity = refl

executable_quantity-IsExecutable_example :
    IsExecutable config order
      (some bar)
      status
      (some (pos 1_500_000_000))
      (pos 0)
      (date 2024 1 3)
      cut
executable_quantity-IsExecutable_example =
    executable_quantity-IsExecutable config order (some bar) status (some (pos 1_500_000_000))
      account.cash (pos 0) (date 2024 1 3) cut order-executable_quantity (λ e. ground arith)

abbrev matched : Result (List (Fill Micro)) × Broker Micro
matched = match_bar event ((bank, bar) ∷ []) account view waiting

abbrev new_fill : Fill Micro
new_fill = record {
  fill_id = 1;
  order_id = 1;
  symbol = bank;
  side = Side.buy;
  filled_at = morning;
  quantity = pos 150;
  market_price = pos 10_000_000;
  execution_price = pos 10_005_000;
  notional = pos 1_500_750_000;
  commission = pos 5_000_000;
  stamp_tax = pos 0;
  transfer_fee = pos 15_007;
  slippage_cost = pos 750_000;
  sid = none;
}

matched_once : matched.0 ≡ ok (new_fill ∷ [])
unfolding match_bar fpro_v.Backtest.Broker.Market.due_orders
    fpro_v.Backtest.Broker.Market.later_orders fpro_v.Backtest.Broker.Matching.match_due
    fpro_v.Backtest.Broker.Matching.read_market fpro_v.Backtest.Broker.Market.market_statuses
    fpro_v.Backtest.Broker.Market.previous_volumes fpro_v.Backtest.Broker.Matching.match_orders
    fpro_v.Backtest.Broker.Matching.match_order fpro_v.Backtest.Broker.Matching.assess
    fpro_v.Backtest.Broker.Matching.conclude fpro_v.Backtest.Broker.Matching.execute
    fpro_v.Backtest.Broker.Matching.leave fpro_v.Backtest.Broker.Matching.spend
    fpro_v.Backtest.Broker.Execution.make_fill fpro_v.Base.sort fpro_v.Base.distinct
    fpro_v.MarketData.Identity.sorted_set submit fpro_v.Backtest.Broker.State.admit
    fpro_v.Backtest.Broker.State.enqueue fpro_v.Backtest.Broker.State.order_of
    fpro_v.Backtest.Broker.State.create fpro_v.Backtest.Broker.State.symbols_of
    fpro_v.Backtest.Broker.State.trading_symbol fpro_v.Backtest.Portfolio.Trading.total_fee
    executable_quantity fpro_v.Backtest.Broker.Execution.opened
    fpro_v.Backtest.Broker.Execution.priced fpro_v.Backtest.Broker.Execution.blocked
    fpro_v.Backtest.Broker.Execution.sized fpro_v.Backtest.Broker.Execution.funded
    fpro_v.Backtest.Broker.Pricing.valid_price fpro_v.Backtest.Broker.Pricing.known_price_limits
    fpro_v.Backtest.Broker.Pricing.reaches_limit fpro_v.Backtest.Broker.Pricing.slipped
    fpro_v.Backtest.Broker.Pricing.legal_price fpro_v.Backtest.Broker.Pricing.fees
    fpro_v.Backtest.Broker.Pricing.fee_sum fpro_v.Backtest.Broker.Pricing.is_affordable
    fpro_v.Backtest.Broker.Pricing.first_from fpro_v.Backtest.Broker.Pricing.volume_capacity
    affordable_quantity fpro_v.Backtest.TradingRules.quantity_rule
    fpro_v.Backtest.TradingRules.partition_dot fpro_v.Backtest.TradingRules.valid
    fpro_v.Backtest.TradingRules.round_down fpro_v.Base.text_beq fpro_v.Base.starts_with
    fpro_v.Base.Int.◌*ℤ◌ fpro_v.Base.Int.◌-ℤ◌ fpro_v.Base.Int.◌+ℤ◌ fpro_v.Base.Int.◌/ℤ◌
matched_once = refl

abbrev run : Run config none matched.1
run = next (next start (submits request evening)) (
    matches event ((bank, bar) ∷ []) account view (new_fill ∷ [])
      (ap (λ r. (r, matched.1)) matched_once))

Run-IsAccounted_example : IsAccounted matched.1
Run-IsAccounted_example = Run-IsAccounted run

Run-ends_example :
    let b' = expire_all event.at matched.1 in
    (count (has_id 1) b'.pending ≡ 0)
    × (count (ends 1) b'.updates ≡ count (has_id 1) matched.1.orders)
    × (count (ends 1) b'.updates ≤ 1)
Run-ends_example = Run-ends 1 event.at run
