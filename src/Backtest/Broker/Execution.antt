-- ===== src/Backtest/Broker/Execution.antt =====
-- How much of an order is executed, and why not more (src/backtest/broker.py).
pub mod Gates
use fpro_v.Base.{
  ℕ, ◌≡◌, Bool, true, false, ◌&&◌, ◌||◌, not, Option, none, some, if◌then◌else◌, Date, Datetime,
  date_of, Result, ok, raise, bind,
}
use fpro_v.Base.Int.{ℤ, pos, ltb_ℤ, leb_ℤ, eqb_ℤ, max_ℤ}
use fpro_v.Base.Host.{Host, ◌⊕◌, ◌⊖◌, ◌⊗◌, ◌⊲◌, of_ℤ, zero_f, abs_f}
use fpro_v.Backtest.Domain.{Side, OrderReason, Order, Bar, MarketStatus, Fill}
use fpro_v.Backtest.Config.{BacktestConfig}
use fpro_v.Backtest.TradingRules.{QuantityRule, valid, quantity_rule, OrderType}
use fpro_v.Backtest.Broker.Pricing.{
  valid_price, known_price_limits, reaches_limit, below_limit, above_limit, slipped, legal_price,
  fees, fee_sum, affordable_quantity, volume_capacity, tolerance,
}

abbrev pub is_buy : Side → Bool
is_buy Side.buy = true
is_buy Side.sell = false

-- `suspended is True`, and `suspended is False`
abbrev pub is_true : Option Bool → Bool
is_true (some b) = b
is_true none = false

abbrev pub is_false : Option Bool → Bool
is_false (some b) = not b
is_false none = false

-- The three values of `_executable_quantity`.
pub record Execution (F : Type 0) : Type 0 where
  pub quantity : ℤ
  pub reason : OrderReason
  pub price : Option F

module _ {F : Type 0} where
  abbrev pub refused : OrderReason → Execution F
  refused reason = record { quantity = pos 0; reason = reason; price = none }

  abbrev pub open_of : Option (Bar F) → Option F
  open_of none = none
  open_of (some bar) = bar.open_price

-- the cut to the volume's capacity, and then the cut to the sellable shares
abbrev pub capped : Option ℤ → ℤ → ℤ × OrderReason
capped none quantity = (quantity, OrderReason.blank)
capped (some capacity) quantity =
    if ltb_ℤ capacity quantity
    then (capacity, OrderReason.volume_limit)
    else (quantity, OrderReason.blank)

abbrev pub held_back : Side → ℤ → ℤ × OrderReason → ℤ × OrderReason
held_back Side.buy sellable cut = cut
held_back Side.sell sellable (quantity, reason) =
    if ltb_ℤ sellable quantity
    then (sellable, OrderReason.insufficient_sellable)
    else (quantity, reason)

module _ {F : Type 0} ⦃host : Host F⦄ where
  -- the reasons that refuse an order at a valid open price, in the order of the tests
  unfoldable pub blocked : Side → MarketStatus F → F → Option OrderReason
  blocked side status open_price =
      if is_true status.suspended
      then some OrderReason.suspended
      else if not (is_false status.suspended) || not (known_price_limits status)
      then some OrderReason.unknown_market_status
      else if below_limit open_price status.down_limit || above_limit open_price status.up_limit
      then some OrderReason.invalid_open
      else if is_buy side && reaches_limit open_price status.up_limit Side.buy
      then some OrderReason.limit_up
      else if not (is_buy side) && reaches_limit open_price status.down_limit Side.sell
      then some OrderReason.limit_down
      else none

  -- the cut to the cash, and the end of the method
  unfoldable pub funded :
      BacktestConfig F → Side → F → F → Date → ℤ × OrderReason → Result (Execution F)
  funded config Side.buy price cash day (quantity, reason) =
      bind (affordable_quantity config quantity price cash day) (λ affordable. ok (
        if ltb_ℤ affordable quantity
        then record {
          quantity = max_ℤ affordable (pos 0);
          reason = OrderReason.insufficient_cash;
          price = some price;
        }
        else record { quantity = max_ℤ quantity (pos 0); reason = reason; price = some price }))
  funded config Side.sell price cash day (quantity, reason) =
      let notional = price ⊗ of_ℤ quantity in
      let left = cash ⊕ notional ⊖ fee_sum config Side.sell notional day in
      ok (
        if ltb_ℤ (pos 0) quantity && (left ⊲ (zero_f ⊖ tolerance))
        then refused OrderReason.insufficient_cash
        else record { quantity = max_ℤ quantity (pos 0); reason = reason; price = some price })

  -- the part of the method after the price
  unfoldable pub sized :
      BacktestConfig F → Order F → Option F → F → ℤ → Date → F → Result (Execution F)
  sized config order previous_volume cash sellable day price =
      bind (quantity_rule host.digit order.symbol day OrderType.market) (λ rule.
        if not
          (valid rule order.quantity (not (is_buy order.side) && eqb_ℤ order.quantity sellable))
        then ok (refused OrderReason.invalid_quantity)
        else bind (volume_capacity config previous_volume) (λ capacity.
          funded config order.side price cash day
            (held_back order.side sellable (capped capacity order.quantity))))

  -- the part at a given open price
  unfoldable pub priced :
      BacktestConfig F
      → Order F
      → MarketStatus F
      → Option F
      → F
      → ℤ
      → Date
      → F
      → Option OrderReason
      → Result (Execution F)
  priced config order status previous_volume cash sellable day open_price (some reason) =
      ok (refused reason)
  priced config order status previous_volume cash sellable day open_price none =
      sized config order previous_volume cash sellable day
        (legal_price status (slipped config order.side open_price))

  unfoldable pub opened :
      BacktestConfig F
      → Order F
      → MarketStatus F
      → Option F
      → F
      → ℤ
      → Date
      → Option F
      → Result (Execution F)
  opened config order status previous_volume cash sellable day none =
      ok (refused OrderReason.missing_open)
  opened config order status previous_volume cash sellable day (some price) =
      if not (valid_price (some price))
      then ok (refused OrderReason.missing_open)
      else priced config order status previous_volume cash sellable day price
          (blocked order.side status price)

  -- `_executable_quantity`
  unfoldable pub executable_quantity :
      BacktestConfig F
      → Order F
      → Option (Bar F)
      → MarketStatus F
      → Option F
      → F
      → ℤ
      → Date
      → Result (Execution F)
  executable_quantity config order bar status previous_volume cash sellable day =
      if leb_ℤ order.quantity (pos 0)
      then ok (refused OrderReason.invalid_quantity)
      else opened config order status previous_volume cash sellable day (open_of bar)

  -- `_make_fill`, at the next number of a fill
  unfoldable pub make_fill : BacktestConfig F → ℕ → Order F → Datetime → ℤ → F → F → Fill F
  make_fill config next_fill_id order at quantity market_price execution_price =
      let notional = execution_price ⊗ of_ℤ quantity in
      let (commission, stamp, transfer) = fees config order.side notional (date_of at) in
      record {
        fill_id = next_fill_id;
        order_id = order.order_id;
        symbol = order.symbol;
        side = order.side;
        filled_at = at;
        quantity = quantity;
        market_price = market_price;
        execution_price = execution_price;
        notional = notional;
        commission = commission;
        stamp_tax = stamp;
        transfer_fee = transfer;
        slippage_cost = abs_f (execution_price ⊖ market_price) ⊗ of_ℤ quantity;
        sid = order.sid;
      }
