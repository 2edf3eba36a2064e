-- ===== src/Backtest/Broker/Pricing.antt =====
-- Prices, limits, fees and capacities of a simulated broker (src/backtest/broker.py).
pub mod Affordable
use fpro_v.Base.{
  ℕ, zero, suc, ◌≡◌, Bool, true, false, ◌&&◌, ◌||◌, not, Option, none, some, if◌then◌else◌, leb,
  is_some, Date, date, Result, ok, raise, bind,
}
use fpro_v.Base.Int.{ℤ, pos, negsuc, min_ℤ, max_ℤ, pos_part}
use fpro_v.Base.Host.{
  Host, ◌⊕◌, ◌⊖◌, ◌⊗◌, ◌⊲◌, ◌⊴◌, of_ℤ, decimal, zero_f, one_f, is_finite, divide, floor, min_f,
  max_f,
}
use fpro_v.Backtest.Domain.{Side, MarketStatus, PriceLimitStatus}
use fpro_v.Backtest.Config.{BacktestConfig}

module _ {F : Type 0} ⦃host : Host F⦄ where
  -- `_valid_price`
  unfoldable pub valid_price : Option F → Bool
  valid_price none = false
  valid_price (some value) = is_finite value && (zero_f ⊲ value)

  -- `status.down_limit <= status.up_limit`, where both are given
  abbrev limits_in_order : Option F → Option F → Bool
  limits_in_order (some down) (some up) = down ⊴ up
  limits_in_order _ _ = false

  abbrev limits_known : PriceLimitStatus → Option F → Option F → Bool
  limits_known PriceLimitStatus.unlimited down up = not (is_some up) && not (is_some down)
  limits_known PriceLimitStatus.limited down up =
      is_some up && is_some down && valid_price up && valid_price down && limits_in_order down up
  limits_known PriceLimitStatus.unknown down up = false

  -- `_known_price_limits`
  unfoldable pub known_price_limits : MarketStatus F → Bool
  known_price_limits status =
      limits_known status.price_limit_status status.down_limit status.up_limit

  -- the literal `1e-9`
  abbrev pub tolerance : F
  tolerance = decimal 1 9

  -- `_reaches_limit`
  abbrev pub at_limit : F → Option F → Side → Bool
  at_limit price none side = false
  at_limit price (some limit) Side.buy = (limit ⊖ tolerance) ⊴ price
  at_limit price (some limit) Side.sell = price ⊴ (limit ⊕ tolerance)

  unfoldable pub reaches_limit : F → Option F → Side → Bool
  reaches_limit price limit side =
      if not (valid_price limit) then false else at_limit price limit side

  -- `limit is not None and open_price < limit - 1e-9`, and the test of the other bound
  abbrev pub below_limit : F → Option F → Bool
  below_limit price none = false
  below_limit price (some limit) = price ⊲ (limit ⊖ tolerance)

  abbrev pub above_limit : F → Option F → Bool
  above_limit price none = false
  above_limit price (some limit) = (limit ⊕ tolerance) ⊲ price

  -- The price with the slippage, `open_price * (1 + direction * slippage_bps / 10_000)`, and then
  -- cut off at the legal limits of the day.
  abbrev direction : Side → F
  direction Side.buy = of_ℤ (pos 1)
  direction Side.sell = of_ℤ (negsuc 0)

  unfoldable pub slipped : BacktestConfig F → Side → F → F
  slipped config side open_price =
      open_price ⊗ (one_f ⊕ host.div (direction side ⊗ config.slippage_bps) (of_ℤ (pos 10_000)))

  abbrev pub cap_above : Option F → F → F
  cap_above none price = price
  cap_above (some limit) price = min_f price limit

  abbrev pub cap_below : Option F → F → F
  cap_below none price = price
  cap_below (some limit) price = max_f price limit

  unfoldable pub legal_price : MarketStatus F → F → F
  legal_price status price =
      let capped = if valid_price status.up_limit then cap_above status.up_limit price else price in
      if valid_price status.down_limit then cap_below status.down_limit capped else capped

  -- `_fees`: the commission, the stamp tax and the transfer fee
  abbrev stamp_tax : Side → F → Date → F
  stamp_tax Side.buy notional day = zero_f
  stamp_tax Side.sell notional day =
      notional ⊗ (if leb (date 2023 8 28) day then decimal 5 4 else decimal 1 3)

  unfoldable pub fees : BacktestConfig F → Side → F → Date → F × F × F
  fees config side notional day = (
    max_f (notional ⊗ config.commission_rate) config.minimum_commission,
    stamp_tax side notional day,
    notional ⊗ (if leb (date 2022 4 29) day then decimal 1 5 else decimal 2 5),
  )

  -- `sum(self._fees(...))`
  unfoldable pub fee_sum : BacktestConfig F → Side → F → Date → F
  fee_sum config side notional day =
      let (commission, stamp, transfer) = fees config side notional day in
      zero_f ⊕ commission ⊕ stamp ⊕ transfer

  -- the test in the loop of `_affordable_quantity`
  unfoldable pub is_affordable : BacktestConfig F → F → F → Date → ℕ → Bool
  is_affordable config price cash day quantity =
      let notional = price ⊗ of_ℤ (pos quantity) in
      (notional ⊕ fee_sum config Side.buy notional day) ⊴ (cash ⊕ tolerance)

-- the loop of `_affordable_quantity`, from a quantity down to the first that passes the test
unfoldable pub first_from : (ℕ → Bool) → ℕ → ℕ
first_from test zero = zero
first_from test (suc n) = let rest = first_from test n in if test (suc n) then suc n else rest

module _ {F : Type 0} ⦃host : Host F⦄ where
  -- `_affordable_quantity`
  unfoldable pub affordable_quantity : BacktestConfig F → ℤ → F → F → Date → Result ℤ
  affordable_quantity config requested price cash day = bind (divide cash price) (λ ratio.
      bind (floor ratio) (λ bound. ok (
        pos (
          first_from (is_affordable config price cash day)
            (pos_part (min_ℤ requested (max_ℤ (pos 0) bound)))))))

  -- `_volume_capacity`
  abbrev share_of : F → Option F → Result (Option ℤ)
  share_of limit none = ok (some (pos 0))
  share_of limit (some volume) =
      if not (is_finite volume)
      then ok (some (pos 0))
      else bind (floor (volume ⊗ limit)) (λ n. ok (some (max_ℤ (pos 0) n)))

  abbrev capacity_of : Option F → Option F → Result (Option ℤ)
  capacity_of none volume = ok none
  capacity_of (some limit) volume = share_of limit volume

  unfoldable pub volume_capacity : BacktestConfig F → Option F → Result (Option ℤ)
  volume_capacity config previous_volume = capacity_of config.volume_limit previous_volume
