-- ===== src/Backtest/Broker/Market.antt =====
-- What `match_bar` reads of the market, and the order in which it takes the orders
-- (src/backtest/broker.py).
use fpro_v.Base.{
  ℕ, ◌-◌, Bool, ◌&&◌, ◌||◌, not, Option, none, some, List, [], ◌∷◌, ◌++◌, filter, foldl, length,
  if◌then◌else◌, ltb, leb, Text, codes, text_eq, text_ltb, decimal_text, replicate, ◌=?◌, Dict,
  insert, sort, Datetime, Result, ok, bind,
}
use fpro_v.Base.Int.{ℤ, pos, eqb_ℤ}
use fpro_v.Backtest.Clock.{Event}
use fpro_v.Backtest.Config.{BacktestConfig}
use fpro_v.Backtest.Domain.{OrderStatus, Order, Bar, MarketStatus, PriceLimitStatus}
use fpro_v.Backtest.Broker.Execution.{is_buy}

-- The rows that the broker reads from the market data.
pub record StatusRow (F : Type 0) : Type 0 where
  pub symbol : Text
  pub suspended : Option Bool
  pub up_limit : Option F
  pub down_limit : Option F
  pub price_limit_status : Option Text

pub record VolumeRow (F : Type 0) : Type 0 where
  pub symbol : Text
  pub interval_start : Datetime
  pub volume : Option F

-- The view of the market data at a point in time, as far as the broker asks it.
pub record DataView (F : Type 0) : Type 0 where
  pub status : List Text → Result (List (StatusRow F))
  pub last_bars : List Text → Text → Result (List (VolumeRow F))

-- `row.get("price_limit_status") or "unknown"`, as the broker tells the texts apart
abbrev pub limit_status : Option Text → PriceLimitStatus
limit_status none = PriceLimitStatus.unknown
limit_status (some c) =
    if c =? codes "limited"
    then PriceLimitStatus.limited
    else if c =? codes "unlimited"
    then PriceLimitStatus.unlimited
    else PriceLimitStatus.unknown

-- the text `O{n:08d}`, by which orders are sorted
unfoldable pub order_label : ℕ → Text
order_label n = let digits = decimal_text n in b'O' ∷ (replicate (8 - length digits) b'0' ++ digits)

-- `sellable.get(symbol, 0)`
abbrev pub shares_for : Option ℤ → ℤ
shares_for none = pos 0
shares_for (some n) = n

module _ {F : Type 0} where
  -- `_market_statuses`
  abbrev pub status_of : StatusRow F → MarketStatus F
  status_of row = record {
    symbol = row.symbol;
    suspended = row.suspended;
    up_limit = row.up_limit;
    down_limit = row.down_limit;
    price_limit_status = limit_status row.price_limit_status;
  }

  unfoldable pub market_statuses : DataView F → List Text → Result (Dict Text (MarketStatus F))
  market_statuses data_view symbols =
      bind (data_view.status symbols)
        (λ rows. ok (foldl (λ d row. insert row.symbol (status_of row) d) [] rows))

  -- `MarketStatus(symbol)`, where a code has no row
  abbrev pub status_for : Option (MarketStatus F) → Text → MarketStatus F
  status_for (some status) symbol = status
  status_for none symbol = record {
    symbol = symbol;
    suspended = none;
    up_limit = none;
    down_limit = none;
    price_limit_status = PriceLimitStatus.unknown;
  }

  -- `_previous_volumes`; `result.get(symbol)` reads a missing code as None
  abbrev pub add_volume : Datetime → Dict Text (Option F) → VolumeRow F → Dict Text (Option F)
  add_volume start d row =
      if ltb row.interval_start start then insert row.symbol row.volume d else d

  abbrev pub volumes_from :
      Option F → DataView F → List Text → Text → Datetime → Result (Dict Text (Option F))
  volumes_from none data_view symbols frequency start =
      ok (foldl (λ d c. insert c none d) [] symbols)
  volumes_from (some _) data_view symbols frequency start =
      bind (data_view.last_bars symbols frequency)
        (λ rows. ok (foldl (add_volume start) (foldl (λ d c. insert c none d) [] symbols) rows))

  unfoldable pub previous_volumes :
      BacktestConfig F → DataView F → List Text → Text → Datetime → Result (Dict Text (Option F))
  previous_volumes config data_view symbols frequency start =
      volumes_from config.volume_limit data_view symbols frequency start

  abbrev pub volume_for : Option (Option F) → Option F
  volume_for none = none
  volume_for (some v) = v

  -- `bar.interval_start if bar is not None else event.interval_start`
  abbrev pub start_for : Option (Bar F) → Event → Datetime
  start_for none event = event.interval_start
  start_for (some bar) event = bar.interval_start

  -- the sort key: sales first, then the code, then the label
  unfoldable pub comes_first : Order F → Order F → Bool
  comes_first a b =
      (not (is_buy a.side) && is_buy b.side)
      || ((if is_buy a.side then is_buy b.side else not (is_buy b.side))
          && (text_ltb a.symbol b.symbol
              || ((a.symbol =? b.symbol)
                  && text_ltb (order_label a.order_id) (order_label b.order_id))))

  abbrev pub status_after : Order F → ℤ → OrderStatus
  status_after order quantity =
      if eqb_ℤ quantity order.quantity then OrderStatus.filled else OrderStatus.partially_filled

  -- orders that were in place at the open of the bar
  abbrev pub is_due : Event → Order F → Bool
  is_due event order = leb order.submitted_at event.interval_start

  -- `sorted`: an element stays before the next unless that one comes strictly first
  unfoldable pub due_orders : Event → List (Order F) → List (Order F)
  due_orders event pending = sort (λ y x. comes_first y x) (filter (is_due event) pending)

  unfoldable pub later_orders : Event → List (Order F) → List (Order F)
  later_orders event pending = filter (λ o. not (is_due event o)) pending
