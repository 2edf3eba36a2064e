-- ===== src/Backtest/Domain.antt =====
-- The immutable business objects that the parts of the backtest share (src/backtest/domain.py).
-- `F` is the type of the floats.
use fpro_v.Base.{ℕ, Bool, Option, List, Text, Date, Datetime}
use fpro_v.Base.Int.{ℤ, ◌-ℤ◌}

pub data Side : Type 0 where
  buy sell : Side

pub data OrderStatus : Type 0 where
  submitted filled partially_filled not_filled canceled expired : OrderStatus

pub data OrderReason : Type 0 where
  blank invalid_quantity insufficient_cash insufficient_sellable : OrderReason
  missing_open invalid_open suspended unknown_market_status : OrderReason
  limit_up limit_down volume_limit corporate_action : OrderReason
  delisted end_of_backtest strategy : OrderReason

pub record Bar (F : Type 0) : Type 0 where
  pub symbol : Text
  pub interval_start : Datetime
  pub open_price : Option F
  pub close : Option F

-- The `price_limit_status` of a market status; any other text is unknown.
pub data PriceLimitStatus : Type 0 where
  limited unlimited unknown : PriceLimitStatus

pub record MarketStatus (F : Type 0) : Type 0 where
  pub symbol : Text
  pub suspended : Option Bool
  pub up_limit : Option F
  pub down_limit : Option F
  pub price_limit_status : PriceLimitStatus

pub record OrderRequest (F : Type 0) : Type 0 where
  pub symbol : Text
  pub side : Side
  pub quantity : ℤ
  pub target_weight : Option F
  pub sid : Option ℕ

-- `order_id` is the number n of the text `O{n:08d}`.
pub record Order (F : Type 0) : Type 0 where
  pub order_id : ℕ
  pub symbol : Text
  pub side : Side
  pub quantity : ℤ
  pub submitted_at : Datetime
  pub target_weight : Option F
  pub sid : Option ℕ

pub record OrderUpdate (F : Type 0) : Type 0 where
  pub order : Order F
  pub status : OrderStatus
  pub updated_at : Datetime
  pub filled_quantity : ℤ
  pub reason : OrderReason

unfoldable pub remaining_quantity : {F : Type 0} → OrderUpdate F → ℤ
remaining_quantity u = u.order.quantity -ℤ u.filled_quantity

-- `fill_id` is the number n of the text `F{n:08d}`.
pub record Fill (F : Type 0) : Type 0 where
  pub fill_id : ℕ
  pub order_id : ℕ
  pub symbol : Text
  pub side : Side
  pub filled_at : Datetime
  pub quantity : ℤ
  pub market_price : F
  pub execution_price : F
  pub notional : F
  pub commission : F
  pub stamp_tax : F
  pub transfer_fee : F
  pub slippage_cost : F
  pub sid : Option ℕ

pub record Holding (F : Type 0) : Type 0 where
  pub symbol : Text
  pub quantity : ℤ
  pub sellable_quantity : ℤ
  pub market_value : F
  pub sid : Option ℕ

pub record AccountSnapshot (F : Type 0) : Type 0 where
  pub cash : F
  pub dividend_receivable : F
  pub market_value : F
  pub total_equity : F
  pub holdings : List (Holding F)

pub record EquitySnapshot (F : Type 0) : Type 0 where
  pub session : Date
  pub cash : F
  pub dividend_receivable : F
  pub market_value : F
  pub total_equity : F
  pub daily_return : Option F
  pub holding_count : ℕ
  pub stale_position_count : ℕ

-- `action_id` is the text that `_action_id` makes.
pub record CorporateAction (F : Type 0) : Type 0 where
  pub action_id : Text
  pub symbol : Text
  pub record_date : Option Date
  pub ex_date : Option Date
  pub pay_date : Option Date
  pub listing_date : Option Date
  pub cash_dividend : Option F
  pub cash_dividend_before_tax : Option F
  pub stock_dividend : F
  pub sid : Option ℕ
