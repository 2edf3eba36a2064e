-- ===== src/Backtest/Portfolio/Tests.antt =====
-- Runs of the account in millionths (src/backtest/portfolio.py).
use fpro_v.Base.{
  ℕ, ◌≡◌, ◌≢◌, refl, true, Option, none, some, List, [], ◌∷◌, Text, codes, date, Dict, lookup,
  Result, ok, raise, account_error, arith,
}
use fpro_v.Base.Int.{ℤ, pos, ◌+ℤ◌, ◌-ℤ◌}
use fpro_v.Base.Host.{max_f, Micro, micro_host, micro_host-IsOrdered, zero_f}
use fpro_v.Backtest.Domain.{Side, Fill}
use fpro_v.Backtest.Portfolio.State.{
  Key, code, key_eq, Position, Portfolio, new_position, identity, assert_valid, is_valid,
}
use fpro_v.Backtest.Portfolio.Trading.{
  apply_fill, route_fill, settle_fill, new_cash, filled, total_fee, or_new, fill_key, unlock_t1,
}
use fpro_v.Backtest.Portfolio.Dividends.{capture_entitlement, recognize_dividend, settle_dividend}
use fpro_v.Backtest.Portfolio.Invariant.{Committed, apply_fill-Committed}
use fpro_v.Backtest.Portfolio.Effects.{
  IsForSale, balance, IsPaid, moved, sold, apply_fill_moves, apply_fill_cash,
}
use fpro_v.Backtest.Portfolio.Rights.{capture_entitlement_frozen, settle_dividend_pays}

abbrev bank : Key
bank = code (codes "600000.SH")

-- 10 000 in cash
abbrev start : Portfolio Micro
start = record {
  cash = pos 10_000_000_000;
  identities = none;
  session = some (date 2024 1 2);
  positions = [];
  receivables = [];
  entitlements = [];
  pending_stock = [];
  last_equity = pos 10_000_000_000;
}

-- 100 shares at 10, and a commission of 5
abbrev purchase : Fill Micro
purchase = record {
  fill_id = 1;
  order_id = 1;
  symbol = codes "600000.SH";
  side = Side.buy;
  filled_at = 0;
  quantity = pos 100;
  market_price = pos 10_000_000;
  execution_price = pos 10_000_000;
  notional = pos 1_000_000_000;
  commission = pos 5_000_000;
  stamp_tax = pos 0;
  transfer_fee = pos 0;
  slippage_cost = pos 0;
  sid = none;
}

abbrev bought : Portfolio Micro
bought = record start {
  cash = pos 8_995_000_000;
  positions = (bank, record (new_position (codes "600000.SH") none) { quantity = pos 100 }) ∷ [];
}

apply_fill_buy : apply_fill purchase start ≡ (ok tt, bought)
unfolding apply_fill assert_valid is_valid ◌-ℤ◌ fpro_v.Base.Int.◌*ℤ◌
    fpro_v.Backtest.Portfolio.Trading.has_bad_amount route_fill identity settle_fill new_cash ◌+ℤ◌
    fpro_v.Backtest.Portfolio.State.position_value filled
apply_fill_buy = refl

-- Shares bought today cannot be sold today.
apply_fill_too_soon :
    apply_fill (record purchase { side = Side.sell }) bought ≡ (raise account_error, bought)
unfolding apply_fill assert_valid is_valid ◌-ℤ◌ fpro_v.Base.Int.◌*ℤ◌ ◌+ℤ◌
    fpro_v.Backtest.Portfolio.State.position_value fpro_v.Backtest.Portfolio.Trading.has_bad_amount
    route_fill identity settle_fill new_cash fpro_v.Backtest.Portfolio.State.key_beq
    fpro_v.Base.text_beq
apply_fill_too_soon = refl

apply_fill-Committed_example :
    Committed bought (apply_fill (record purchase { side = Side.sell }) bought)
apply_fill-Committed_example = apply_fill-Committed (record purchase { side = Side.sell }) bought

-- The next day 60 of them are sold, with a commission of 5.
abbrev for_sale : Portfolio Micro
for_sale = record bought {
  positions =
      (
        bank,
        record (new_position (codes "600000.SH") none) {
          quantity = pos 100;
          sellable_quantity = pos 100;
        },
      )
      ∷ [];
}

abbrev sale : Fill Micro
sale = record purchase { side = Side.sell; quantity = pos 60; notional = pos 600_000_000 }

abbrev sold_some : Portfolio Micro
sold_some = record for_sale {
  cash = pos 9_590_000_000;
  positions =
      (
        bank,
        record (new_position (codes "600000.SH") none) {
          quantity = pos 40;
          sellable_quantity = pos 40;
        },
      )
      ∷ [];
}

apply_fill_sell : apply_fill sale for_sale ≡ (ok tt, sold_some)
unfolding apply_fill assert_valid is_valid ◌-ℤ◌ fpro_v.Base.Int.◌*ℤ◌
    fpro_v.Backtest.Portfolio.Trading.has_bad_amount route_fill identity settle_fill new_cash ◌+ℤ◌
    fpro_v.Backtest.Portfolio.State.position_value filled fpro_v.Backtest.Portfolio.State.key_beq
    fpro_v.Base.text_beq
apply_fill_sell = refl

apply_fill_moves_example :
    (key : Key) × (p : Position Micro) × (identity for_sale.identities
        (fill_key sale.sid sale.symbol)
      ≡ ok key)
    × (lookup key sold_some.positions ≡ some p)
    × (let old = or_new (lookup key for_sale.positions) sale.symbol key in
        (p.quantity ≡ moved sale.side old.quantity sale.quantity)
        × (p.sellable_quantity ≡ sold sale.side old.sellable_quantity sale.quantity)
        × (p.pending_listing_quantity ≡ old.pending_listing_quantity)
        × IsForSale sale.side sale.quantity old)
    × ((j : Key) → j ≢ key → lookup j sold_some.positions ≡ lookup j for_sale.positions)
    × (sold_some.entitlements ≡ for_sale.entitlements)
    × (sold_some.pending_stock ≡ for_sale.pending_stock)
apply_fill_moves_example = apply_fill_moves sale for_sale sold_some apply_fill_sell

apply_fill_cash_example :
    (bought.cash
      ≡ max_f ⦃h = micro_host⦄
          (zero_f ⦃h = micro_host⦄)
          (balance ⦃host = micro_host⦄ Side.buy start.cash purchase))
    × IsPaid ⦃host = micro_host⦄ Side.buy start.cash purchase
    × (micro_host.le (zero_f ⦃h = micro_host⦄) bought.cash ≡ true)
apply_fill_cash_example = apply_fill_cash purchase start bought micro_host-IsOrdered apply_fill_buy

-- The right of 100 shares is registered; it is the same after they were sold.
abbrev registered : Portfolio Micro
registered = record bought { entitlements = (codes "CA:1", pos 100) ∷ [] }

abbrev sold_out : Portfolio Micro
sold_out = record registered { positions = [] }

capture : capture_entitlement (codes "CA:1") bank bought ≡ (ok (pos 100), registered)
unfolding capture_entitlement identity fpro_v.Backtest.Portfolio.State.key_beq fpro_v.Base.text_beq
capture = refl

capture_entitlement_frozen_example :
    capture_entitlement (codes "CA:1") bank sold_out ≡ (ok (pos 100), sold_out)
capture_entitlement_frozen_example =
    capture_entitlement_frozen (codes "CA:1") bank bank bought registered sold_out (pos 100) capture
      refl

-- A dividend of 20 is recognised, and paid some days later.
abbrev owed : Portfolio Micro
owed = record registered { receivables = (codes "CA:1", pos 20_000_000) ∷ [] }

recognize : recognize_dividend (codes "CA:1") (pos 20_000_000) registered ≡ (ok tt, owed)
unfolding recognize_dividend fpro_v.Base.Int.◌*ℤ◌ assert_valid is_valid ◌-ℤ◌ ◌+ℤ◌
    fpro_v.Backtest.Portfolio.State.position_value
recognize = refl

settle_dividend_pays_example :
    let u = (settle_dividend (codes "CA:1") owed).1 in
    (u.cash ≡ micro_host.add owed.cash (pos 20_000_000))
    × (u.receivables ≡ registered.receivables)
    × (u.positions ≡ owed.positions)
settle_dividend_pays_example =
    settle_dividend_pays (codes "CA:1") (pos 20_000_000) registered owed owed recognize refl
