-- ===== src/Backtest/TradingRules.antt =====
-- The order quantities that each exchange and board accepts (src/backtest/trading_rules.py).
pub mod Rounding
mod Tests
use fpro_v.Base.{
  ℕ, suc, ◌-◌, ◌≤◌, ◌<◌, ◌%◌, ◌≡◌, Bool, ◌&&◌, ◌||◌, not, List, [], ◌∷◌, if◌then◌else◌, ltb, leb,
  ◌==◌, ◌=?◌, all, length, Text, codes, starts_with, Date, date, Result, ok, raise, data_error,
  arith, text_eq,
}
use fpro_v.Base.Int.{ℤ, pos, ◌/ℤ◌, ◌*ℤ◌, ltb_ℤ, leb_ℤ, eqb_ℤ, min_ℤ}

pub record QuantityRule : Type 0 where
  pub minimum : ℕ
  pub step : ℕ
  pub maximum : ℕ

-- `QuantityRule.round_down`
unfoldable pub round_down : QuantityRule → ℤ → ℤ
round_down rule quantity =
    let q = min_ℤ quantity (pos rule.maximum) in
    if leb_ℤ (pos rule.minimum) q then (q /ℤ rule.step) *ℤ pos rule.step else pos 0

-- `QuantityRule.valid`
unfoldable pub valid : QuantityRule → ℤ → Bool → Bool
valid rule quantity liquidating =
    ltb_ℤ (pos 0) quantity
    && leb_ℤ quantity (pos rule.maximum)
    && (liquidating || eqb_ℤ quantity (round_down rule quantity))

-- the two values of `order_type` that are not refused
pub data OrderType : Type 0 where
  market limit : OrderType

-- `symbol.partition(".")`, without the separator
unfoldable pub partition_dot : Text → Text × Text
partition_dot [] = ([], [])
partition_dot (c ∷ s) =
    let (code, exchange) = partition_dot s in if c == b'.' then ([], s) else (c ∷ code, exchange)

abbrev by_type : OrderType → ℕ → ℕ → ℕ
by_type market a b = a
by_type limit a b = b

-- `quantity_rule`; `digit` is the test that `str.isdigit` makes of each character
unfoldable pub quantity_rule : (ℕ → Bool) → Text → Date → OrderType → Result QuantityRule
quantity_rule digit symbol trading_date order_type =
    let (code, exchange) = partition_dot symbol in
    if not (length code == 6) || not (all digit code)
    then raise data_error
    else if (exchange =? codes "SH")
        && (starts_with code (codes "688") || starts_with code (codes "689"))
    then (if ltb trading_date (date 2019 7 22)
        then raise data_error
        else ok (record { minimum = 200; step = 1; maximum = by_type order_type 50_000 100_000 }))
    else if exchange =? codes "BJ"
    then (if ltb trading_date (date 2021 11 15)
        then raise data_error
        else ok (record { minimum = 100; step = 1; maximum = 1_000_000 }))
    else if (exchange =? codes "SZ")
        && (starts_with code (codes "300") || starts_with code (codes "301"))
    then ok (record {
      minimum = 100;
      step = 100;
      maximum =
          if leb (date 2020 8 24) trading_date
          then by_type order_type 150_000 300_000
          else 1_000_000;
    })
    else if ((exchange =? codes "SH") && starts_with code (codes "60"))
        || ((exchange =? codes "SZ") && starts_with code (codes "00"))
    then ok (record { minimum = 100; step = 100; maximum = 1_000_000 })
    else raise data_error

-- What the arithmetic of an order needs of a rule: no empty range, and whole steps at both ends.
pub record IsSound (r : QuantityRule) : Type 0 where
  pub minimum_pos : 0 < r.minimum
  pub step_pos : 0 < r.step
  pub in_range : r.minimum ≤ r.maximum
  pub minimum_steps : r.minimum % r.step ≡ 0
  pub maximum_steps : r.maximum % r.step ≡ 0

-- Every rule that is given out is sound, for every symbol, date and type of order.
pub quantity_rule-IsSound :
    (digit : ℕ → Bool) (symbol : Text) (day : Date) (type : OrderType) (r : QuantityRule)
    → quantity_rule digit symbol day type ≡ ok r
    → IsSound r
unfolding quantity_rule
quantity_rule-IsSound digit symbol day market r e = ground arith
quantity_rule-IsSound digit symbol day limit r e = ground arith
