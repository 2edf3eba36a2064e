-- ===== src/Backtest/TradingRules/Tests.antt =====
-- Runs of the trading rules (src/backtest/trading_rules.py).
use fpro_v.Base.{ℕ, ◌≡◌, refl, ◌⊎◌, Bool, true, false, Text, codes, date, Result, ok, arith}
use fpro_v.Base.Int.{ℤ, pos, ◌≤ℤ◌}
use fpro_v.Base.Host.{micro_host}
use fpro_v.Backtest.TradingRules.{
  QuantityRule, round_down, valid, quantity_rule, OrderType, partition_dot, IsSound,
  quantity_rule-IsSound,
}
use fpro_v.Backtest.TradingRules.Rounding.{round_down_greatest}

-- a main-board stock of Shanghai
abbrev main_board : QuantityRule
main_board = record { minimum = 100; step = 100; maximum = 1_000_000 }

main_board-quantity_rule :
    quantity_rule micro_host.digit (codes "600000.SH") (date 2024 1 2) OrderType.market
    ≡ ok main_board
unfolding quantity_rule partition_dot fpro_v.Base.text_beq fpro_v.Base.starts_with
main_board-quantity_rule = refl

star_board-quantity_rule :
    quantity_rule micro_host.digit (codes "688001.SH") (date 2024 1 2) OrderType.limit
    ≡ ok (record { minimum = 200; step = 1; maximum = 100_000 })
unfolding quantity_rule partition_dot fpro_v.Base.text_beq fpro_v.Base.starts_with
star_board-quantity_rule = refl

round_down_main : round_down main_board (pos 1_234) ≡ pos 1_200
unfolding round_down fpro_v.Base.Int.◌*ℤ◌ fpro_v.Base.Int.◌/ℤ◌
round_down_main = refl

quantity_rule-IsSound_example : IsSound main_board
quantity_rule-IsSound_example =
    quantity_rule-IsSound micro_host.digit (codes "600000.SH") (date 2024 1 2) OrderType.market
      main_board main_board-quantity_rule

round_down_greatest_example :
    let r = round_down main_board (pos 1_234) in
    ((r ≡ pos 0) ⊎ (valid main_board r false ≡ true))
    × (r ≤ℤ pos 1_234)
    × ((v : ℤ) → valid main_board v false ≡ true → v ≤ℤ pos 1_234 → v ≤ℤ r)
round_down_greatest_example =
    round_down_greatest main_board (pos 1_234) quantity_rule-IsSound_example (omega arith)
