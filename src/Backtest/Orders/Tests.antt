-- ===== src/Backtest/Orders/Tests.antt =====
-- Runs of the order generator (src/backtest/orders.py).
use fpro_v.Base.{ℕ, ◌≡◌, refl, List, [], ◌∷◌, map, All, Text, codes, arith}
use fpro_v.Base.Int.{ℤ, pos, ◌-ℤ◌, abs_ℤ}
use fpro_v.Base.Host.{Micro}
use fpro_v.Backtest.Domain.{OrderRequest}
use fpro_v.Backtest.TradingRules.{QuantityRule, IsSound, round_down}
use fpro_v.Backtest.Orders.{orders_between, split_orders, needs_rounding}
use fpro_v.Backtest.Orders.Split.{Splits, side_towards, orders_between_lem}

-- at most 300 shares in an order, in lots of 100
abbrev small_board : QuantityRule
small_board = record { minimum = 100; step = 100; maximum = 300 }

small_board-IsSound : IsSound small_board
small_board-IsSound = record {
  minimum_pos = omega arith;
  step_pos = omega arith;
  in_range = omega arith;
  minimum_steps = refl;
  maximum_steps = refl;
}

-- 750 shares are bought in two whole orders and one rounded one.
abbrev bought : List (OrderRequest Micro)
bought = orders_between small_board (codes "600000.SH") (pos 500_000) (pos 50) (pos 800)

bought_quantities :
    map (λ (r : OrderRequest Micro). r.quantity) bought ≡ pos 300 ∷ pos 300 ∷ pos 100 ∷ []
unfolding orders_between split_orders round_down ◌-ℤ◌ needs_rounding fpro_v.Base.Int.◌*ℤ◌
    fpro_v.Base.Int.◌/ℤ◌
bought_quantities = refl

-- A position that is given up is sold to the last share.
sold_quantities :
    map
      (λ (r : OrderRequest Micro). r.quantity)
      (orders_between small_board (codes "600000.SH") (pos 0) (pos 350) (pos 0))
    ≡ pos 300 ∷ pos 50 ∷ []
unfolding orders_between split_orders round_down ◌-ℤ◌ needs_rounding
sold_quantities = refl

orders_between_lem_example :
    Splits small_board
      (needs_rounding (side_towards (pos 50) (pos 800)) (pos 800))
      (abs_ℤ (pos 800 -ℤ pos 50))
      bought
    × All (λ r. (r.symbol ≡ codes "600000.SH") × (r.side ≡ side_towards (pos 50) (pos 800))) bought
orders_between_lem_example =
    orders_between_lem small_board (codes "600000.SH") (pos 500_000) (pos 50) (pos 800)
      small_board-IsSound
