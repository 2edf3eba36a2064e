-- ===== src/Backtest/Orders.antt =====
-- Target weights and the orders that lead to them (src/backtest/orders.py).
pub mod Split
mod Tests
use fpro_v.Base.{
  ℕ, zero, suc, ◌≡◌, Bool, true, false, ◌&&◌, ◌||◌, not, Option, none, some, List, [], ◌∷◌, ◌++◌,
  map, foldl, if◌then◌else◌, Text, text_ltb, Dict, lookup, insert, sort, distinct, Date, Result, ok,
  raise, bind, value_error, text_eq,
}
use fpro_v.Base.Int.{ℤ, pos, pos_part, ◌-ℤ◌, ltb_ℤ, eqb_ℤ, min_ℤ, abs_ℤ}
use fpro_v.Base.Host.{
  Host, ◌⊕◌, ◌⊗◌, ◌⊲◌, ◌⊴◌, ◌≗◌, of_ℤ, decimal, zero_f, one_f, is_finite, divide, floor,
}
use fpro_v.Backtest.Domain.{Side, OrderRequest, AccountSnapshot, Holding}
use fpro_v.Backtest.TradingRules.{QuantityRule, round_down, quantity_rule, OrderType}

is_empty : Text → Bool
is_empty [] = true
is_empty (_ ∷ _) = false

-- `side is Side.BUY or target != 0`
unfoldable pub needs_rounding : Side → ℤ → Bool
needs_rounding Side.buy target = true
needs_rounding Side.sell target = not (eqb_ℤ target (pos 0))

-- `holdings[symbol].quantity if symbol in holdings else 0`
abbrev held : {F : Type 0} → Option (Holding F) → ℤ
held none = pos 0
held (some holding) = holding.quantity

module _ {F : Type 0} where
  -- The `while` loop of `create_orders`, with as much fuel as shares: a round orders at least one.
  unfoldable pub split_orders :
      QuantityRule → Text → Side → F → Bool → ℕ → ℤ → List (OrderRequest F)
  split_orders rule symbol side weight rounding zero quantity = []
  split_orders rule symbol side weight rounding (suc fuel) quantity =
      let amount = min_ℤ quantity (pos rule.maximum) in
      let amount' = if rounding then round_down rule amount else amount in
      let rest = split_orders rule symbol side weight rounding fuel (quantity -ℤ amount') in
      if ltb_ℤ (pos 0) quantity && not (eqb_ℤ amount' (pos 0))
      then record {
        symbol = symbol;
        side = side;
        quantity = amount';
        target_weight = some weight;
        sid = none;
      }
        ∷ rest
      else []

  -- the orders of one symbol, from its current and its target quantity
  unfoldable pub orders_between : QuantityRule → Text → F → ℤ → ℤ → List (OrderRequest F)
  orders_between rule symbol weight current target =
      let difference = target -ℤ current in
      let side = if ltb_ℤ (pos 0) difference then Side.buy else Side.sell in
      let quantity = abs_ℤ difference in
      if eqb_ℤ difference (pos 0)
      then []
      else split_orders rule symbol side weight (needs_rounding side target) (pos_part quantity)
          quantity

module _ {F : Type 0} ⦃h : Host F⦄ where
  -- `targets.get(symbol, 0.0)`
  abbrev weight_or_zero : Option F → F
  weight_or_zero none = zero_f
  weight_or_zero (some weight) = weight

  -- the target without and with a price to use
  unfoldable pub priced_target : F → F → ℤ → Option F → Result ℤ
  priced_target total_equity weight current none = ok current
  priced_target total_equity weight current (some price) =
      bind (divide (total_equity ⊗ weight) price) floor

  -- the loop of `validate_target_weights`
  unfoldable pub check_weights : Dict Text F → Dict Text F → Result (Dict Text F)
  unfolding is_empty
  check_weights result [] = ok result
  check_weights result ((symbol, weight) ∷ weights) =
      let rest = check_weights (insert symbol weight result) weights in
      if is_empty symbol
      then raise value_error
      else if not (is_finite weight) || not ((zero_f ⊴ weight) && (weight ⊴ one_f))
      then raise value_error
      else rest

  -- `sum`, from the left
  unfoldable pub sum_weights : Dict Text F → F
  sum_weights = foldl (λ total item. total ⊕ item.1) zero_f

  -- `validate_target_weights`; a weight that is no number is excluded by its type
  unfoldable pub validate_target_weights : Dict Text F → Result (Dict Text F)
  validate_target_weights weights = bind (check_weights [] weights) (λ result.
      if (one_f ⊕ decimal 1 9) ⊲ sum_weights result
      then raise value_error
      else ok (sort (λ a b. text_ltb a.0 b.0) result))

  -- the price test of `create_orders`
  unfoldable pub usable_price : Option F → Option F
  usable_price none = none
  usable_price (some price) = if not (is_finite price) || (price ⊴ zero_f) then none else some price

  -- the target of one symbol
  unfoldable pub target_quantity : F → F → Option F → ℤ → Result ℤ
  target_quantity total_equity weight price current =
      if weight ≗ zero_f
      then ok (pos 0)
      else priced_target total_equity weight current (usable_price price)

  -- the body of the loop over the symbols
  unfoldable pub orders_of_symbol :
      Dict Text F
      → AccountSnapshot F
      → Dict Text (Holding F)
      → Dict Text F
      → Date
      → Text
      → Result (List (OrderRequest F))
  orders_of_symbol targets account holdings prices trading_date symbol =
      bind (quantity_rule h.digit symbol trading_date OrderType.market) (λ rule.
        let current = held (lookup symbol holdings) in
        let weight = weight_or_zero (lookup symbol targets) in
        bind (target_quantity account.total_equity weight (lookup symbol prices) current)
          (λ target. ok (orders_between rule symbol weight current target)))

  unfoldable pub orders_of_symbols :
      (Text → Result (List (OrderRequest F))) → List Text → Result (List (OrderRequest F))
  orders_of_symbols orders [] = ok []
  orders_of_symbols orders (symbol ∷ symbols) =
      bind (orders symbol)
        (λ now. bind (orders_of_symbols orders symbols) (λ later. ok (now ++ later)))

  -- `create_orders`
  unfoldable pub create_orders :
      Dict Text F → AccountSnapshot F → Dict Text F → Date → Result (List (OrderRequest F))
  create_orders weights account prices trading_date =
      bind (validate_target_weights weights) (λ targets.
        let holdings =
          foldl (λ (d : Dict Text (Holding F)) (x : Holding F). insert x.symbol x d) []
            account.holdings in
        orders_of_symbols (orders_of_symbol targets account holdings prices trading_date)
          (sort text_ltb (distinct (map (λ e. e.0) targets ++ map (λ e. e.0) holdings))))
