-- ===== src/Backtest/Orders/Split.antt =====
-- A large target becomes orders that the exchange accepts, and nothing more
-- (the inner loop of `create_orders`, src/backtest/orders.py).
use fpro_v.Base.{
  ℕ, zero, suc, ◌≡◌, ap, ◌⊎◌, inl, inr, Bool, true, false, not, List, [], ◌∷◌, if◌then◌else◌,
  Bool-cases, All, Text, arith,
}
use fpro_v.Base.Int.{
  ℤ, pos, pos_part, neg_part, ◌-ℤ◌, ◌+ℤ◌, ◌≤ℤ◌, ◌<ℤ◌, ltb_ℤ, eqb_ℤ, min_ℤ, abs_ℤ, int_laws,
  eq_of_parts, -ℤ_parts,
}
use fpro_v.Backtest.Domain.{Side, OrderRequest}
use fpro_v.Backtest.TradingRules.{QuantityRule, IsSound, round_down, valid}
use fpro_v.Backtest.TradingRules.Rounding.{round_down_greatest, minimum-valid}
use fpro_v.Backtest.Orders.{split_orders, needs_rounding, orders_between}

-- the amount of one round
abbrev amount_of : QuantityRule → Bool → ℤ → ℤ
amount_of rule rounding q =
    let a = min_ℤ q (pos rule.maximum) in if rounding then round_down rule a else a

-- A round orders nothing only below the minimum; otherwise it orders an accepted amount, and not
-- more than is left.
amount_step :
    (rule : QuantityRule) (rounding : Bool) (q : ℤ)
    → IsSound rule
    → pos 1 ≤ℤ q
    → ((amount_of rule rounding q ≡ pos 0) × (rounding ≡ true) × (q <ℤ pos rule.minimum))
      ⊎ ((pos 1 ≤ℤ amount_of rule rounding q)
          × (amount_of rule rounding q ≤ℤ q)
          × (valid rule (amount_of rule rounding q) (not rounding) ≡ true))
unfolding valid
amount_step rule false q s h = inr (ground (arith, s.minimum_pos, s.in_range))
amount_step rule true q s h =
    let a = min_ℤ q (pos rule.maximum) in
    let (cases, le, greatest) = round_down_greatest rule a s (ground arith) in
    ground (
      arith,
      cases,
      le,
      greatest (pos rule.minimum) (minimum-valid rule s),
      s.minimum_pos,
      s.in_range,
    )

module _ {F : Type 0} where
  -- the shares of all orders together
  abbrev pub ordered : List (OrderRequest F) → ℤ
  ordered [] = pos 0
  ordered (r ∷ rs) = r.quantity +ℤ ordered rs

  -- What the orders of a quantity `q` satisfy: each is accepted as its kind is, and what is left
  -- over is nothing, or, where quantities are rounded, too little for one more order.
  pub record Splits (rule : QuantityRule) (rounding : Bool) (q : ℤ) (rs : List (OrderRequest F))
      : Type 0 where
    pub accepted : All (λ r. valid rule r.quantity (not rounding) ≡ true) rs
    pub within : ordered rs ≤ℤ q
    pub left_over : (q ≡ ordered rs) ⊎ ((rounding ≡ true) × (q -ℤ ordered rs <ℤ pos rule.minimum))

-- one order more in front
left_over-cons :
    (m q a t : ℤ) {R : Type 0}
    → ((q -ℤ a ≡ t) ⊎ (R × (q -ℤ a -ℤ t <ℤ m)))
    → (q ≡ a +ℤ t) ⊎ (R × (q -ℤ (a +ℤ t) <ℤ m))
left_over-cons m q a t (inl e) =
    inl (eq_of_parts q (a +ℤ t) (omega (int_laws, ap pos_part e, ap neg_part e)))
left_over-cons m q a t (inr (r, lt)) = inr (r, omega int_laws)

module _ {F : Type 0} (rule : QuantityRule) (symbol : Text) (side : Side) (weight : F) where
  -- With fuel for every share the loop ends by its own test, and splits the quantity.
  split_orders-Splits :
      (rounding : Bool) (fuel : ℕ) (q : ℤ)
      → IsSound rule
      → pos 0 ≤ℤ q
      → q ≤ℤ pos fuel
      → Splits rule rounding q (split_orders rule symbol side weight rounding fuel q)
  unfolding split_orders
  split_orders-Splits rounding zero q s h le = record {
    accepted = tt;
    within = omega arith;
    left_over = inl (eq_of_parts q (pos 0) (omega arith));
  }
  split_orders-Splits rounding (suc fuel) q s h le = elim (Bool-cases (ltb_ℤ (pos 0) q)) [
    | inr done ↦ rw done (record {
      accepted = tt;
      within = ground arith;
      left_over = inl (eq_of_parts q (pos 0) (ground arith));
    })
    | inl more ↦ elim (amount_step rule rounding q s (ground arith)) [
      | inl (none_left, rounds, small) ↦
          rw (more, none_left)
            (record {
              accepted = tt;
              within = ground arith;
              left_over = inr (rounds, omega int_laws);
            })
      | inr (positive, within, accepted) ↦
          let a = amount_of rule rounding q in
          let ih = split_orders-Splits rounding fuel (q -ℤ a) s (omega int_laws) (omega int_laws) in
          let e : eqb_ℤ a (pos 0) ≡ false = ground arith in
          rw (more, e)
            (record {
              accepted = (accepted, ih.accepted);
              within = omega (int_laws, ih.within);
              left_over = left_over-cons (pos rule.minimum) q a _ ih.left_over;
            })
    ]
  ]

  split_orders_directed :
      (rounding : Bool) (fuel : ℕ) (q : ℤ)
      → All
          (λ r. (r.symbol ≡ symbol) × (r.side ≡ side))
          (split_orders rule symbol side weight rounding fuel q)
  unfolding split_orders
  split_orders_directed rounding zero q = tt
  split_orders_directed rounding (suc fuel) q =
      ground (arith, split_orders_directed rounding fuel (q -ℤ amount_of rule rounding q))

-- The side that leads from one quantity to another.
abbrev pub side_towards : ℤ → ℤ → Side
side_towards current target = if ltb_ℤ current target then Side.buy else Side.sell

-- Under a sound rule the orders from `current` to `target` shares of a symbol all go the right way
-- and are accepted, by the rounded rule unless everything is sold; together they never exceed the
-- difference, and nothing is left over or, where they are rounded, less than the minimum of one
-- order.
pub orders_between_lem :
    {F : Type 0} (rule : QuantityRule) (symbol : Text) (weight : F) (current target : ℤ)
    → IsSound rule
    → let side = side_towards current target in
      let rs = orders_between rule symbol weight current target in
      Splits rule (needs_rounding side target) (abs_ℤ (target -ℤ current)) rs
      × All (λ r. (r.symbol ≡ symbol) × (r.side ≡ side)) rs
unfolding orders_between
orders_between_lem rule symbol weight current target s =
    elim (Bool-cases (eqb_ℤ (target -ℤ current) (pos 0))) [
      | inl same ↦ rw same (
        record {
          accepted = tt;
          within = omega arith;
          left_over = inl (eq_of_parts _ (pos 0) (ground arith));
        },
        tt,
      )
      | inr differs ↦
          rw (differs, same_side)
            (
              split_orders-Splits rule symbol side weight rounding _ q s (omega arith)
                  (omega arith),
              split_orders_directed rule symbol side weight rounding _ q,
            )
    ]
  where
    side : Side
    side = side_towards current target

    rounding : Bool
    rounding = needs_rounding side target

    q : ℤ
    q = abs_ℤ (target -ℤ current)

    same_side : ltb_ℤ (pos 0) (target -ℤ current) ≡ ltb_ℤ current target
    same_side = ground (arith, -ℤ_parts target current)
