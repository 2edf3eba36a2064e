-- ===== src/Backtest/TradingRules/Rounding.antt =====
-- `round_down` finds the largest quantity that a rule accepts (src/backtest/trading_rules.py).
use native.Mathlib.Nat.{div-add-mod', mul-div_left, le-div_iff_mul-le, mul-le-mul_right, le_trans}
use native.Mathlib.Decide.{dec_lt}
use fpro_v.Base.{
  ℕ, ◌*◌, ◌/◌, ◌≤◌, ◌<◌, ◌%◌, ◌≡◌, ap, ◌⊎◌, inl, inr, true, false, arith, min, if◌then◌else◌, leb,
}
use fpro_v.Base.Int.{ℤ, pos, negsuc, ◌/ℤ◌, ◌*ℤ◌, ◌≤ℤ◌}
use fpro_v.Backtest.TradingRules.{QuantityRule, IsSound, round_down, valid}

-- whole steps, on the natural numbers
abbrev whole : ℕ → ℕ → ℕ
whole step n = n / step * step

whole-le : (step n : ℕ) → whole step n ≤ n
whole-le step n = omega (arith, div-add-mod' n step)

whole_of_steps : (step n : ℕ) → n % step ≡ 0 → whole step n ≡ n
whole_of_steps step n h = omega (arith, div-add-mod' n step)

whole_mono : (step m n : ℕ) → 0 < step → m ≤ n → whole step m ≤ whole step n
whole_mono step m n p h =
    mul-le-mul_right step ((le-div_iff_mul-le p).1 (le_trans (whole-le step m) h))

whole-whole : (step n : ℕ) → 0 < step → whole step (whole step n) ≡ whole step n
whole-whole step n h = ap (λ k. k * step) (mul-div_left (n / step) h)

-- `round_down` of a natural number, as a natural number
abbrev rounded : QuantityRule → ℕ → ℕ
rounded rule n = let m = min n rule.maximum in if leb rule.minimum m then whole rule.step m else 0

round_down-pos : (rule : QuantityRule) (n : ℕ) → round_down rule (pos n) ≡ pos (rounded rule n)
unfolding round_down ◌/ℤ◌ ◌*ℤ◌
round_down-pos rule n = ground arith

-- A positive multiple of the step within the two bounds is what `valid` accepts.
valid-rounded :
    (rule : QuantityRule) (n : ℕ)
    → valid rule (pos n) false ≡ true
    → (0 < n) × (n ≤ rule.maximum) × (rounded rule n ≡ n)
unfolding valid
valid-rounded rule n h = ground (arith, round_down-pos rule n)

rounded-valid :
    (rule : QuantityRule) (n : ℕ)
    → 0 < n
    → n ≤ rule.maximum
    → rounded rule n ≡ n
    → valid rule (pos n) false ≡ true
unfolding valid
rounded-valid rule n pos_n h e = ground (arith, round_down-pos rule n)

module _ (rule : QuantityRule) (s : IsSound rule) (n : ℕ) where
  rounded-le : rounded rule n ≤ n
  rounded-le = ground (arith, whole-le rule.step (min n rule.maximum))

  rounded-le-maximum : rounded rule n ≤ rule.maximum
  rounded-le-maximum = ground (arith, whole-le rule.step (min n rule.maximum))

  -- rounding does not fall below the minimum, which is itself a number of whole steps
  rounded-ge-minimum : rule.minimum ≤ min n rule.maximum → rule.minimum ≤ rounded rule n
  rounded-ge-minimum h = ground (
    arith,
    whole_mono rule.step rule.minimum (min n rule.maximum) s.step_pos h,
    whole_of_steps rule.step rule.minimum s.minimum_steps,
  )

  rounded-rounded : rounded rule (rounded rule n) ≡ rounded rule n
  rounded-rounded = ground (
    arith,
    s.minimum_pos,
    rounded-ge-minimum,
    rounded-le-maximum,
    whole-whole rule.step (min n rule.maximum) s.step_pos,
  )

  rounded-cases : (rounded rule n ≡ 0) ⊎ (valid rule (pos (rounded rule n)) false ≡ true)
  rounded-cases = elim (dec_lt 0 (rounded rule n)) [
    | yes p ↦ inr (rounded-valid rule (rounded rule n) p rounded-le-maximum rounded-rounded)
    | no p ↦ inl (omega arith)
  ]

  rounded_greatest : (k : ℕ) → valid rule (pos k) false ≡ true → k ≤ n → k ≤ rounded rule n
  rounded_greatest k h le =
      let (positive, small, fixed) = valid-rounded rule k h in
      ground (
        arith,
        positive,
        small,
        fixed,
        whole_mono rule.step (min k rule.maximum) (min n rule.maximum) s.step_pos,
      )

-- Under a sound rule, rounding down a quantity of zero or more gives a quantity that the rule accepts, or zero; it
-- never exceeds the quantity, and no accepted quantity lies between.
pub round_down_greatest :
    (rule : QuantityRule) (q : ℤ)
    → IsSound rule
    → pos 0 ≤ℤ q
    → let r = round_down rule q in
      ((r ≡ pos 0) ⊎ (valid rule r false ≡ true))
      × (r ≤ℤ q)
      × ((v : ℤ) → valid rule v false ≡ true → v ≤ℤ q → v ≤ℤ r)
round_down_greatest rule (pos n) s h =
    rw (round_down-pos rule n) (cases, omega (arith, rounded-le rule s n), greatest)
  where
    cases : (pos (rounded rule n) ≡ pos 0) ⊎ (valid rule (pos (rounded rule n)) false ≡ true)
    cases = elim (rounded-cases rule s n) [ inl e ↦ inl (ap pos e) | inr e ↦ inr e ]

    greatest : (v : ℤ) → valid rule v false ≡ true → v ≤ℤ pos n → v ≤ℤ pos (rounded rule n)
    greatest (pos k) e le = omega (arith, rounded_greatest rule s n k e (omega arith))
    greatest (negsuc k) e le = omega arith
round_down_greatest rule (negsuc n) s h = absurd (omega arith)

pub minimum-valid :
    (rule : QuantityRule) → IsSound rule → valid rule (pos rule.minimum) false ≡ true
minimum-valid rule s =
    rounded-valid rule rule.minimum s.minimum_pos s.in_range
      (ground (arith, s.in_range, whole_of_steps rule.step rule.minimum s.minimum_steps))
