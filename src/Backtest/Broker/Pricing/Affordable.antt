-- ===== src/Backtest/Broker/Pricing/Affordable.antt =====
-- What cash can pay for (`_affordable_quantity` of src/backtest/broker.py).
use fpro_v.Base.{
  ℕ, zero, suc, ◌≡◌, ◌≤◌, ◌<◌, refl, ◌⊎◌, inl, inr, Bool, true, false, Bool-cases, ◌==◌, subst, sym,
  ok-injective, Date, ok, bind-eq-ok, arith,
}
use fpro_v.Base.Int.{ℤ, pos, min_ℤ, max_ℤ, pos_part}
use fpro_v.Base.Host.{Host, divide, floor}
use fpro_v.Backtest.Config.{BacktestConfig}
use fpro_v.Backtest.Broker.Pricing.{first_from, is_affordable, affordable_quantity}

-- The loop stops at the greatest quantity, up to its start, that passes the test, or at 0.
first_from_greatest :
    (test : ℕ → Bool) (start : ℕ)
    → let n = first_from test start in
      (n ≤ start) × ((n ≡ 0) ⊎ (test n ≡ true)) × ((m : ℕ) → n < m → m ≤ start → test m ≡ false)
unfolding first_from
first_from_greatest test zero = (omega arith, inl refl, λ m h k. absurd (omega arith))
first_from_greatest test (suc start) =
    let (below, passes, beyond) = first_from_greatest test start in
    elim (Bool-cases (test (suc start))) [
      | inl e ↦ rw e (omega arith, inr e, λ m h k. absurd (omega arith))
      | inr e ↦ rw e (
        omega arith,
        passes,
        λ m h k. elim (Bool-cases (m == suc start)) [
          | inl same ↦ subst (λ j. test j ≡ false) (ground arith) e
          | inr other ↦ beyond m h (ground arith)
        ],
      )
    ]

module _ {F : Type 0} ⦃host : Host F⦄ where
  -- A purchase is never cut below what the cash pays for: of the quantities up to the request and
  -- up to the bound by the price alone, the one that is answered is affordable with all its fees,
  -- unless it is 0, and no larger one is.
  pub affordable_quantity_greatest :
      (config : BacktestConfig F) (requested n : ℤ) (price cash : F) (day : Date)
      → affordable_quantity config requested price cash day ≡ ok n
      → (ratio : F) × (bound : ℤ) × (q : ℕ) × (divide cash price ≡ ok ratio)
        × (floor ratio ≡ ok bound)
        × (n ≡ pos q)
        × (q ≤ pos_part (min_ℤ requested (max_ℤ (pos 0) bound)))
        × ((q ≡ 0) ⊎ (is_affordable config price cash day q ≡ true))
        × ((m : ℕ)
            → q < m
            → m ≤ pos_part (min_ℤ requested (max_ℤ (pos 0) bound))
            → is_affordable config price cash day m ≡ false)
  unfolding affordable_quantity
  affordable_quantity_greatest config requested n price cash day h =
      let (ratio, quotient, h') = bind-eq-ok (divide cash price) _ h in
      let (bound, whole, done) = bind-eq-ok (floor ratio) _ h' in
      let test = is_affordable config price cash day in
      let start = pos_part (min_ℤ requested (max_ℤ (pos 0) bound)) in
      let (below, passes, beyond) = first_from_greatest test start in
      (
        ratio,
        bound,
        first_from test start,
        quotient,
        whole,
        sym (ok-injective done),
        below,
        passes,
        beyond,
      )
