-- ===== src/Backtest/Portfolio/Effects.antt =====
-- What an accepted fill changes, and what it leaves alone (src/backtest/portfolio.py).
use fpro_v.Base.{
  ◌≡◌, ◌≢◌, refl, sym, subst, true, false, ⊤, some, lookup, insert, lookup-insert,
  lookup-insert_self, ok, arith,
}
use fpro_v.Base.Int.{ℤ, pos, ◌+ℤ◌, ◌-ℤ◌, ◌≤ℤ◌}
use fpro_v.Base.Host.{Host, IsOrdered, zero_f, max_f, ◌⊕◌, ◌⊖◌, ◌⊲◌}
use fpro_v.Base.Method.{continue, continue-eq-ok}
use fpro_v.Backtest.Domain.{Side, Fill}
use fpro_v.Backtest.Portfolio.State.{
  Key, key_eq, key_beq_iff, Position, Portfolio, identity, assert_valid, epsilon,
}
use fpro_v.Backtest.Portfolio.Trading.{
  apply_fill, route_fill, settle_fill, new_cash, filled, or_new, fill_key, check_sid, total_fee,
}

-- the shares that a fill moves, and those of them that were for sale
abbrev pub moved : Side → ℤ → ℤ → ℤ
moved Side.buy n q = n +ℤ q
moved Side.sell n q = n -ℤ q

abbrev pub sold : Side → ℤ → ℤ → ℤ
sold Side.buy n q = n
sold Side.sell n q = n -ℤ q

-- the shares of a sale were there, and for sale
abbrev pub IsForSale : {F : Type 0} → Side → ℤ → Position F → Type 0
IsForSale Side.buy q p = ⊤
IsForSale Side.sell q p = (q ≤ℤ p.quantity) × (q ≤ℤ p.sellable_quantity)

module _ {F : Type 0} ⦃host : Host F⦄ where
  -- the account that a fill of the position under `key` leaves
  abbrev filled_account : Portfolio F → Fill F → Key → F → Portfolio F
  filled_account s fill key cash = record s {
    cash = max_f zero_f cash;
    positions =
        insert key
          (filled (or_new (lookup key s.positions) fill.symbol key) fill.quantity fill.side)
          s.positions;
  }

  settle_fill-eq-ok :
      (fill : Fill F) (key : Key) (s s' : Portfolio F)
      → settle_fill fill key s ≡ (ok tt, s')
      → (cash : F) × (new_cash s fill (or_new (lookup key s.positions) fill.symbol key) fill.side
          ≡ ok cash)
        × (s' ≡ filled_account s fill key cash)
  unfolding settle_fill assert_valid
  settle_fill-eq-ok fill key s s' h = ground arith

  route_fill-eq-ok :
      (fill : Fill F) (s s' : Portfolio F)
      → route_fill fill s ≡ (ok tt, s')
      → (key : Key) × (identity s.identities (fill_key fill.sid fill.symbol) ≡ ok key)
        × (settle_fill fill key s ≡ (ok tt, s'))
  unfolding route_fill
  route_fill-eq-ok fill s s' h =
      let wanted = fill_key fill.sid fill.symbol in
      let (_, _, checked) =
        continue-eq-ok (check_sid s.identities fill.sid fill.symbol)
          (λ _ t. continue (identity t.identities wanted) (settle_fill fill) t) s h in
      continue-eq-ok (identity s.identities wanted) (settle_fill fill) s checked

  apply_fill-eq-ok :
      (fill : Fill F) (s s' : Portfolio F)
      → apply_fill fill s ≡ (ok tt, s')
      → route_fill fill s ≡ (ok tt, s')
  unfolding apply_fill assert_valid
  apply_fill-eq-ok fill s s' h = ground arith

  filled_quantities :
      (p : Position F) (q : ℤ) (side : Side)
      → ((filled p q side).quantity ≡ moved side p.quantity q)
        × ((filled p q side).sellable_quantity ≡ sold side p.sellable_quantity q)
        × ((filled p q side).pending_listing_quantity ≡ p.pending_listing_quantity)
  unfolding filled
  filled_quantities p q Side.buy = (refl, refl, refl)
  filled_quantities p q Side.sell = ground arith

  -- what is known of the shares of a fill when its cash is known
  new_cash-IsForSale :
      (s : Portfolio F) (fill : Fill F) (p : Position F) (side : Side) (cash : F)
      → new_cash s fill p side ≡ ok cash
      → IsForSale side fill.quantity p
  unfolding new_cash
  new_cash-IsForSale s fill p Side.buy cash h = tt
  new_cash-IsForSale s fill p Side.sell cash h = ground arith

  -- An accepted fill moves its quantity in the one position of its security. What was bought is
  -- not for sale (T+1). A sale is of at most the shares that were held, and at most those of them
  -- that were for sale, and takes them from both. Other positions, the registered entitlements and
  -- the pending bonus shares stay.
  pub apply_fill_moves :
      (fill : Fill F) (s s' : Portfolio F)
      → apply_fill fill s ≡ (ok tt, s')
      → (key : Key) × (p : Position F) × (identity s.identities (fill_key fill.sid fill.symbol)
          ≡ ok key)
        × (lookup key s'.positions ≡ some p)
        × (let old = or_new (lookup key s.positions) fill.symbol key in
            (p.quantity ≡ moved fill.side old.quantity fill.quantity)
            × (p.sellable_quantity ≡ sold fill.side old.sellable_quantity fill.quantity)
            × (p.pending_listing_quantity ≡ old.pending_listing_quantity)
            × IsForSale fill.side fill.quantity old)
        × ((j : Key) → j ≢ key → lookup j s'.positions ≡ lookup j s.positions)
        × (s'.entitlements ≡ s.entitlements)
        × (s'.pending_stock ≡ s.pending_stock)
  apply_fill_moves fill s s' h =
      let (key, known, settled) = route_fill-eq-ok fill s s' (apply_fill-eq-ok fill s s' h) in
      let (cash, paid, e) = settle_fill-eq-ok fill key s s' settled in
      let old = or_new (lookup key s.positions) fill.symbol key in
      let p = filled old fill.quantity fill.side in
      let (held, for_sale, pending) = filled_quantities old fill.quantity fill.side in
      (
        key,
        p,
        known,
        subst (λ t. lookup key t.positions ≡ some p) (sym e) (lookup-insert_self key p s.positions),
        (held, for_sale, pending, new_cash-IsForSale s fill old fill.side cash paid),
        (λ j ne. rw e (rw lookup-insert (ground (arith, key_beq_iff j key)))),
        rw e refl,
        rw e refl,
      )

  -- the cash as the fill leaves it, before it is cut off at zero
  abbrev pub balance : Side → F → Fill F → F
  balance Side.buy cash fill = cash ⊖ (fill.notional ⊕ total_fee fill)
  balance Side.sell cash fill = (cash ⊕ fill.notional) ⊖ total_fee fill

  -- the cash pays for a fill but for the tolerance
  abbrev pub IsPaid : Side → F → Fill F → Type 0
  IsPaid Side.buy cash fill = ((cash ⊕ epsilon) ⊲ (fill.notional ⊕ total_fee fill)) ≡ false
  IsPaid Side.sell cash fill = (balance Side.sell cash fill ⊲ (zero_f ⊖ epsilon)) ≡ false

  new_cash-IsPaid :
      (s : Portfolio F) (fill : Fill F) (p : Position F) (side : Side) (cash : F)
      → new_cash s fill p side ≡ ok cash
      → (cash ≡ balance side s.cash fill) × IsPaid side s.cash fill
  unfolding new_cash
  new_cash-IsPaid s fill p Side.buy cash h = ground arith
  new_cash-IsPaid s fill p Side.sell cash h = ground arith

  -- If the floats are ordered as IEEE 754 orders them, the cash after an accepted fill is not
  -- negative: it is the cash before less the cost of a purchase with its fees, or more the proceeds
  -- of a sale less its fees, cut off at zero. What is cut off is within the tolerance: the cash
  -- before and the tolerance were not less than the cost of a purchase, and the balance of a sale
  -- was not less than the tolerance below zero.
  pub apply_fill_cash :
      (fill : Fill F) (s s' : Portfolio F)
      → IsOrdered host
      → apply_fill fill s ≡ (ok tt, s')
      → (s'.cash ≡ max_f zero_f (balance fill.side s.cash fill))
        × IsPaid fill.side s.cash fill
        × (host.le zero_f s'.cash ≡ true)
  apply_fill_cash fill s s' laws h =
      let (key, _, settled) = route_fill-eq-ok fill s s' (apply_fill-eq-ok fill s s' h) in
      let (cash, paid, e) = settle_fill-eq-ok fill key s s' settled in
      let (is_balance, covered) =
        new_cash-IsPaid s fill (or_new (lookup key s.positions) fill.symbol key) fill.side cash
          paid in
      (
        rw (e, is_balance) refl,
        covered,
        rw e (ground (arith, laws.le_of_lt zero_f cash, laws.le_self (pos 0))),
      )
