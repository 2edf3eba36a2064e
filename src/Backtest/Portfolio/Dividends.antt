-- ===== src/Backtest/Portfolio/Dividends.antt =====
-- What corporate actions and delistings do to a `Portfolio` (src/backtest/portfolio.py).
use fpro_v.Base.{
  false, ◌||◌, not, Option, none, some, filter, Text, text_eq, ◌=?◌, lookup, insert, erase, Result,
  ⊤, account_error, is_some,
}
use fpro_v.Base.Int.{ℤ, pos, ◌+ℤ◌, ◌-ℤ◌, ltb_ℤ}
use fpro_v.Base.Host.{Host, ◌⊕◌, ◌⊗◌, ◌⊲◌, of_ℤ, decimal, zero_f, is_finite, floor}
use fpro_v.Base.Method.{Method, ◌>>=◌, ◌>>◌, pure, gets, reads, modify, raise_if}
use fpro_v.Backtest.Portfolio.State.{
  Key, key_eq, Position, Portfolio, identity, position, assert_valid,
}

module _ {F : Type 0} where
  -- `position.quantity if position else 0`
  abbrev pub quantity_of : Option (Position F) → ℤ
  quantity_of none = pos 0
  quantity_of (some p) = p.quantity

  -- the branch of `capture_entitlement` for an action that is not recorded yet
  abbrev pub record_entitlement : Text → Key → Option ℤ → Method (Portfolio F) ℤ
  record_entitlement action symbol (some n) = pure n
  record_entitlement action symbol none = do
    key ← reads (λ s. identity s.identities symbol)
    n ← gets (λ s. quantity_of (lookup key s.positions))
    modify (λ s. record s { entitlements = insert action n s.entitlements })
    pure n

  unfoldable pub capture_entitlement : Text → Key → Method (Portfolio F) ℤ
  capture_entitlement action symbol = do
    found ← gets (λ s. lookup action s.entitlements)
    record_entitlement action symbol found

  unfoldable pub entitlement : Text → Portfolio F → Option ℤ
  entitlement action s = lookup action s.entitlements

module _ {F : Type 0} ⦃host : Host F⦄ where
  unfoldable pub recognize_dividend : Text → F → Method (Portfolio F) ⊤
  recognize_dividend action amount = do
    known ← gets (λ s. is_some (lookup action s.receivables))
    raise_if known account_error
    raise_if (not (is_finite amount) || (amount ⊲ zero_f)) account_error
    modify (λ s. record s { receivables = insert action amount s.receivables })
    assert_valid

  abbrev pub or_zero : Option F → F
  or_zero none = zero_f
  or_zero (some amount) = amount

  unfoldable pub settle_dividend : Text → Method (Portfolio F) ⊤
  settle_dividend action = do
    amount ← gets (λ s. or_zero (lookup action s.receivables))
    modify (λ s. record s { cash = s.cash ⊕ amount; receivables = erase action s.receivables })
    assert_valid

  -- a share dividend: more shares, none of them for sale yet
  abbrev pub with_bonus : Position F → ℤ → Position F
  with_bonus p n = record p {
    quantity = p.quantity +ℤ n;
    pending_listing_quantity = p.pending_listing_quantity +ℤ n;
  }

  -- `math.floor(entitlement * ratio + 1e-9)`
  unfoldable pub bonus_shares : ℤ → F → Result ℤ
  bonus_shares entitled ratio = floor (of_ℤ entitled ⊗ ratio ⊕ decimal 1 9)

  unfoldable pub add_stock_dividend : Text → Key → ℤ → F → Method (Portfolio F) ℤ
  unfolding position bonus_shares
  add_stock_dividend action symbol entitled ratio = do
    known ← gets (λ s. is_some (lookup action s.pending_stock))
    raise_if known account_error
    n ← reads (λ _. bonus_shares entitled ratio)
    (key, p) ← position symbol
    modify (λ s. record s { positions = insert key (with_bonus p n) s.positions })
    key' ← reads (λ s. identity s.identities symbol)
    modify (λ s. record s { pending_stock = insert action (key', n) s.pending_stock })
    assert_valid
    pure n

  -- the listed shares are for sale
  abbrev pub with_listed : Position F → ℤ → Position F
  with_listed p n = record p {
    pending_listing_quantity = p.pending_listing_quantity -ℤ n;
    sellable_quantity = p.sellable_quantity +ℤ n;
  }

  abbrev pub list_pending : Option (Key × ℤ) → Method (Portfolio F) ⊤
  list_pending none = pure tt
  list_pending (some (symbol, n)) = do
    (key, p) ← position symbol
    raise_if (ltb_ℤ p.pending_listing_quantity n) account_error
    modify (λ s. record s { positions = insert key (with_listed p n) s.positions })
    assert_valid

  unfoldable pub list_stock_dividend : Text → Method (Portfolio F) ⊤
  unfolding position
  list_stock_dividend action = do
    pending ← gets (λ s. lookup action s.pending_stock)
    modify (λ s. record s { pending_stock = erase action s.pending_stock })
    list_pending pending

  abbrev pub emptied : Position F → Position F
  emptied p = record p {
    quantity = pos 0;
    sellable_quantity = pos 0;
    pending_listing_quantity = pos 0;
    last_price = none;
    stale_price = false;
  }

  abbrev pub write_off_found : Key → Option (Position F) → Method (Portfolio F) ⊤
  write_off_found key none = pure tt
  write_off_found key (some p) = do
    modify (λ s. record s {
      positions = insert key (emptied p) s.positions;
      pending_stock = filter (λ e. not (e.1.0 =? key)) s.pending_stock;
    })
    assert_valid

  unfoldable pub write_off : Key → Method (Portfolio F) ⊤
  write_off symbol = do
    key ← reads (λ s. identity s.identities symbol)
    found ← gets (λ s. lookup key s.positions)
    write_off_found key found
