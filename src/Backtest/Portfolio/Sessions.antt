-- ===== src/Backtest/Portfolio/Sessions.antt =====
-- Positions at the start of a session and at a delisting (src/backtest/portfolio.py).
use fpro_v.Base.{
  ◌≡◌, sym, ap, ◌∙◌, inl, inr, some, [], ◌∷◌, Bool-cases, ◌=?◌, text_eq, Dict, lookup, Result, ok,
  ⊤, arith,
}
use fpro_v.Base.Int.{◌-ℤ◌}
use fpro_v.Base.Host.{Host}
use fpro_v.Backtest.Portfolio.State.{
  Key, key_eq, Position, Portfolio, assert_valid, assert_valid_keeps,
}
use fpro_v.Backtest.Portfolio.Trading.{map_positions, unlock, unlock_t1}

module _ {F : Type 0} where
  lookup-map_positions :
      (f : Position F → Position F) (key : Key) (p : Position F) (ps : Dict Key (Position F))
      → lookup key ps ≡ some p
      → lookup key (map_positions f ps) ≡ some (f p)
  lookup-map_positions f key p [] h = cc
  lookup-map_positions f key p ((k, q) ∷ ps) h = elim (Bool-cases (key =? k)) [
    | inl same ↦ ground (arith, rw same at h, same)
    | inr other ↦ ground (arith, rw other at h, other, lookup-map_positions f key p ps)
  ]

module _ {F : Type 0} ⦃host : Host F⦄ where
  assert_valid-state : (t s' : Portfolio F) (r : Result ⊤) → assert_valid t ≡ (r, s') → s' ≡ t
  assert_valid-state t s' r h = sym (ap (λ x. x.1) h) ∙ assert_valid_keeps t

  -- After the start of a session each position is for sale but for its bonus shares that are not
  -- listed yet; its other quantities, its price and the cash stay.
  pub unlock_t1_frees :
      (key : Key) (p : Position F) (s s' : Portfolio F)
      → lookup key s.positions ≡ some p
      → unlock_t1 s ≡ (ok tt, s')
      → (lookup key s'.positions
          ≡ some (record p { sellable_quantity = p.quantity -ℤ p.pending_listing_quantity }))
        × (s'.cash ≡ s.cash)
  unfolding unlock_t1
  unlock_t1_frees key p s s' held h =
      let e =
        assert_valid-state (record s { positions = map_positions unlock s.positions }) s' (ok tt)
          h in
      (
        ap (λ x. lookup key x.positions) e ∙ lookup-map_positions unlock key p s.positions held,
        ap (λ x. x.cash) e,
      )
