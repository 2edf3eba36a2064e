-- ===== src/Backtest/Portfolio/Invariant.antt =====
-- The quantities of an account stay sound under fills, and a fill that is refused changes nothing
-- (src/backtest/portfolio.py).
use fpro_v.Base.{
  ◌≡◌, refl, ◌⊎◌, inl, inr, Bool, true, false, not, some, [], ◌∷◌, all, Bool-cases, Option-cases,
  Result-cases, Eq, Dict, lookup, insert, Result, ok, raise, ⊤, arith,
}
use fpro_v.Base.Int.{pos, ◌+ℤ◌, ◌-ℤ◌, ◌≤ℤ◌, leb_ℤ, +ℤ_parts, -ℤ_parts}
use fpro_v.Base.Host.{Host}
use fpro_v.Backtest.Domain.{Side, Fill}
use fpro_v.Backtest.Portfolio.State.{
  Key, key_eq, Position, Portfolio, identity, is_position, has_amounts, has_positions, is_valid,
  assert_valid, new_position,
}
use fpro_v.Backtest.Portfolio.Trading.{
  apply_fill, route_fill, settle_fill, has_bad_amount, new_cash, filled, or_new, fill_key,
  check_sid, key_sid,
}

-- Sound quantities, as numbers.
pub record IsSound {F : Type 0} (p : Position F) : Type 0 where
  pub quantity_nonneg : pos 0 ≤ℤ p.quantity
  pub sellable_nonneg : pos 0 ≤ℤ p.sellable_quantity
  pub pending_nonneg : pos 0 ≤ℤ p.pending_listing_quantity
  pub within : p.sellable_quantity +ℤ p.pending_listing_quantity ≤ℤ p.quantity

module _ {F : Type 0} where
  pub is_position-IsSound : (p : Position F) → is_position p ≡ true → IsSound p
  unfolding is_position
  is_position-IsSound p h = ground arith

  pub IsSound-is_position : (p : Position F) → IsSound p → is_position p ≡ true
  unfolding is_position
  IsSound-is_position p v = ground arith

module _ {K V : Type 0} ⦃e : Eq K⦄ (test : V → Bool) where
  pub all-insert :
      (k : K) (v : V) (d : Dict K V)
      → all (λ x. test x.1) d ≡ true
      → test v ≡ true
      → all (λ x. test x.1) (insert k v d) ≡ true
  all-insert k v [] h p = ground arith
  all-insert k v ((j, w) ∷ d) h p = ground (arith, all-insert k v d)

  pub all-lookup :
      (k : K) (v : V) (d : Dict K V)
      → all (λ x. test x.1) d ≡ true
      → lookup k d ≡ some v
      → test v ≡ true
  all-lookup k v [] h p = cc
  all-lookup k v ((j, w) ∷ d) h p = ground (arith, all-lookup k v d)

module _ {F : Type 0} ⦃host : Host F⦄ where
  -- a fill that its guards let through keeps the quantities sound
  filled-is_position :
      (s : Portfolio F) (fill : Fill F) (p : Position F) (side : Side) (cash : F)
      → is_position p ≡ true
      → leb_ℤ fill.quantity (pos 0) ≡ false
      → new_cash s fill p side ≡ ok cash
      → is_position (filled p fill.quantity side) ≡ true
  unfolding filled new_cash is_position
  filled-is_position s fill p Side.buy cash v q e = ground (
    arith,
    +ℤ_parts p.sellable_quantity p.pending_listing_quantity,
    +ℤ_parts p.quantity fill.quantity,
  )
  filled-is_position s fill p Side.sell cash v q e = ground (
    arith,
    +ℤ_parts p.sellable_quantity p.pending_listing_quantity,
    +ℤ_parts (p.sellable_quantity -ℤ fill.quantity) p.pending_listing_quantity,
    -ℤ_parts p.quantity fill.quantity,
    -ℤ_parts p.sellable_quantity fill.quantity,
  )

  or_new-is_position :
      (s : Portfolio F) (symbol : _) (key : Key)
      → has_positions s ≡ true
      → is_position (or_new (lookup key s.positions) symbol key) ≡ true
  unfolding has_positions
  or_new-is_position s symbol key v = elim (Option-cases (lookup key s.positions)) [
    | inl e ↦ rw e (
        IsSound-is_position {F = F} (new_position symbol (key_sid key))
          (ground (arith, +ℤ_parts (pos 0) (pos 0))))
    | inr (p, e) ↦ rw e (all-lookup is_position key p s.positions v e)
  ]

  not_amounts :
      (t : Portfolio F) → has_positions t ≡ true → is_valid t ≡ false → has_amounts t ≡ false
  unfolding is_valid
  not_amounts t v e = ground arith

  valid_positions : (t : Portfolio F) → not (is_valid t) ≡ false → has_positions t ≡ true
  unfolding is_valid
  valid_positions t e = ground arith

  insert-has_positions :
      (s : Portfolio F) (key : Key) (p : Position F)
      → has_positions s ≡ true
      → is_position p ≡ true
      → all (λ x. is_position x.1) (insert key p s.positions) ≡ true
  unfolding has_positions
  insert-has_positions s key p v h = all-insert is_position key p s.positions v h

  -- What a call that began at `s` has done, by how it ended: it returns in a valid state, or it
  -- raises and leaves the account alone, or, where the quantities are still sound, a money value
  -- left the floats that an account may hold.
  abbrev pub Committed : Portfolio F → Result ⊤ × Portfolio F → Type 0
  Committed s (ok _, s') = is_valid s' ≡ true
  Committed s (raise _, s') = (s' ≡ s) ⊎ ((has_amounts s' ≡ false) × (has_positions s' ≡ true))

  assert_valid-Committed :
      (s t : Portfolio F) → has_positions t ≡ true → Committed s (assert_valid t)
  unfolding assert_valid
  assert_valid-Committed s t v = elim (Bool-cases (is_valid t)) [
    | inl e ↦ rw e e
    | inr e ↦ rw e (inr (not_amounts t v e, v))
  ]

  settle_fill-Committed :
      (fill : Fill F) (key : Key) (s : Portfolio F)
      → has_positions s ≡ true
      → leb_ℤ fill.quantity (pos 0) ≡ false
      → Committed s (settle_fill fill key s)
  unfolding settle_fill has_positions
  settle_fill-Committed fill key s v q =
      let p = or_new (lookup key s.positions) fill.symbol key in
      elim (Result-cases (new_cash s fill p fill.side)) [
        | inl (e, refused) ↦ rw refused (inl refl)
        | inr (cash, paid) ↦ rw paid (
            assert_valid-Committed s _ (
              insert-has_positions s key _ v (
                filled-is_position s fill p fill.side cash (or_new-is_position s fill.symbol key v)
                  q paid)))
      ]

  route_fill-Committed :
      (fill : Fill F) (s : Portfolio F)
      → has_positions s ≡ true
      → leb_ℤ fill.quantity (pos 0) ≡ false
      → Committed s (route_fill fill s)
  unfolding route_fill
  route_fill-Committed fill s v q =
      elim (Result-cases (check_sid s.identities fill.sid fill.symbol)) [
        | inl (e, bad) ↦ rw bad (inl refl)
        | inr (t, same) ↦
            rw same (elim (Result-cases (identity s.identities (fill_key fill.sid fill.symbol))) [
              | inl (e, bad) ↦ rw bad (inl refl)
              | inr (key, known) ↦ rw known (settle_fill-Committed fill key s v q)
            ])
      ]

  -- A fill that is accepted leaves a valid account. One that is refused, for whatever reason, leaves
  -- the account as it was, or else a money value left the range that an account may hold while all
  -- quantities are still sound.
  pub apply_fill-Committed : (fill : Fill F) (s : Portfolio F) → Committed s (apply_fill fill s)
  unfolding apply_fill assert_valid
  apply_fill-Committed fill s = elim (Bool-cases (is_valid s)) [
    | inr bad ↦ rw bad (inl refl)
    | inl valid ↦ rw valid (elim (Bool-cases (leb_ℤ fill.quantity (pos 0))) [
      | inl bad ↦ rw bad (inl refl)
      | inr positive ↦ rw positive (elim (Bool-cases (has_bad_amount fill)) [
        | inl bad ↦ rw bad (inl refl)
        | inr amounts ↦
            rw amounts (route_fill-Committed fill s (valid_positions s (rw valid)) positive)
      ])
    ])
  ]
