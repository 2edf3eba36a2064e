-- ===== src/Backtest/Portfolio/Rights.antt =====
-- Rights are registered once and dividends are paid once (src/backtest/portfolio.py).
use fpro_v.Base.{
  ◌≡◌, refl, ap, ◌∙◌, inl, inr, true, false, Option, none, some, [], ◌∷◌, Bool-cases, Eq, ◌=?◌,
  Text, text_eq, beq_self, Dict, lookup, insert, erase, lookup-insert_self, ok, arith,
}
use fpro_v.Base.Int.{ℤ}
use fpro_v.Base.Host.{Host, ◌⊕◌, ◌⊲◌, zero_f, is_finite}
use fpro_v.Base.Method.{continue-eq-ok}
use fpro_v.Backtest.Portfolio.State.{
  Key, key_eq, Portfolio, identity, assert_valid, assert_valid_keeps,
}
use fpro_v.Backtest.Portfolio.Dividends.{
  capture_entitlement, record_entitlement, recognize_dividend, settle_dividend, quantity_of,
}

-- taking out a new key that was put in gives the dict back
erase-insert_new :
    {K V : Type 0} ⦃e : Eq K⦄ (k : K) (v : V) (d : Dict K V)
    → lookup k d ≡ none
    → erase k (insert k v d) ≡ d
erase-insert_new ⦃e⦄ k v [] h = rw (beq_self k)
erase-insert_new ⦃e⦄ k v ((j, w) ∷ d) h = elim (Bool-cases (k =? j)) [
  | inl same ↦ cc (rw same at h)
  | inr other ↦ rw (other, other) (ap (◌∷◌ (j, w)) (erase-insert_new k v d (rw other at h)))
]

module _ {F : Type 0} where
  -- the entitlement that a call answers is the one on record after it
  registered :
      (action : Text) (symbol : Key) (s s' : Portfolio F) (n : ℤ) (found : Option ℤ)
      → lookup action s.entitlements ≡ found
      → record_entitlement action symbol found s ≡ (ok n, s')
      → lookup action s'.entitlements ≡ some n
  registered action symbol s s' n (some m) e h = ground arith
  registered action symbol s s' n none e h =
      let (key, _, done) =
        continue-eq-ok (identity s.identities symbol)
          (λ key t.
            let held = quantity_of (lookup key t.positions) in
            (ok held, record t { entitlements = insert action held t.entitlements }))
          s h in
      let held = quantity_of (lookup key s.positions) in
      ground (arith, done, lookup-insert_self action held s.entitlements)

  -- Once an action's entitlement is registered it stays: whatever happens to the positions
  -- meanwhile, asking again gives the same number and changes nothing.
  pub capture_entitlement_frozen :
      (action : Text) (symbol later : Key) (s s' t : Portfolio F) (n : ℤ)
      → capture_entitlement action symbol s ≡ (ok n, s')
      → t.entitlements ≡ s'.entitlements
      → capture_entitlement action later t ≡ (ok n, t)
  unfolding capture_entitlement
  capture_entitlement_frozen action symbol later s s' t n h same =
      rw (same, registered action symbol s s' n (lookup action s.entitlements) refl h) refl

module _ {F : Type 0} ⦃host : Host F⦄ where
  recognize_dividend-eq-ok :
      (action : Text) (amount : F) (s s' : Portfolio F)
      → recognize_dividend action amount s ≡ (ok tt, s')
      → (lookup action s.receivables ≡ none)
        × (is_finite amount ≡ true)
        × ((amount ⊲ zero_f) ≡ false)
        × (s' ≡ record s { receivables = insert action amount s.receivables })
  unfolding recognize_dividend assert_valid
  recognize_dividend-eq-ok action amount s s' h = ground arith

  -- A dividend that was recognised is paid exactly once: settling it adds its amount to the cash
  -- of that day and leaves the receivables as they were before it was recognised.
  pub settle_dividend_pays :
      (action : Text) (amount : F) (s s' t : Portfolio F)
      → recognize_dividend action amount s ≡ (ok tt, s')
      → t.receivables ≡ s'.receivables
      → let u = (settle_dividend action t).1 in
        (u.cash ≡ t.cash ⊕ amount) × (u.receivables ≡ s.receivables) × (u.positions ≡ t.positions)
  unfolding settle_dividend
  settle_dividend_pays action amount s s' t h same =
      let (fresh, _, _, e) = recognize_dividend-eq-ok action amount s s' h in
      let owed : t.receivables ≡ insert action amount s.receivables =
        same ∙ ap (λ x. x.receivables) e in
      let kept = assert_valid_keeps _ in
      (
        ap (λ u. u.cash) kept ∙ rw owed (rw lookup-insert_self refl),
        ap (λ u. u.receivables) kept ∙ rw owed (erase-insert_new action amount s.receivables fresh),
        ap (λ u. u.positions) kept,
      )
