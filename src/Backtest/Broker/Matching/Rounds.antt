-- ===== src/Backtest/Broker/Matching/Rounds.antt =====
-- What the loop of `match_bar` does to each order (src/backtest/broker.py).
use fpro_v.Base.{
  ℕ, suc, ◌≡◌, ◌≢◌, ◌↔◌, refl, sym, ap, ◌⊎◌, inl, inr, true, Option, none, some, List, [], ◌∷◌,
  ◌++◌, Bool-cases, Text, text_eq, ok, arith, lookup, Dict,
}
use fpro_v.Base.Int.{ℤ, pos, ◌≤ℤ◌, ◌<ℤ◌, eqb_ℤ}
use fpro_v.Base.Host.{Host}
use fpro_v.Base.Method.{continue-eq-ok, ◌>>=◌, reads}
use fpro_v.Backtest.Domain.{Side, OrderStatus, OrderReason, Order, OrderUpdate, Fill, Bar}
use fpro_v.Backtest.Broker.Execution.{Execution, make_fill, open_of}
use fpro_v.Backtest.Broker.Execution.Gates.{executable_quantity-IsExecutable, IsWithin}
use fpro_v.Backtest.Broker.State.{Broker, update_of, trading_symbol}
use fpro_v.Backtest.Broker.State.Accounts.{is_final}
use fpro_v.Backtest.Broker.Market.{status_after}
use fpro_v.Backtest.Broker.Matching.{Market, Budget, assess, execute, leave, conclude, match_order}

within_bounds :
    (side : Side) (quantity sellable n : ℤ)
    → n ≢ pos 0
    → IsWithin side quantity sellable n
    → (pos 0 <ℤ n) × (n ≤ℤ quantity)
unfolding IsWithin
within_bounds Side.buy quantity sellable n h w = ground arith
within_bounds Side.sell quantity sellable n h w = ground arith

module _ {F : Type 0} where
  -- A fill that belongs to an order, made of a bar: at its start and its opening price.
  pub record Fills (bars : Dict Text (Bar F)) (order : Order F) (f : Fill F) : Type 0 where
    pub same_id : f.order_id ≡ order.order_id
    pub same_side : f.side ≡ order.side
    pub same_sid : f.sid ≡ order.sid
    pub some_shares : pos 0 <ℤ f.quantity
    pub at_most : f.quantity ≤ℤ order.quantity
    pub at_open :
        (bar : Bar F) × (lookup f.symbol bars ≡ some bar)
        × (f.filled_at ≡ bar.interval_start)
        × (bar.open_price ≡ some f.market_price)

  -- The end of an order: one closing update, which tells what was filled.
  unfoldable pub IsDone : Dict Text (Bar F) → Order F → OrderUpdate F → List (Fill F) → Type 0
  IsDone bars order u new =
      (u.order ≡ order)
      × (is_final u.status ≡ true)
      × (((new ≡ []) × (u.status ≡ OrderStatus.not_filled) × (u.filled_quantity ≡ pos 0))
          ⊎ ((f : Fill F) × (new ≡ f ∷ [])
              × Fills bars order f
              × (u.filled_quantity ≡ f.quantity)
              × ((u.status ≡ OrderStatus.filled) ↔ (f.quantity ≡ order.quantity))))

  -- a broker after some rounds
  abbrev pub after : Broker F → List (OrderUpdate F) → ℕ → Broker F
  after b new k = record b { updates = b.updates ++ new; next_fill_id = k }

  status_after_lem :
      (order : Order F) (q : ℤ)
      → (is_final (status_after order q) ≡ true)
        × ((status_after order q ≡ OrderStatus.filled) ↔ (q ≡ order.quantity))
  status_after_lem order q = ground arith

module _ {F : Type 0} ⦃host : Host F⦄ where
  execute-IsDone :
      (m : Market F) (budget budget' : Budget F) (order : Order F) (symbol : Text) (q : ℤ)
      (r : OrderReason) (price : F) (bar : Option (Bar F)) (p : Option F) (b b' : Broker F)
      (new : List (Fill F))
      → lookup symbol m.bars ≡ bar
      → open_of bar ≡ p
      → pos 0 <ℤ q
      → q ≤ℤ order.quantity
      → execute m budget order symbol q r price bar p b ≡ (ok (budget', new), b')
      → (u : OrderUpdate F) × (k : ℕ) × (b' ≡ after b (u ∷ []) k) × IsDone m.bars order u new
  unfolding execute make_fill IsDone
  execute-IsDone m budget budget' order symbol q r price (some bar) (some p) b b' new read opened
        low high h =
      let f =
        make_fill b.config b.next_fill_id (record order { symbol = symbol }) bar.interval_start q p
          price in
      let (final, whole) = status_after_lem order q in
      let made : new ≡ f ∷ [] = cc in
      (
        update_of (status_after order q) bar.interval_start q r order,
        suc b.next_fill_id,
        sym (ap (λ x. x.1) h),
        (
          refl,
          final,
          inr (
            f,
            made,
            record {
              same_id = refl;
              same_side = refl;
              same_sid = refl;
              some_shares = low;
              at_most = high;
              at_open = (bar, read, refl, opened);
            },
            refl,
            whole,
          ),
        ),
      )
  execute-IsDone m budget budget' order symbol q r price none p b b' new read opened low high h = cc
  execute-IsDone m budget budget' order symbol q r price (some bar) none b b' new read opened low
        high h =
      cc

  leave-IsDone :
      (m : Market F) (budget budget' : Budget F) (order : Order F) (r : OrderReason)
      (b b' : Broker F) (new : List (Fill F))
      → leave m budget order r b ≡ (ok (budget', new), b')
      → (u : OrderUpdate F) × (k : ℕ) × (b' ≡ after b (u ∷ []) k) × IsDone m.bars order u new
  unfolding leave IsDone
  leave-IsDone m budget budget' order r b b' new h = (
    update_of OrderStatus.not_filled m.event.at (pos 0) r order,
    b.next_fill_id,
    sym (ap (λ x. x.1) h),
    (refl, refl, inl (cc, refl, refl)),
  )

  conclude-IsDone :
      (m : Market F) (budget budget' : Budget F) (order : Order F) (symbol : Text) (q : ℤ)
      (r : OrderReason) (price : Option F) (b b' : Broker F) (new : List (Fill F))
      → (q ≢ pos 0 → (pos 0 <ℤ q) × (q ≤ℤ order.quantity))
      → conclude m budget order symbol q r price b ≡ (ok (budget', new), b')
      → (u : OrderUpdate F) × (k : ℕ) × (b' ≡ after b (u ∷ []) k) × IsDone m.bars order u new
  unfolding conclude
  conclude-IsDone m budget budget' order symbol q r none b b' new fits h =
      leave-IsDone m budget budget' order r b b' new h
  conclude-IsDone m budget budget' order symbol q r (some price) b b' new fits h =
      elim (Bool-cases (eqb_ℤ q (pos 0))) [
        | inl e ↦ leave-IsDone m budget budget' order r b b' new (rw e at h)
        | inr e ↦
            let (low, high) = fits (ground arith) in
            execute-IsDone m budget budget' order symbol q r price (lookup symbol m.bars)
              (open_of (lookup symbol m.bars)) b b' new refl refl low high (rw e at h)
      ]

  -- the quantity of an execution is bounded by the order
  assess-IsWithin :
      (b : Broker F) (m : Market F) (budget : Budget F) (order : Order F) (symbol : Text)
      (e : Execution F)
      → assess b.config m budget order symbol ≡ ok e
      → e.quantity ≢ pos 0
      → (pos 0 <ℤ e.quantity) × (e.quantity ≤ℤ order.quantity)
  unfolding assess
  assess-IsWithin b m budget order symbol e h some_shares =
      within_bounds order.side order.quantity _ e.quantity some_shares
        (executable_quantity-IsExecutable _ _ _ _ _ _ _ _ e h some_shares).within

  pub match_order-IsDone :
      (m : Market F) (budget budget' : Budget F) (order : Order F) (b b' : Broker F)
      (new : List (Fill F))
      → match_order m budget order b ≡ (ok (budget', new), b')
      → (u : OrderUpdate F) × (k : ℕ) × (b' ≡ after b (u ∷ []) k) × IsDone m.bars order u new
  unfolding match_order
  match_order-IsDone m budget budget' order b b' new h =
      let (symbol, traded, h') =
        continue-eq-ok (trading_symbol b.identities order m.event.session)
          (λ symbol. reads (λ b. assess b.config m budget order symbol) >>= λ e.
            conclude m budget order symbol e.quantity e.reason e.price)
          b h in
      let (e, assessed, done) =
        continue-eq-ok (assess b.config m budget order symbol)
          (λ e. conclude m budget order symbol e.quantity e.reason e.price) b h' in
      conclude-IsDone m budget budget' order symbol e.quantity e.reason e.price b b' new
        (assess-IsWithin b m budget order symbol e assessed) done

-- The rounds of the loop: one closing update for each order, and the fills in the same order.
pub data Concludes {F : Type 0} (bars : Dict Text (Bar F))
    : List (Order F) → List (OrderUpdate F) → List (Fill F) → Type 0 where
  no_round : Concludes bars [] [] []
  round :
      {o : Order F} {os : List (Order F)} {u : OrderUpdate F} {us : List (OrderUpdate F)}
      {rest : List (Fill F)} (new : List (Fill F))
      → IsDone bars o u new
      → Concludes bars os us rest
      → Concludes bars (o ∷ os) (u ∷ us) (new ++ rest)
