-- ===== src/Backtest/Broker/Matching/Bars.antt =====
-- What `match_bar` promises (src/backtest/broker.py).
use mathlib.Core.List.{append-nil, append_assoc}
use fpro_v.Base.{
  ℕ, ◌≡◌, refl, sym, ap, ap₂, subst, ◌∙◌, not, List, [], ◌∷◌, ◌++◌, filter, sort, Text, Dict, count,
  count-sort, count-filter, ok, ok-injective, bind-eq-ok, arith,
}
use fpro_v.Base.Host.{Host}
use fpro_v.Base.Method.{continue-eq-ok, ◌>>=◌, pure, modify}
use fpro_v.Backtest.Clock.{Event}
use fpro_v.Backtest.Domain.{Order, OrderUpdate, Fill, Bar, AccountSnapshot}
use fpro_v.MarketData.Identity.{sorted_set}
use fpro_v.Backtest.Broker.State.{Broker, symbols_of}
use fpro_v.Backtest.Broker.State.Accounts.{has_id, ends, IsAccounted, moved-IsAccounted}
use fpro_v.Backtest.Broker.Market.{
  DataView, is_due, comes_first, due_orders, later_orders, market_statuses, previous_volumes,
}
use fpro_v.Backtest.Broker.Matching.{
  Market, Budget, match_order, match_orders, read_market, budget_of, match_due, match_bar,
}
use fpro_v.Backtest.Broker.Matching.Rounds.{
  IsDone, after, match_order-IsDone, Concludes, round, no_round,
}

module _ {F : Type 0} (bars : Dict Text (Bar F)) where
  Concludes-count :
      (n : ℕ) {os : List (Order F)} {us : List (OrderUpdate F)} {fs : List (Fill F)}
      → Concludes bars os us fs
      → count (ends n) us ≡ count (has_id n) os
  unfolding IsDone
  Concludes-count n no_round = refl
  Concludes-count n (round {o} {u = u} _ (same, final, _) more) =
      rw (same, final) (omega (arith, Concludes-count n more))

module _ {F : Type 0} ⦃host : Host F⦄ where
  match_orders-Concludes :
      (m : Market F) (budget : Budget F) (orders : List (Order F)) (b b' : Broker F)
      (new : List (Fill F))
      → match_orders m budget orders b ≡ (ok new, b')
      → (us : List (OrderUpdate F)) × (k : ℕ) × (b' ≡ after b us k) × Concludes m.bars orders us new
  unfolding match_orders
  match_orders-Concludes m budget [] b b' new h =
      let nothing : [] ≡ new = cc in
      (
        [],
        b.next_fill_id,
        sym (ap (λ x. x.1) h) ∙ ap (λ us. record b { updates = us }) (sym (append-nil b.updates)),
        subst (λ fs. Concludes m.bars [] [] fs) nothing no_round,
      )
  match_orders-Concludes m budget (order ∷ orders) b b' new h =
      let s = (match_order m budget order b).1 in
      let ((budget', first), e, h') =
        continue-eq-ok (match_order m budget order b).0
          (λ (budget', first). match_orders m budget' orders >>= λ rest. pure (first ++ rest)) s
          h in
      let (u, k, moved, done) =
        match_order-IsDone m budget budget' order b s first (ap (λ r. (r, s)) e) in
      let t = (match_orders m budget' orders s).1 in
      let (rest, e', h'') =
        continue-eq-ok (match_orders m budget' orders s).0 (λ rest. pure (first ++ rest)) t h' in
      let (us, k', moved', more) =
        match_orders-Concludes m budget' orders s t rest (ap (λ r. (r, t)) e') in
      let joined : first ++ rest ≡ new = cc in
      (
        u ∷ us,
        k',
        sym (ap (λ x. x.1) h'')
            ∙ moved'
            ∙ ap (λ c. after c us k') moved
            ∙ ap (λ l. record b { updates = l; next_fill_id = k' })
                (append_assoc b.updates (u ∷ []) us),
        subst (λ fs. Concludes m.bars (order ∷ orders) (u ∷ us) fs) joined (round first done more),
      )

  -- the new fills at the end of the rounds
  record_fills :
      (b s : Broker F) (us : List (OrderUpdate F)) (k : ℕ) (fs new : List (Fill F))
      → s ≡ after b us k
      → fs ≡ new
      → record s { fills = s.fills ++ fs } ≡ record (after b us k) { fills = b.fills ++ new }
  record_fills b s us k fs new e f = ap₂ (λ (c : Broker F) l. record c { fills = c.fills ++ l }) e f

  -- what is read of the market keeps the bars
  read_market-bars :
      (event : Event) (bars : Dict Text (Bar F)) (view : DataView F) (orders : List (Order F))
      (b : Broker F) (m : Market F)
      → read_market event bars view orders b ≡ ok m
      → m.bars ≡ bars
  unfolding read_market
  read_market-bars event bars view orders b m h =
      let (cs, _, h₁) = bind-eq-ok (symbols_of b.identities event.session orders) _ h in
      let (statuses, _, h₂) = bind-eq-ok (market_statuses view (sorted_set cs)) _ h₁ in
      let (volumes, _, h₃) =
        bind-eq-ok
          (previous_volumes b.config view (sorted_set cs) event.frequency event.interval_start) _
          h₂ in
      sym (ap (λ (x : Market F). x.bars) (ok-injective h₃))

  match_due-Concludes :
      (event : Event) (bars : Dict Text (Bar F)) (account : AccountSnapshot F) (view : DataView F)
      (orders : List (Order F)) (b b' : Broker F) (new : List (Fill F))
      → match_due event bars account view orders b ≡ (ok new, b')
      → (us : List (OrderUpdate F)) × (k : ℕ) × (b'
          ≡ record (after b us k) { fills = b.fills ++ new })
        × Concludes bars orders us new
  unfolding match_due
  match_due-Concludes event bars account view [] b b' new h =
      let nothing : [] ≡ new = cc in
      (
        [],
        b.next_fill_id,
        sym (ap (λ x. x.1) h)
            ∙ ap₂ (λ us fs. record b { updates = us; fills = fs }) (sym (append-nil b.updates))
                (sym (append-nil b.fills) ∙ ap (λ fs. b.fills ++ fs) nothing),
        subst (λ fs. Concludes bars [] [] fs) nothing no_round,
      )
  match_due-Concludes event bars account view (o ∷ os) b b' new h =
      let (m, market, h') =
        continue-eq-ok (read_market event bars view (o ∷ os) b)
          (λ m. match_orders m (budget_of account) (o ∷ os) >>= λ new.
            modify (λ b. record b { fills = b.fills ++ new }) >>= λ _. pure new)
          b h in
      let s = (match_orders m (budget_of account) (o ∷ os) b).1 in
      let (fs, e, h'') =
        continue-eq-ok (match_orders m (budget_of account) (o ∷ os) b).0
          (λ new. modify (λ b. record b { fills = b.fills ++ new }) >>= λ _. pure new) s h' in
      let (us, k, moved, rounds) =
        match_orders-Concludes m (budget_of account) (o ∷ os) b s fs (ap (λ r. (r, s)) e) in
      let all_new : fs ≡ new = ok-injective (ap (λ x. x.0) h'') in
      (
        us,
        k,
        sym (ap (λ x. x.1) h'') ∙ record_fills b s us k fs new moved all_new,
        subst (λ l. Concludes bars (o ∷ os) us l) all_new
            (subst (λ d. Concludes d (o ∷ os) us fs)
              (read_market-bars event bars view (o ∷ os) b m market) rounds),
      )

  -- a bar that is matched to its end keeps the accounts of the orders
  pub match_bar-IsAccounted :
      (event : Event) (bars : Dict Text (Bar F)) (account : AccountSnapshot F) (view : DataView F)
      (b b' : Broker F) (new : List (Fill F))
      → IsAccounted b
      → match_bar event bars account view b ≡ (ok new, b')
      → IsAccounted b'
  unfolding match_bar due_orders later_orders
  match_bar-IsAccounted event bars account view b b' new h e =
      let due = sort (λ y x. comes_first y x) (filter (is_due event) b.pending) in
      let later = filter (λ o. not (is_due event o)) b.pending in
      let (us, k, moved, rounds) =
        match_due-Concludes event bars account view due (record b { pending = later }) b' new e in
      let kept =
        moved-IsAccounted b later us
          (λ n. omega (
            arith,
            Concludes-count bars n rounds,
            count-sort (has_id n) (λ y x. comes_first y x) (filter (is_due event) b.pending),
            count-filter (has_id n) (is_due event) b.pending,
          ))
          h in
      subst IsAccounted (sym moved)
        (record { balance = kept.balance; unique = kept.unique; fresh = kept.fresh })
