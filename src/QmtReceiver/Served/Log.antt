-- ===== src/QmtReceiver/Served/Log.antt =====
-- The log that the agent's buffer keeps to while requests come (src/qmt_agent/quote_sequence.py).
use fpro_v.Base.{
  ℕ, suc, ◌+◌, ◌≡◌, refl, sym, ap, ◌∙◌, true, false, not, ◌&&◌, ◌==◌, List, [], ◌∷◌, ◌++◌, arith,
  length, Text, Bool-cases, inl, inr, length-append,
}
use mathlib.Core.List.{append-nil, append_assoc}
use fpro_v.QuoteSequence.Defs.{
  Origin, SequencedQuote, Buffer, append_one, append, append_all, wait_loop,
}
use fpro_v.QuoteSequence.Log.{Represents, stamp_all, log_all, append_all-Represents}
use fpro_v.QmtReceiver.Served.{Appends, wait_log, count_items}

module _ {Q : Type 0} where
  length-stamp_all :
      (origin : Origin) (n : ℕ) (items : List (Text × Q))
      → length (stamp_all origin n items) ≡ length items
  length-stamp_all origin n [] = refl
  length-stamp_all origin n (item ∷ items) = omega (arith, length-stamp_all origin (suc n) items)

  pub log_all-extends :
      (calls : Appends Q) (log : List (SequencedQuote Q))
      → (more : List (SequencedQuote Q)) × (log_all calls log ≡ log ++ more)
        × (length more ≡ count_items calls)
  log_all-extends [] log = ([], sym (append-nil log), refl)
  log_all-extends ((origin, items) ∷ calls) log =
      let new = stamp_all origin (suc (length log)) items in
      let (more, e, n) = log_all-extends calls (log ++ new) in
      (
        new ++ more,
        e ∙ append_assoc log new more,
        omega (arith, n, length-append new more, length-stamp_all origin (suc (length log)) items),
      )

  pub wait_log-extends :
      (wait_ms seq : ℕ) (wakes : List (Appends Q)) (log : List (SequencedQuote Q))
      → (more : List (SequencedQuote Q)) × (wait_log wait_ms seq wakes log ≡ log ++ more)
  wait_log-extends wait_ms seq [] log = ([], sym (append-nil log))
  wait_log-extends wait_ms seq (calls ∷ wakes) log =
      elim (Bool-cases (not (wait_ms == 0) && seq == length log + 1)) [
        | inl go ↦
            let (first, e, _) = log_all-extends calls log in
            let (more, e') = wait_log-extends wait_ms seq wakes (log_all calls log) in
            (first ++ more, rw go (e' ∙ ap (λ k. k ++ more) e ∙ append_assoc log first more))
        | inr stop ↦ ([], rw stop (sym (append-nil log)))
      ]

  pub wait_log-Represents :
      (wait_ms seq : ℕ) (wakes : List (Appends Q)) (b : Buffer Q) (log : List (SequencedQuote Q))
      → Represents b log
      → Represents (wait_loop wait_ms seq wakes b) (wait_log wait_ms seq wakes log)
  unfolding wait_loop
  wait_log-Represents wait_ms seq [] b log v = v
  wait_log-Represents wait_ms seq (calls ∷ wakes) b log v =
      elim (Bool-cases (not (wait_ms == 0) && seq == b.next_seq)) [
        | inl go ↦
            let go' : (not (wait_ms == 0) && seq == length log + 1) ≡ true = rw numbered at go in
            rw (go, go')
              (wait_log-Represents wait_ms seq wakes (append_all calls b) (log_all calls log)
                (append_all-Represents calls b log v))
        | inr stop ↦
            let stop' : (not (wait_ms == 0) && seq == length log + 1) ≡ false =
              rw numbered at stop in
            rw (stop, stop') v
      ]
    where
      numbered : b.next_seq ≡ length log + 1
      numbered = omega (arith, v.numbered)

  pub wait_log-now :
      (seq : ℕ) (wakes : List (Appends Q)) (log : List (SequencedQuote Q))
      → wait_log 0 seq wakes log ≡ log
  wait_log-now seq [] log = refl
  wait_log-now seq (calls ∷ wakes) log = refl

  append-capacity :
      (origin : Origin) (items : List (Text × Q)) (b : Buffer Q)
      → (append origin items b).capacity ≡ b.capacity
  unfolding append append_one
  append-capacity origin [] b = refl
  append-capacity origin (item ∷ items) b = append-capacity origin items (append_one origin b item)

  pub append_all-capacity :
      (calls : Appends Q) (b : Buffer Q) → (append_all calls b).capacity ≡ b.capacity
  unfolding append_all
  append_all-capacity [] b = refl
  append_all-capacity ((origin, items) ∷ calls) b =
      append_all-capacity calls (append origin items b) ∙ append-capacity origin items b

  pub wait_loop-capacity :
      (wait_ms seq : ℕ) (wakes : List (Appends Q)) (b : Buffer Q)
      → (wait_loop wait_ms seq wakes b).capacity ≡ b.capacity
  unfolding wait_loop
  wait_loop-capacity wait_ms seq [] b = refl
  wait_loop-capacity wait_ms seq (calls ∷ wakes) b =
      elim (Bool-cases (not (wait_ms == 0) && seq == b.next_seq)) [
        | inl go ↦ rw go (
            wait_loop-capacity wait_ms seq wakes (append_all calls b) ∙ append_all-capacity calls b)
        | inr stop ↦ rw stop refl
      ]
