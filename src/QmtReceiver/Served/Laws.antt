-- ===== src/QmtReceiver/Served/Laws.antt =====
-- The agent with the sequence buffer fills the interface of the receiver
-- (src/qmt_agent/quote_sequence.py, src/qmt_receiver/receiver.py).
use fpro_v.Base.{
  ℕ, ◌+◌, ◌≤◌, ◌<◌, ◌≡◌, ap, subst, ◌∙◌, false, List, [], ◌∷◌, ◌++◌, arith, length, Bool-cases, inl,
  inr, length-append, ltb,
}
use mathlib.Core.List.{append_assoc}
use fpro_v.QuoteSequence.Defs.{SequencedQuote, append_all, wait_loop, read}
use fpro_v.QuoteSequence.Log.{log_all, append_all-Represents}
use fpro_v.QuoteSequence.Reads.{log_read, read_now-eq-log_read}
use fpro_v.QmtReceiver.Agent.{Serves}
use fpro_v.QmtReceiver.Served.{
  Appends, World, wait_log, request, requested, buffer_agent, count_items, Paced, IsSound,
}
use fpro_v.QmtReceiver.Served.Log.{
  log_all-extends, wait_log-extends, wait_log-Represents, wait_log-now, append_all-capacity,
  wait_loop-capacity,
}

module _ {Q : Type 0} where
  module _ (capacity grows : ℕ) where
    request-IsSound :
        (seq limit wait_ms : ℕ) (calls : Appends Q) (wakes : List (Appends Q))
        (coming : List (Appends Q × List (Appends Q))) (w : World Q)
        → IsSound capacity grows w
        → Paced grows coming
        → IsSound capacity grows (request seq limit wait_ms calls wakes coming w).1
    unfolding read
    request-IsSound seq limit wait_ms calls wakes coming w s slow =
        elim (Bool-cases (ltb limit 1)) [
          | inl none_asked ↦ rw none_asked (record {
            represents = append_all-Represents calls w.buffer w.log s.represents;
            sized = append_all-capacity calls w.buffer ∙ s.sized;
            paced = slow;
          })
          | inr asked ↦ rw asked (record {
            represents =
                wait_log-Represents wait_ms seq wakes _ _
                  (append_all-Represents calls w.buffer w.log s.represents);
            sized =
                wait_loop-capacity wait_ms seq wakes (append_all calls w.buffer)
                ∙ append_all-capacity calls w.buffer
                ∙ s.sized;
            paced = slow;
          })
        ]

    request-answers :
        (seq limit wait_ms : ℕ) (calls : Appends Q) (wakes : List (Appends Q))
        (coming : List (Appends Q × List (Appends Q))) (w : World Q)
        → IsSound capacity grows w
        → Paced grows coming
        → 0 < limit
        → (request seq limit wait_ms calls wakes coming w).0
          ≡ log_read capacity (request seq limit wait_ms calls wakes coming w).1.log seq limit
    unfolding read
    request-answers seq limit wait_ms calls wakes coming w s slow pos =
        let asked : ltb limit 1 ≡ false = ground arith in
        let now = request-IsSound seq limit wait_ms calls wakes coming w s slow in
        subst
          (λ c.
            (request seq limit wait_ms calls wakes coming w).0
            ≡ log_read c (request seq limit wait_ms calls wakes coming w).1.log seq limit)
          now.sized
          (rw asked (
            read_now-eq-log_read (wait_loop wait_ms seq wakes (append_all calls w.buffer))
              (wait_log wait_ms seq wakes (log_all calls w.log)) seq limit
              (wait_log-Represents wait_ms seq wakes _ _
                (append_all-Represents calls w.buffer w.log s.represents))
              pos))

    request-extends :
        (seq limit wait_ms : ℕ) (calls : Appends Q) (wakes : List (Appends Q))
        (coming : List (Appends Q × List (Appends Q))) (w : World Q)
        → (more : List (SequencedQuote Q)) × ((request seq limit wait_ms calls wakes coming w).1.log
            ≡ w.log ++ more)
    request-extends seq limit wait_ms calls wakes coming w =
        let (first, e, _) = log_all-extends calls w.log in
        elim (Bool-cases (ltb limit 1)) [
          | inl none_asked ↦ (first, rw none_asked e)
          | inr asked ↦
              let (more, e') = wait_log-extends wait_ms seq wakes (log_all calls w.log) in
              (first ++ more, rw asked (e' ∙ ap (λ k. k ++ more) e ∙ append_assoc w.log first more))
        ]

    request_pace :
        (seq limit : ℕ) (calls : Appends Q) (wakes : List (Appends Q))
        (coming : List (Appends Q × List (Appends Q))) (w : World Q)
        → count_items calls ≤ grows
        → length (request seq limit 0 calls wakes coming w).1.log ≤ length w.log + grows
    request_pace seq limit calls wakes coming w few =
        let (more, e, n) = log_all-extends calls w.log in
        let here : (request seq limit 0 calls wakes coming w).1.log ≡ log_all calls w.log =
          ground (arith, wait_log-now seq wakes (log_all calls w.log)) in
        rw (here, e) (omega (arith, n, few, length-append w.log more))

    requested-IsSound :
        (seq limit wait_ms : ℕ) (coming : List (Appends Q × List (Appends Q))) (w : World Q)
        → IsSound capacity grows w
        → Paced grows coming
        → IsSound capacity grows (requested seq limit wait_ms coming w).1
    requested-IsSound seq limit wait_ms [] w s slow =
        request-IsSound seq limit wait_ms [] [] [] w s slow
    requested-IsSound seq limit wait_ms ((calls, wakes) ∷ coming) w s slow =
        request-IsSound seq limit wait_ms calls wakes coming w s slow.1

    requested-answers :
        (seq limit wait_ms : ℕ) (coming : List (Appends Q × List (Appends Q))) (w : World Q)
        → IsSound capacity grows w
        → Paced grows coming
        → 0 < limit
        → (requested seq limit wait_ms coming w).0
          ≡ log_read capacity (requested seq limit wait_ms coming w).1.log seq limit
    requested-answers seq limit wait_ms [] w s slow pos =
        request-answers seq limit wait_ms [] [] [] w s slow pos
    requested-answers seq limit wait_ms ((calls, wakes) ∷ coming) w s slow pos =
        request-answers seq limit wait_ms calls wakes coming w s slow.1 pos

    requested-extends :
        (seq limit wait_ms : ℕ) (coming : List (Appends Q × List (Appends Q))) (w : World Q)
        → (more : List (SequencedQuote Q)) × ((requested seq limit wait_ms coming w).1.log
            ≡ w.log ++ more)
    requested-extends seq limit wait_ms [] w = request-extends seq limit wait_ms [] [] [] w
    requested-extends seq limit wait_ms ((calls, wakes) ∷ coming) w =
        request-extends seq limit wait_ms calls wakes coming w

    requested_pace :
        (seq limit : ℕ) (coming : List (Appends Q × List (Appends Q))) (w : World Q)
        → Paced grows coming
        → length (requested seq limit 0 coming w).1.log ≤ length w.log + grows
    requested_pace seq limit [] w slow = request_pace seq limit [] [] [] w (omega arith)
    requested_pace seq limit ((calls, wakes) ∷ coming) w slow =
        request_pace seq limit calls wakes coming w slow.0

  -- The agent with the sequence buffer serves the log of all quotes: it keeps the buffer true to
  -- the log, answers every request as `log_read` says of the log at the answer, never loses a
  -- quote of the log, and takes in at most `grows` quotes before an answer without a waiting time.
  -- The capacity is positive, and the appends before each request have at most `grows` quotes.
  pub buffer_agent-Serves :
      (capacity grows : ℕ)
      → 0 < capacity
      → Serves (buffer_agent {Q = Q}) (IsSound capacity grows) (λ w. w.log) capacity grows
  buffer_agent-Serves capacity grows pos = record {
    positive = pos;
    keeps = λ seq limit wait_ms w s.
        requested-IsSound capacity grows seq limit wait_ms w.coming w s s.paced;
    answers = λ seq limit wait_ms w s.
        requested-answers capacity grows seq limit wait_ms w.coming w s s.paced;
    extends =
        λ seq limit wait_ms w s. requested-extends capacity grows seq limit wait_ms w.coming w;
    paced = λ seq limit w s. requested_pace capacity grows seq limit w.coming w s.paced;
  }
