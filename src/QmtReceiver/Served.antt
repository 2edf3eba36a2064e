-- ===== src/QmtReceiver/Served.antt =====
-- The agent's sequence buffer as the agent of the receiver (src/qmt_agent/quote_sequence.py,
-- src/qmt_receiver/receiver.py). The appends of the agent's other threads come from a list: for each request
-- those made before it, and those at each wake-up while it waits.
pub mod Log
pub mod Laws
use fpro_v.Base.{
  ℕ, suc, ◌+◌, ◌≤◌, ◌<◌, ◌≡◌, refl, sym, ap, subst, ◌∙◌, true, false, not, ◌&&◌, ◌==◌, List, [],
  ◌∷◌, ◌++◌, arith, length, Text, Result, ok, if◌then◌else◌, Bool-cases, inl, inr, length-append,
  ltb,
}
use mathlib.Core.List.{append-nil, append_assoc}
use fpro_v.Base.Method.{pure}
use fpro_v.QuoteSequence.Defs.{
  Origin, SequencedQuote, Buffer, Response, append_one, append, append_all, wait_loop, read,
}
use fpro_v.QuoteSequence.Log.{Represents, stamp_all, log_all, append_all-Represents}
use fpro_v.QuoteSequence.Reads.{log_read, read_now-eq-log_read}
use fpro_v.QmtReceiver.Receive.{Platform}
use fpro_v.QmtReceiver.Agent.{Serves}

abbrev pub Appends : Type 0 → Type 0
Appends Q = List (Origin × List (Text × Q))

-- The buffer beside the log of all its quotes, what is still to come, and what the receiver has
-- stored and queued.
pub record World (Q : Type 0) : Type 0 where
  pub buffer : Buffer Q
  pub log : List (SequencedQuote Q)
  pub coming : List (Appends Q × List (Appends Q))
  pub stored : List (SequencedQuote Q)
  pub queued : List (SequencedQuote Q)

module _ {Q : Type 0} where
  -- the log after a wait: `wait_loop` on the log
  abbrev pub wait_log : ℕ → ℕ → List (Appends Q) → List (SequencedQuote Q) → List (SequencedQuote Q)
  wait_log wait_ms seq [] log = log
  wait_log wait_ms seq (calls ∷ wakes) log =
      let rest = wait_log wait_ms seq wakes (log_all calls log) in
      if not (wait_ms == 0) && seq == length log + 1 then rest else log

  abbrev pub request :
      ℕ
      → ℕ
      → ℕ
      → Appends Q
      → List (Appends Q)
      → List (Appends Q × List (Appends Q))
      → World Q
      → Result (Response Q) × World Q
  request seq limit wait_ms calls wakes coming w =
      let (answer, b) = read seq limit wait_ms wakes (append_all calls w.buffer) in
      let log' = log_all calls w.log in
      (
        answer,
        record w {
          buffer = b;
          log = if ltb limit 1 then log' else wait_log wait_ms seq wakes log';
          coming = coming;
        },
      )

  abbrev pub requested :
      ℕ → ℕ → ℕ → List (Appends Q × List (Appends Q)) → World Q → Result (Response Q) × World Q
  requested seq limit wait_ms [] w = request seq limit wait_ms [] [] [] w
  requested seq limit wait_ms ((calls, wakes) ∷ coming) w =
      request seq limit wait_ms calls wakes coming w

  abbrev pub buffer_agent : Platform (World Q) Q (SequencedQuote Q)
  buffer_agent = record {
    quote_sequence = λ seq limit wait_ms w. requested seq limit wait_ms w.coming w;
    append_quotes = λ quotes w. (ok quotes, record w { stored = w.stored ++ quotes });
    compact_realtime = pure tt;
    put = λ quote w. (ok tt, record w { queued = w.queued ++ (quote ∷ []) });
  }

  abbrev pub count_items : Appends Q → ℕ
  count_items [] = 0
  count_items ((_, items) ∷ calls) = length items + count_items calls

  -- before each request the other threads append at most `grows` quotes
  abbrev pub Paced : ℕ → List (Appends Q × List (Appends Q)) → Type 0
  Paced grows [] = Unit
  Paced grows ((calls, _) ∷ coming) = (count_items calls ≤ grows) × Paced grows coming

  pub record IsSound (capacity grows : ℕ) (w : World Q) : Type 0 where
    pub represents : Represents w.buffer w.log
    pub sized : w.buffer.capacity ≡ capacity
    pub paced : Paced grows w.coming
