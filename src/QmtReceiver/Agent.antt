-- ===== src/QmtReceiver/Agent.antt =====
-- What the receiver may rely on in its agent (src/qmt_receiver/receiver.py,
-- src/qmt_agent/quote_sequence.py).
pub mod Returns
pub mod Follows
use native.Mathlib.Nat.{mul_assoc}
use mathlib.Core.List.{append_assoc}
use fpro_v.Base.{
  ℕ, zero, suc, ◌+◌, ◌-◌, ◌*◌, ◌^◌, ◌≤◌, ◌<◌, min, ◌≡◌, refl, sym, ap, subst, ◌∙◌, ◌≢◌, ◌⊎◌, false,
  ◌==◌, Option, some, List, ◌++◌, arith, length, take, drop, Error, sequence_out_of_range, Result,
  ok, raise, Bool-cases, Result-cases, inl, inr, length-append,
}
use fpro_v.QuoteSequence.Defs.{SequencedQuote, Response}
use fpro_v.QuoteSequence.Reads.{log_bounds, log_read, log_read_follows}
use fpro_v.QmtReceiver.Receive.{
  Platform, Receiver, max_ℕ, probe_on, probed, probe, probe_available, fetch_else, fetched, fetch,
}

-- The agent's side of the interface, on the log of all quotes it has taken in: every answer is the
-- one that `log_read` gives of the log as it is then, the log only grows, and by at most `grows`
-- quotes before an answer without a waiting time.
pub record Serves {W Q E : Type 0} (p : Platform W Q E) (IsSound : W → Type 0)
    (log : W → List (SequencedQuote Q)) (capacity grows : ℕ) : Type 0 where
  pub positive : 0 < capacity
  pub keeps :
      (seq limit wait_ms : ℕ) (w : W) → IsSound w → IsSound (p.quote_sequence seq limit wait_ms w).1
  pub answers :
      (seq limit wait_ms : ℕ) (w : W)
      → IsSound w
      → 0 < limit
      → (p.quote_sequence seq limit wait_ms w).0
        ≡ log_read capacity (log (p.quote_sequence seq limit wait_ms w).1) seq limit
  pub extends :
      (seq limit wait_ms : ℕ) (w : W)
      → IsSound w
      → (more : List (SequencedQuote Q)) × (log (p.quote_sequence seq limit wait_ms w).1
          ≡ log w ++ more)
  pub paced :
      (seq limit : ℕ) (w : W)
      → IsSound w
      → length (log (p.quote_sequence seq limit 0 w).1) ≤ length (log w) + grows

-- the refusal that `log_read` gives, and when
module _ {Q : Type 0} where
  refused :
      (capacity : ℕ) (log : List (SequencedQuote Q)) (seq limit : ℕ) (e : Error)
      → log_read capacity log seq limit ≡ raise e
      → (e
          ≡ sequence_out_of_range seq
              (log_bounds capacity (length log)).0
              (log_bounds capacity (length log)).1)
        × (seq ≢ length log + 1)
        × ((length log ≡ 0)
            ⊎ (seq < length log + 1 - min (length log) capacity)
            ⊎ (length log < seq))
  unfolding log_read
  refused capacity log seq limit e h = ground arith

module _ {W Q E : Type 0} (p : Platform W Q E) where
  abbrev pub after : ℕ → ℕ → ℕ → W → W
  after seq limit wait_ms w = (p.quote_sequence seq limit wait_ms w).1

  abbrev pub answer : ℕ → ℕ → ℕ → W → Result (Response Q)
  answer seq limit wait_ms w = (p.quote_sequence seq limit wait_ms w).0

-- the candidate of the next round
abbrev pub next_candidate : {W Q : Type 0} → (W → List (SequencedQuote Q)) → ℕ → ℕ → W → ℕ
next_candidate log capacity offset w =
    min (length (log w)) (length (log w) + 1 - min (length (log w)) capacity + offset)

module _ {W Q E : Type 0} {p : Platform W Q E} {IsSound : W → Type 0}
    {log : W → List (SequencedQuote Q)} {capacity grows : ℕ}
    (serves : Serves p IsSound log capacity grows) where
  pub grown :
      (seq limit wait_ms : ℕ) (w : W)
      → IsSound w
      → length (log w) ≤ length (log (after p seq limit wait_ms w))
  grown seq limit wait_ms w s =
      let (more, e) = serves.extends seq limit wait_ms w s in
      rw e (omega (arith, length-append (log w) more))

  -- a refusal on the log as it is after p the request
  pub refusal :
      (seq limit wait_ms : ℕ) (w : W) (e : Error)
      → IsSound w
      → 0 < limit
      → answer p seq limit wait_ms w ≡ raise e
      → let n = length (log (after p seq limit wait_ms w)) in
        (e ≡ sequence_out_of_range seq (log_bounds capacity n).0 (log_bounds capacity n).1)
        × (seq ≢ n + 1)
        × ((n ≡ 0) ⊎ (seq < n + 1 - min n capacity) ⊎ (n < seq))
  refusal seq limit wait_ms w e s pos h =
      refused capacity (log (after p seq limit wait_ms w)) seq limit e
        (sym (serves.answers seq limit wait_ms w s pos) ∙ h)
