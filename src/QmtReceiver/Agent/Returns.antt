-- ===== src/QmtReceiver/Agent/Returns.antt =====
-- The probing ends, if the agent is not too fast (src/qmt_receiver/receiver.py).
use native.Mathlib.Nat.{mul_assoc}
use fpro_v.Base.{
  ℕ, zero, suc, ◌+◌, ◌*◌, ◌^◌, ◌≤◌, ◌<◌, ◌≡◌, refl, sym, ap, subst, ◌∙◌, ◌==◌, Option, some, List,
  arith, length, Result, ok, Bool-cases, Result-cases, inl, inr,
}
use fpro_v.QuoteSequence.Defs.{SequencedQuote, Response}
use fpro_v.QmtReceiver.Receive.{
  Platform, Receiver, probe_on, probed, probe, probe_available, fetch_else, fetched, fetch,
}
use fpro_v.QmtReceiver.Agent.{Serves, after, answer, next_candidate, grown, refusal}

abbrev Returns : {A : Type 0} → Option A → Type 0
Returns {A = A} m = (a : A) × (m ≡ some a)

module _ {W Q E : Type 0} {p : Platform W Q E} {IsSound : W → Type 0}
    {log : W → List (SequencedQuote Q)} {capacity grows : ℕ}
    (serves : Serves p IsSound log capacity grows) where
  -- the round after p a refusal serves whose offset is as much as the log grows
  far_enough :
      (offset limit : ℕ) (w : W)
      → IsSound w
      → 0 < limit
      → 0 < length (log w)
      → grows ≤ offset
      → grows < capacity
      → (payload : Response Q) × (answer p (next_candidate log capacity offset w) limit 0 w
          ≡ ok payload)
  far_enough offset limit w s pos some_log far slow =
      elim (Result-cases (answer p (next_candidate log capacity offset w) limit 0 w)) [
        | inl (e, h) ↦
            let (_, _, why) =
              refusal serves (next_candidate log capacity offset w) limit 0 w e s pos h in
            absurd (
              omega (
                arith,
                why,
                serves.paced (next_candidate log capacity offset w) limit w s,
                grown serves (next_candidate log capacity offset w) limit 0 w s,
              ))
        | inr (payload, h) ↦ (payload, h)
      ]

  -- A round returns if the next one does.
  round-Returns :
      (rest : ℕ → W → Option (Result (Option (Response Q) × ℕ) × W))
      (offset probes candidate limit : ℕ) (w : W)
      → IsSound w
      → 0 < limit
      → (0 < length (log (after p candidate limit 0 w))
          → Returns (
              rest
                (next_candidate log capacity offset (after p candidate limit 0 w))
                (after p candidate limit 0 w)))
      → Returns
          (probed p rest offset probes (answer p candidate limit 0 w) (after p candidate limit 0 w))
  unfolding probed probe_on
  round-Returns rest offset probes candidate limit w s pos on =
      elim (Result-cases (answer p candidate limit 0 w)) [
        | inr (payload, h) ↦ rw h (_, refl)
        | inl (e, h) ↦
            let (is_e, _, _) = refusal serves candidate limit 0 w e s pos h in
            rw (h, is_e)
              (elim (Bool-cases (length (log (after p candidate limit 0 w)) == 0)) [
                | inl empty ↦ rw empty (_, refl)
                | inr full ↦ rw full (on (ground arith))
              ])
      ]

  probe-Returns :
      (n limit offset probes candidate : ℕ) (w : W)
      → IsSound w
      → 0 < limit
      → grows < capacity
      → grows ≤ offset * 2 ^ n
      → Returns (probe p (suc (suc n)) limit offset probes candidate w)
  unfolding probe probed
  probe-Returns zero limit offset probes candidate w s pos slow far =
      round-Returns _ offset (suc probes) candidate limit w s pos (λ some_log.
        let w' = after p candidate limit 0 w in
        let (payload, h) =
          far_enough offset limit w' (serves.keeps candidate limit 0 w s) pos some_log
            (omega (arith, far)) slow in
        rw h (_, refl))
  probe-Returns (suc n) limit offset probes candidate w s pos slow far =
      round-Returns _ offset (suc probes) candidate limit w s pos (λ some_log.
        probe-Returns n limit (offset * 2) (suc probes) _ (after p candidate limit 0 w)
          (serves.keeps candidate limit 0 w s) pos slow
          (subst (λ k. grows ≤ k)
            (ap (λ k. offset * k) {x = 2 ^ suc n} {y = 2 * 2 ^ n} (omega arith)
              ∙ sym (mul_assoc offset 2 (2 ^ n)))
            far))

  -- Of an agent that serves the log and takes in at most `grows` quotes before an answer p without a
  -- waiting time, fewer than its capacity: from a sound state and with a positive batch size, a
  -- fetch ends after p at most `n + 2` probes, if `2 ^ n` is at least `grows`.
  pub fetch-Returns :
      (n : ℕ) (r : Receiver) (w : W)
      → IsSound w
      → 0 < r.batch_size
      → grows < capacity
      → grows ≤ 2 ^ n
      → (end : Result (Option (Response Q) × ℕ) × W) × (fetch p (suc (suc n)) r w ≡ some end)
  unfolding fetch fetched fetch_else probe_available
  fetch-Returns n r w s pos slow far =
      elim (Result-cases (answer p r.next_seq r.batch_size r.timeout_ms w)) [
        | inr (payload, h) ↦ rw h (_, refl)
        | inl (e, h) ↦
            let w' = after p r.next_seq r.batch_size r.timeout_ms w in
            let (is_e, _, _) = refusal serves r.next_seq r.batch_size r.timeout_ms w e s pos h in
            rw (h, is_e)
              (elim (Bool-cases (length (log w') == 0)) [
                | inl empty ↦ rw empty (_, refl)
                | inr full ↦ rw full (elim (Bool-cases (r.next_seq == length (log w') + 1)) [
                  | inl caught_up ↦ rw caught_up (_, refl)
                  | inr late ↦ rw late (
                      probe-Returns n r.batch_size 1 0 _ w'
                        (serves.keeps r.next_seq r.batch_size r.timeout_ms w s) pos slow
                        (omega arith))
                ])
              ])
      ]
