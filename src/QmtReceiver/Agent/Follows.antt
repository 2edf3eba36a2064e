-- ===== src/QmtReceiver/Agent/Follows.antt =====
-- What a fetch brings, against the log of the agent (src/qmt_receiver/receiver.py).
use mathlib.Core.List.{append_assoc}
use fpro_v.Base.{
  ℕ, zero, suc, ◌+◌, ◌-◌, ◌*◌, ◌^◌, ◌≤◌, ◌<◌, min, ◌≡◌, refl, sym, ap, subst, ◌∙◌, ◌⊎◌, false, ◌==◌,
  some, List, ◌++◌, arith, length, take, drop, ok, Result-cases, inl, inr,
}
use fpro_v.QuoteSequence.Defs.{SequencedQuote, Response}
use fpro_v.QuoteSequence.Reads.{log_read_follows}
use fpro_v.QmtReceiver.Receive.{
  Platform, Receiver, max_ℕ, probe_on, probed, probe, probe_available, fetch_else, fetched, fetch,
}
use fpro_v.QmtReceiver.Agent.{Serves, after, answer, next_candidate, grown, refusal}

module _ {W Q E : Type 0} {p : Platform W Q E} {IsSound : W → Type 0}
    {log : W → List (SequencedQuote Q)} {capacity grows : ℕ}
    (serves : Serves p IsSound log capacity grows) where
  -- where a receiver may stand: at a quote of the log, or at the next one
  unfoldable pub IsPlaced : Receiver → W → Type 0
  IsPlaced r w =
      IsSound w × (0 < r.next_seq) × (r.next_seq ≤ length (log w) + 1) × (0 < r.batch_size)

  -- the first number that an agent in a world still keeps
  abbrev pub oldest_in : W → ℕ
  oldest_in w = length (log w) + 1 - min (length (log w)) capacity

  -- A payload that goes on from `requested`: the log's quotes from the number it tells. That is past
  -- `requested` only if that quote was evicted, and it is then close to the first one that is kept.
  pub record Follows (requested probes : ℕ) (w : W) (payload : Response Q) (w' : W) : Type 0 where
    pub quotes : payload.quotes ≡ take payload.count (drop (payload.requested_seq - 1) (log w'))
    pub passed : payload.next_seq ≡ payload.requested_seq + payload.count
    pub within : payload.next_seq ≤ length (log w') + 1
    pub forward : requested ≤ payload.requested_seq
    pub evicted : (payload.requested_seq ≡ requested) ⊎ (requested + capacity ≤ length (log w'))
    pub near :
        (payload.requested_seq ≡ requested)
        ⊎ (4 * payload.requested_seq ≤ 4 * oldest_in w' + 2 ^ probes)
    pub sound : IsSound w'
    pub kept : (more : List (SequencedQuote Q)) × (log w' ≡ log w ++ more)

  -- the payload of a request whose answer p is the log's
  payload-Follows :
      (requested probes seq limit wait_ms : ℕ) (w : W) (payload : Response Q)
      → IsSound w
      → 0 < limit
      → 0 < seq
      → requested ≤ seq
      → (seq ≡ requested) ⊎ (requested + capacity ≤ length (log (after p seq limit wait_ms w)))
      → (seq ≡ requested) ⊎ (4 * seq ≤ 4 * oldest_in (after p seq limit wait_ms w) + 2 ^ probes)
      → answer p seq limit wait_ms w ≡ ok payload
      → Follows requested probes w payload (after p seq limit wait_ms w)
  payload-Follows requested probes seq limit wait_ms w payload s pos from on gone close h =
      let (is_seq, quotes, passed, within) =
        log_read_follows capacity (log (after p seq limit wait_ms w)) seq limit payload from
          (sym (serves.answers seq limit wait_ms w s pos) ∙ h) in
      record {
        quotes = rw is_seq quotes;
        passed = rw is_seq passed;
        within = within;
        forward = rw is_seq on;
        evicted = rw is_seq gone;
        near = rw is_seq close;
        sound = serves.keeps seq limit wait_ms w s;
        kept = serves.extends seq limit wait_ms w s;
      }

  -- a fetch that begins with a request and goes on from its world
  later-Follows :
      (requested probes seq limit wait_ms : ℕ) (w w' : W) (payload : Response Q)
      → IsSound w
      → Follows requested probes (after p seq limit wait_ms w) payload w'
      → Follows requested probes w payload w'
  later-Follows requested probes seq limit wait_ms w w' payload s f = record {
    quotes = f.quotes;
    passed = f.passed;
    within = f.within;
    forward = f.forward;
    evicted = f.evicted;
    near = f.near;
    sound = f.sound;
    kept =
        let (first, e) = serves.extends seq limit wait_ms w s in
        let (more, e') = f.kept in
        (first ++ more, e' ∙ ap (λ k. k ++ more) e ∙ append_assoc (log w) first more);
  }

  probe-Follows :
      (fuel limit offset probes candidate requested : ℕ) (w w' : W) (payload : Response Q)
      (probes' : ℕ)
      → IsSound w
      → 0 < limit
      → 0 < requested
      → requested ≤ candidate
      → requested + capacity ≤ length (log w)
      → 2 * candidate ≤ 2 * oldest_in w + offset
      → offset ≡ 2 ^ probes
      → probe p fuel limit offset probes candidate w ≡ some (ok (some payload, probes'), w')
      → Follows requested probes' w payload w'
  unfolding probe probed probe_on
  probe-Follows zero limit offset probes candidate requested w w' payload probes' s pos from on gone
        close doubled h =
      cc
  probe-Follows (suc fuel) limit offset probes candidate requested w w' payload probes' s pos from
        on gone close doubled h =
      elim (Result-cases (answer p candidate limit 0 w)) [
        | inr (found, e) ↦
            let h' : probed p (probe p fuel limit (offset * 2) (suc probes)) offset (suc probes)
                  (ok found) (after p candidate limit 0 w)
                ≡ some (ok (some payload, probes'), w') =
              rw e at h in
            let same : found ≡ payload = cc in
            let there : after p candidate limit 0 w ≡ w' = cc in
            let counted : suc probes ≡ probes' = cc in
            subst (λ n. Follows requested n w payload w') counted
              (subst (Follows requested (suc probes) w payload) there (
                payload-Follows requested (suc probes) candidate limit 0 w payload s pos
                  (omega arith) on (inr (omega (arith, grown serves candidate limit 0 w s)))
                  (inr (omega (arith, grown serves candidate limit 0 w s, doubled)))
                  (e ∙ ap ok same)))
        | inl (err, e) ↦
            let w₁ = after p candidate limit 0 w in
            let (is_e, _, _) = refusal serves candidate limit 0 w err s pos e in
            let some_log : (length (log w₁) == 0) ≡ false =
              ground (arith, grown serves candidate limit 0 w s, serves.positive) in
            let h' : probe p fuel limit (offset * 2) (suc probes)
                  (next_candidate log capacity offset w₁) w₁
                ≡ some (ok (some payload, probes'), w') =
              rw (e, is_e, some_log) at h in
            later-Follows requested probes' candidate limit 0 w w' payload s (
              probe-Follows fuel limit (offset * 2) (suc probes)
                (next_candidate log capacity offset w₁) requested w₁ w' payload probes'
                (serves.keeps candidate limit 0 w s) pos from
                (omega (arith, grown serves candidate limit 0 w s))
                (omega (arith, grown serves candidate limit 0 w s)) (omega arith)
                (omega (arith, doubled)) h')
      ]

  -- A receiver that stands at a quote of the log or at the next one, with a positive batch size,
  -- asks an agent that serves the log. A payload that it fetches has the log's quotes from its
  -- first number on, none of them before the number asked for, and its next number is right after
  -- them, in the log or at its end. It starts past the number asked for only if that quote was evicted. It may
  -- then pass over quotes that are still kept, since a probe aims past the first of these: after
  -- `probes` probes at most a quarter of `2 ^ probes` of them.
  pub fetch-Follows :
      (fuel : ℕ) (r : Receiver) (w w' : W) (payload : Response Q) (probes : ℕ)
      → IsPlaced r w
      → fetch p fuel r w ≡ some (ok (some payload, probes), w')
      → Follows r.next_seq probes w payload w'
  unfolding IsPlaced fetch fetched fetch_else probe_available
  fetch-Follows fuel r w w' payload probes (s, from, placed, pos) h =
      elim (Result-cases (answer p r.next_seq r.batch_size r.timeout_ms w)) [
        | inr (found, e) ↦
            let h' : fetched p fuel r (ok found) w₁ ≡ some (ok (some payload, probes), w') =
              rw e at h in
            let same : found ≡ payload = cc in
            let there : w₁ ≡ w' = cc in
            subst (Follows r.next_seq probes w payload) there (
              payload-Follows r.next_seq probes r.next_seq r.batch_size r.timeout_ms w payload s pos
                from (omega arith) (inl refl) (inl refl) (e ∙ ap ok same))
        | inl (err, e) ↦
            let (is_e, off, why) =
              refusal serves r.next_seq r.batch_size r.timeout_ms w err s pos e in
            let some_log : (length (log w₁) == 0) ≡ false = ground (arith, more) in
            let late : (r.next_seq == length (log w₁) + 1) ≡ false = ground arith in
            let h' : probe p fuel r.batch_size 1 0
                  (max_ℕ 1 (length (log w₁) + 1 - min (length (log w₁)) capacity - 1)) w₁
                ≡ some (ok (some payload, probes), w') =
              rw (e, is_e, some_log, late) at h in
            later-Follows r.next_seq probes r.next_seq r.batch_size r.timeout_ms w w' payload s (
              probe-Follows fuel r.batch_size 1 0 _ r.next_seq w₁ w' payload probes
                (serves.keeps r.next_seq r.batch_size r.timeout_ms w s) pos from
                (ground (arith, more, why)) (omega (arith, more, why)) near_oldest refl h')
      ]
    where
      w₁ : W
      w₁ = after p r.next_seq r.batch_size r.timeout_ms w

      near_oldest : 2 * max_ℕ 1 (oldest_in w₁ - 1) ≤ 2 * oldest_in w₁ + 1
      near_oldest = ground arith

      more : length (log w) ≤ length (log w₁)
      more = grown serves r.next_seq r.batch_size r.timeout_ms w s
