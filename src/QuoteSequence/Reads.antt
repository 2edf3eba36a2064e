-- ===== src/QuoteSequence/Reads.antt =====
-- What `read` and `status` return, against the log of all appended quotes
-- (src/qmt_agent/quote_sequence.py).
use fpro_v.Base.{
  ℕ, zero, suc, ◌+◌, ◌-◌, ◌%◌, ◌≤◌, not, ◌&&◌, ◌<◌, min, ◌≡◌, refl, ap, subst, ◌∙◌, ◌≢◌, ◌⊎◌,
  Option, none, some, List, [], ◌∷◌, arith, length, get_elem?, take, drop, Text, Result, ok, raise,
  bind, sequence_out_of_range, if◌then◌else◌, ltb, ◌==◌, ◌||◌, get_elem?_of_lt, drop-eq-cons,
  Bool-cases, inl, inr,
}
use fpro_v.QuoteSequence.Defs.{
  slot, Origin, SequencedQuote, Buffer, Response, bounds, collect, respond, read_window, read_now,
  wait_loop, status, append_all, validate_window, validate_bounds,
}
use fpro_v.QuoteSequence.Log.{Represents, log_all, append_all-Represents}

length-take_eq {ℓ} : {A : Type ℓ} (n : ℕ) (xs : List A) → length (take n xs) ≡ min n (length xs)
length-take_eq zero xs = omega arith
length-take_eq (suc n) [] = omega arith
length-take_eq (suc n) (x ∷ xs) = omega (arith, length-take_eq n xs)

length-drop {ℓ} : {A : Type ℓ} (n : ℕ) (xs : List A) → length (drop n xs) ≡ length xs - n
length-drop zero xs = omega arith
length-drop (suc n) [] = omega arith
length-drop (suc n) (x ∷ xs) = omega (arith, length-drop n xs)

take-eq-take {ℓ} :
    {A : Type ℓ} (n k : ℕ) (xs : List A) → n ≡ min k (length xs) → take n xs ≡ take k xs
take-eq-take zero zero xs h = refl
take-eq-take zero (suc k) [] h = refl
take-eq-take zero (suc k) (x ∷ xs) h = absurd (omega arith)
take-eq-take (suc n) zero xs h = absurd (omega arith)
take-eq-take (suc n) (suc k) [] h = refl
take-eq-take (suc n) (suc k) (x ∷ xs) h = ap (◌∷◌ x) (take-eq-take n k xs (omega arith))

-- the bounds of the window, by the length of the log
abbrev pub log_bounds : ℕ → ℕ → Option ℕ × Option ℕ
log_bounds capacity n = if n == 0 then (none, none) else (some (n + 1 - min n capacity), some n)

module _ {Q : Type 0} where
  -- one round of the loop, where the slot holds the record asked for
  collect_step :
      (b : Buffer Q) (seq n : ℕ) (r : SequencedQuote Q)
      → get_elem? b.records (slot b.capacity seq) ≡ some (some r)
      → r.seq ≡ seq
      → collect b seq (suc n) ≡ bind (collect b (seq + 1) n) (λ rs. ok (r ∷ rs))
  unfolding collect
  collect_step b seq n r found numbered = ground arith

  -- the slots that the loop walks hold the log's records
  collect-eq-take :
      (b : Buffer Q) (log : List (SequencedQuote Q))
      → Represents b log
      → (i n : ℕ) → length log ≤ i + b.size
      → i + n ≤ length log
      → collect b (i + 1) n ≡ ok (take n (drop i log))
  unfolding collect
  collect-eq-take b log v i zero lo hi = refl
  collect-eq-take b log v i (suc n) lo hi =
      let (r, e) = get_elem?_of_lt log i (omega arith) in
      let found : get_elem? b.records (slot b.capacity (i + 1)) ≡ some (some r) =
        subst (λ k. get_elem? b.records (k % b.capacity) ≡ some (some r)) {x = i} {y = i + 1 - 1}
          (omega arith) (v.holds i r lo e) in
      collect_step b (i + 1) n r found (v.in_order i r e ∙ omega arith)
      ∙ rw (collect-eq-take b log v (i + 1) n (omega arith) (omega arith), drop-eq-cons log i r e)
          (ap (λ k. ok (r ∷ take n (drop k log))) {x = i + 1} {y = suc i} (omega arith))

  -- The promise to a reader, stated on the log alone: the next number is answered at once with
  -- nothing, a number outside the last `capacity` ones is refused with the bounds, and any other
  -- gets the quotes from it on, at most `limit`.
  unfoldable pub log_read : ℕ → List (SequencedQuote Q) → ℕ → ℕ → Result (Response Q)
  log_read capacity log seq limit =
      let n = length log in
      let (oldest, latest) = log_bounds capacity n in
      let rs = take limit (drop (seq - 1) log) in
      if seq == n + 1
      then ok (record {
        quotes = [];
        count = 0;
        requested_seq = seq;
        next_seq = seq;
        oldest_seq = oldest;
        latest_seq = latest;
      })
      else if (n == 0) || ltb seq (n + 1 - min n capacity) || ltb n seq
      then raise (sequence_out_of_range seq oldest latest)
      else ok (record {
        quotes = rs;
        count = length rs;
        requested_seq = seq;
        next_seq = seq + length rs;
        oldest_seq = oldest;
        latest_seq = latest;
      })

  bounds-eq-log_bounds :
      (b : Buffer Q) (log : List (SequencedQuote Q))
      → Represents b log
      → bounds b ≡ log_bounds b.capacity (length log)
  unfolding bounds
  bounds-eq-log_bounds b log v = ground (arith, v.numbered, v.sized, v.positive)

  -- The loop reads exactly what the log has between the two bounds.
  window_records :
      (b : Buffer Q) (log : List (SequencedQuote Q)) (seq limit : ℕ)
      → Represents b log
      → 0 < seq
      → length log + 1 ≤ seq + b.size
      → seq ≤ length log
      → collect b seq (min (seq + limit - 1) (length log) + 1 - seq)
        ≡ ok (take limit (drop (seq - 1) log))
  window_records b log seq limit v pos lo hi =
      subst (λ k. collect b k n ≡ ok (take limit rest)) {x = seq - 1 + 1} {y = seq} (omega arith)
        (collect-eq-take b log v (seq - 1) n (omega arith) (omega arith)
          ∙ ap ok (take-eq-take n limit rest (omega (arith, length-drop (seq - 1) log))))
    where
      n : ℕ
      n = min (seq + limit - 1) (length log) + 1 - seq

      rest : List (SequencedQuote Q)
      rest = drop (seq - 1) log

  -- Of a buffer that represents the log of all quotes, `read` with a positive limit, once it has
  -- stopped waiting, answers and raises exactly what `log_read` says of the log: it raises neither
  -- the internal RuntimeError nor an error of the response's validator.
  pub read_now-eq-log_read :
      (b : Buffer Q) (log : List (SequencedQuote Q)) (seq limit : ℕ)
      → Represents b log
      → 0 < limit
      → read_now seq limit b ≡ log_read b.capacity log seq limit
  unfolding read_now log_read read_window respond validate_window
  read_now-eq-log_read b log seq limit v pos = rw (bounds-eq-log_bounds b log v) (
      ground (
        arith,
        v.numbered,
        v.sized,
        v.positive,
        window_records b log seq limit v,
        length-take_eq limit (drop (seq - 1) log),
        length-drop (seq - 1) log,
      ))

  -- Of a buffer that represents a log, a response to a positive limit: its quotes are the `count`
  -- ones of the log from the requested number on, at most the limit, `next_seq` is past exactly
  -- these, and there is at least one if the log has the requested number. So a reader that goes on
  -- from `next_seq` sees every quote once and in order.
  pub read_now_follows :
      (b : Buffer Q) (log : List (SequencedQuote Q)) (seq limit : ℕ) (r : Response Q)
      → Represents b log
      → 0 < limit
      → read_now seq limit b ≡ ok r
      → (r.quotes ≡ take r.count (drop (seq - 1) log))
        × (r.next_seq ≡ seq + r.count)
        × (r.count ≤ limit)
        × (seq ≤ length log → 0 < r.count)
  unfolding log_read
  read_now_follows b log seq limit r v pos e = ground (
    arith,
    read_now-eq-log_read b log seq limit v pos,
    length-take_eq limit (drop (seq - 1) log),
    length-drop (seq - 1) log,
    take-eq-take (length (take limit (drop (seq - 1) log))) limit (drop (seq - 1) log),
  )

  -- an answer of the log
  pub log_read_follows :
      (capacity : ℕ) (log : List (SequencedQuote Q)) (seq limit : ℕ) (r : Response Q)
      → 0 < seq
      → log_read capacity log seq limit ≡ ok r
      → (r.requested_seq ≡ seq)
        × (r.quotes ≡ take r.count (drop (seq - 1) log))
        × (r.next_seq ≡ seq + r.count)
        × (r.next_seq ≤ length log + 1)
  unfolding log_read
  log_read_follows capacity log seq limit r pos e = ground (
    arith,
    length-take_eq limit (drop (seq - 1) log),
    length-drop (seq - 1) log,
    take-eq-take (length (take limit (drop (seq - 1) log))) limit (drop (seq - 1) log),
  )

  -- The `status` of a buffer that represents a log never fails its validator, and tells the window
  -- of the log that is kept.
  pub status-eq-ok :
      (b : Buffer Q) (log : List (SequencedQuote Q))
      → Represents b log
      → let n = length log in
        status b
        ≡ ok (record {
          oldest_seq = (log_bounds b.capacity n).0;
          latest_seq = (log_bounds b.capacity n).1;
          next_seq = n + 1;
          size = min n b.capacity;
          capacity = b.capacity;
        })
  unfolding status validate_bounds
  status-eq-ok b log v =
      rw (bounds-eq-log_bounds b log v) (ground (arith, v.numbered, v.sized, v.positive))

  -- the log after the appends of the first `k` wake-ups
  abbrev pub log_wakes :
      ℕ → List (List (Origin × List (Text × Q))) → List (SequencedQuote Q) → List (SequencedQuote Q)
  log_wakes zero wakes log = log
  log_wakes (suc k) [] log = log
  log_wakes (suc k) (calls ∷ wakes) log = log_wakes k wakes (log_all calls log)

  -- A read goes on waiting: it has a waiting time and its number is the next one of the log.
  abbrev pub IsWaiting : ℕ → ℕ → List (SequencedQuote Q) → Type 0
  IsWaiting wait_ms seq log = (wait_ms ≢ 0) × (seq ≡ length log + 1)

  -- one more wake-up in front
  waits_from :
      {wait_ms seq : ℕ} (calls : List (Origin × List (Text × Q)))
      (wakes : List (List (Origin × List (Text × Q)))) (log : List (SequencedQuote Q)) (k : ℕ)
      → IsWaiting wait_ms seq log
      → ((j : ℕ) → j < k → IsWaiting wait_ms seq (log_wakes j wakes (log_all calls log)))
      → (j : ℕ) → j < suc k
      → IsWaiting wait_ms seq (log_wakes j (calls ∷ wakes) log)
  waits_from calls wakes log k first waits zero h = first
  waits_from calls wakes log k first waits (suc j) h = waits j (omega arith)

  -- A read that waits on a buffer that represents a log takes in the appends of the first `k`
  -- wake-ups, and the buffer then represents the log with these. `k` is the first at which it need
  -- not wait any more: before each of them it has a waiting time and the requested number is the
  -- next one of the log so far, and after them this is not so, or the deadline is there. So without
  -- a waiting time, or when the quote is there already, it does not wait, and it ends with the first
  -- wake-up that brings the quote.
  pub wait_loop-Represents :
      (wait_ms seq : ℕ) (wakes : List (List (Origin × List (Text × Q)))) (b : Buffer Q)
      (log : List (SequencedQuote Q))
      → Represents b log
      → (k : ℕ) × Represents (wait_loop wait_ms seq wakes b) (log_wakes k wakes log)
        × (k ≤ length wakes)
        × ((j : ℕ) → j < k → IsWaiting wait_ms seq (log_wakes j wakes log))
        × ((k ≡ length wakes) ⊎ ¬ IsWaiting wait_ms seq (log_wakes k wakes log))
  unfolding wait_loop
  wait_loop-Represents wait_ms seq [] b log v =
      (0, v, omega arith, (λ j h. absurd (omega arith)), inl refl)
  wait_loop-Represents wait_ms seq (calls ∷ wakes) b log v =
      elim (Bool-cases (not (wait_ms == 0) && seq == b.next_seq)) [
        | inl go ↦
            let (k, r, few, waits, why) =
              wait_loop-Represents wait_ms seq wakes (append_all calls b) (log_all calls log)
                (append_all-Represents calls b log v) in
            (
              suc k,
              rw go r,
              omega (arith, few),
              waits_from calls wakes log k (ground (arith, v.numbered)) waits,
              elim why [ inl all ↦ inl (omega (arith, all)) | inr done ↦ inr done ],
            )
        | inr stop ↦ (
          0,
          rw stop v,
          omega arith,
          (λ j h. absurd (omega arith)),
          inr (λ waits. ground (arith, v.numbered)),
        )
      ]
