-- ===== src/QmtReceiver/Receive.antt =====
-- One batch of quotes at a time from the agent (src/qmt_receiver/receiver.py). `W` is the state of
-- the world outside: the agent, the store and the queue.
use fpro_v.Base.{
  ℕ, zero, suc, ◌+◌, ◌-◌, ◌*◌, min, ◌≡◌, refl, ap, Bool, true, false, ◌||◌, ◌&&◌, not, Option, none,
  some, List, [], ◌∷◌, if◌then◌else◌, ◌==◌, ltb, leb, Error, sequence_out_of_range, value_error,
  Result, ok, raise, ⊤,
}
use fpro_v.Base.Method.{Method, ◌>>=◌, ◌>>◌, pure}
use fpro_v.QuoteSequence.Defs.{SequencedQuote, Response}

-- The interfaces `QuoteSequenceClient`, `QuoteStore` and `QuoteQueue`.
pub record Platform (W Q E : Type 0) : Type 0 where
  pub quote_sequence : ℕ → ℕ → ℕ → Method W (Response Q)
  pub append_quotes : List (SequencedQuote Q) → Method W (List E)
  pub compact_realtime : Method W ⊤
  pub put : E → Method W ⊤

pub record Receiver : Type 0 where
  pub next_seq : ℕ
  pub batch_size : ℕ
  pub timeout_ms : ℕ

pub record ReceiveResult (E : Type 0) : Type 0 where
  pub events : List E
  pub next_seq : ℕ
  pub probes : ℕ
  pub skipped : ℕ

-- the bounds that a QuoteSequenceOutOfRange carries
abbrev pub out_of_range : Error → Option (Option ℕ × Option ℕ)
out_of_range (sequence_out_of_range seq oldest latest) = some (oldest, latest)
out_of_range _ = none

-- `_is_caught_up`
abbrev pub is_caught_up : ℕ → Option ℕ → Bool
is_caught_up requested none = true
is_caught_up requested (some latest) = requested == latest + 1

abbrev pub max_ℕ : ℕ → ℕ → ℕ
max_ℕ a b = if ltb a b then b else a

-- A receiver after a call that returned or raised.
abbrev pub Commits : {E : Type 0} → Receiver → Receiver → Result (ReceiveResult E) → Type 0
Commits r r' (ok result) = r' ≡ record r { next_seq = result.next_seq }
Commits r r' (raise _) = r' ≡ r

some-injective : {A : Type 0} {a b : A} → some a ≡ some b → a ≡ b
some-injective h = cc

-- the number a result tells
abbrev told_next : {E : Type 0} → Result (ReceiveResult E) → ℕ
told_next (ok result) = result.next_seq
told_next (raise _) = 0

module _ {W Q E : Type 0} (p : Platform W Q E) where
  -- `__init__`
  unfoldable pub init : ℕ → ℕ → ℕ → Method W Receiver
  init start_seq batch_size timeout_ms w =
      if ltb start_seq 1
        || not (leb 1 batch_size && leb batch_size 1_000)
        || not (leb timeout_ms 30_000)
      then (raise value_error, w)
      else (p.compact_realtime
            >> pure
                (record { next_seq = start_seq; batch_size = batch_size; timeout_ms = timeout_ms }))
          w

  -- the end of a round of `_probe_available_sequence`: an answer, an exception, or the rest of the
  -- loop from the next candidate
  unfoldable pub probe_on :
      (ℕ → W → Option (Result (Option (Response Q) × ℕ) × W))
      → ℕ
      → ℕ
      → Error
      → Option (Option ℕ × Option ℕ)
      → W
      → Option (Result (Option (Response Q) × ℕ) × W)
  probe_on rest offset probes e none w = some (raise e, w)
  probe_on rest offset probes e (some (some oldest, some latest)) w =
      rest (min latest (oldest + offset)) w
  probe_on rest offset probes e (some (none, latest)) w = some (ok (none, probes), w)
  probe_on rest offset probes e (some (some oldest, none)) w = some (ok (none, probes), w)

  -- a round after its request
  unfoldable pub probed :
      (ℕ → W → Option (Result (Option (Response Q) × ℕ) × W))
      → ℕ
      → ℕ
      → Result (Response Q)
      → W
      → Option (Result (Option (Response Q) × ℕ) × W)
  probed rest offset probes (ok payload) w = some (ok (some payload, probes), w)
  probed rest offset probes (raise e) w = probe_on rest offset probes e (out_of_range e) w

  -- The `while True` of `_probe_available_sequence`, at most as many rounds as the fuel.
  unfoldable pub probe : ℕ → ℕ → ℕ → ℕ → ℕ → W → Option (Result (Option (Response Q) × ℕ) × W)
  probe zero batch_size offset probes candidate w = none
  probe (suc fuel) batch_size offset probes candidate w =
      let (answer, w') = p.quote_sequence candidate batch_size 0 w in
      probed (probe fuel batch_size (offset * 2) (suc probes)) offset (suc probes) answer w'

  -- `_probe_available_sequence`
  unfoldable pub probe_available :
      ℕ → ℕ → Option ℕ → Option ℕ → W → Option (Result (Option (Response Q) × ℕ) × W)
  probe_available fuel batch_size (some oldest) (some latest) w =
      probe fuel batch_size 1 0 (max_ℕ 1 (oldest - 1)) w
  probe_available fuel batch_size none latest w = some (ok (none, 0), w)
  probe_available fuel batch_size (some oldest) none w = some (ok (none, 0), w)

  -- the `try` of `receive`: the payload to take in, if there is one, and the number of probes
  unfoldable pub fetch_else :
      ℕ
      → Receiver
      → Error
      → Option (Option ℕ × Option ℕ)
      → W
      → Option (Result (Option (Response Q) × ℕ) × W)
  fetch_else fuel r e none w = some (raise e, w)
  fetch_else fuel r e (some (oldest, latest)) w =
      if is_caught_up r.next_seq latest
      then some (ok (none, 0), w)
      else probe_available fuel r.batch_size oldest latest w

  unfoldable pub fetched :
      ℕ → Receiver → Result (Response Q) → W → Option (Result (Option (Response Q) × ℕ) × W)
  fetched fuel r (ok payload) w = some (ok (some payload, 0), w)
  fetched fuel r (raise e) w = fetch_else fuel r e (out_of_range e) w

  unfoldable pub fetch : ℕ → Receiver → W → Option (Result (Option (Response Q) × ℕ) × W)
  fetch fuel r w =
      let (answer, w') = p.quote_sequence r.next_seq r.batch_size r.timeout_ms w in
      fetched fuel r answer w'

  -- `queue.put` of each event, if there is a queue
  abbrev put_each : List E → Method W ⊤
  put_each [] = pure tt
  put_each (e ∷ es) = p.put e >> put_each es

  abbrev put_all : Bool → List E → Method W ⊤
  put_all false es = pure tt
  put_all true es = put_each es

  -- `max(0, first_seq - requested_seq)`
  abbrev skipped_before : ℕ → List (SequencedQuote Q) → ℕ
  skipped_before requested [] = 0
  skipped_before requested (first ∷ _) = first.seq - requested

  -- the rest of `receive`: what is stored and queued, and only then the next number
  unfoldable pub take_in : Bool → ℕ → Response Q → Method W (List E)
  take_in has_queue requested payload = do
    events ← p.append_quotes payload.quotes
    put_all has_queue events
    pure events

  unfoldable pub received :
      Receiver → Response Q → ℕ → Result (List E) × W → Result (ReceiveResult E) × (Receiver × W)
  received r payload probes (raise e, w) = (raise e, (r, w))
  received r payload probes (ok events, w) = (
    ok (record {
      events = events;
      next_seq = payload.next_seq;
      probes = probes;
      skipped = skipped_before r.next_seq payload.quotes;
    }),
    (record r { next_seq = payload.next_seq }, w),
  )

  unfoldable pub concluded :
      Bool
      → Receiver
      → Option (Result (Option (Response Q) × ℕ) × W)
      → Option (Result (ReceiveResult E) × (Receiver × W))
  concluded has_queue r none = none
  concluded has_queue r (some (raise e, w)) = some (raise e, (r, w))
  concluded has_queue r (some (ok (none, probes), w)) =
      some
        (ok (record { events = []; next_seq = r.next_seq; probes = probes; skipped = 0 }), (r, w))
  concluded has_queue r (some (ok (some payload, probes), w)) =
      some (received r payload probes (take_in has_queue r.next_seq payload w))

  -- `receive`; nothing where the fuel of the probes is not enough
  unfoldable pub receive :
      ℕ → Bool → Receiver → W → Option (Result (ReceiveResult E) × (Receiver × W))
  receive fuel has_queue r w = concluded has_queue r (fetch fuel r w)

  received-Commits :
      (r r' : Receiver) (w' : W) (payload : Response Q) (probes : ℕ)
      (answer : Result (ReceiveResult E)) (m : Result (List E) × W)
      → received r payload probes m ≡ (answer, (r', w'))
      → Commits r r' answer
  unfolding received
  received-Commits r r' w' payload probes (ok result) (raise e, w) h = cc
  received-Commits r r' w' payload probes (raise e') (raise e, w) h = cc
  received-Commits r r' w' payload probes (ok result) (ok events, w) h =
      let same : record r { next_seq = payload.next_seq } ≡ r' = cc in
      let told : payload.next_seq ≡ result.next_seq = ap (λ x. told_next x.0) h in
      rw (← same, told) refl
  received-Commits r r' w' payload probes (raise e) (ok events, w) h = cc

  concluded-Commits :
      (has_queue : Bool) (r r' : Receiver) (w' : W) (answer : Result (ReceiveResult E))
      (m : Option (Result (Option (Response Q) × ℕ) × W))
      → concluded has_queue r m ≡ some (answer, (r', w'))
      → Commits r r' answer
  unfolding concluded received
  concluded-Commits has_queue r r' w' answer none h = cc
  concluded-Commits has_queue r r' w' (ok result) (some (raise e, w)) h = cc
  concluded-Commits has_queue r r' w' (raise e') (some (raise e, w)) h = cc
  concluded-Commits has_queue r r' w' (ok result) (some (ok (none, probes), w)) h =
      let same : r ≡ r' = cc in
      let told : r.next_seq ≡ result.next_seq = ap (λ x. told_next x.0) (some-injective h) in
      rw (← same, ← told) refl
  concluded-Commits has_queue r r' w' (raise e) (some (ok (none, probes), w)) h = cc
  concluded-Commits has_queue r r' w' answer (some (ok (some payload, probes), w)) h =
      received-Commits r r' w' payload probes answer (take_in has_queue r.next_seq payload w)
        (some-injective h)

  -- If a call of `receive` raises, the receiver asks for the same number again: a batch that was
  -- not stored and queued to its end is not passed over. If it returns, the next number is the one
  -- that the result tells.
  pub receive-Commits :
      (fuel : ℕ) (has_queue : Bool) (r r' : Receiver) (w w' : W) (answer : Result (ReceiveResult E))
      → receive fuel has_queue r w ≡ some (answer, (r', w'))
      → Commits r r' answer
  unfolding receive concluded received
  receive-Commits fuel has_queue r r' w w' answer h =
      concluded-Commits has_queue r r' w' answer (fetch fuel r w) h
