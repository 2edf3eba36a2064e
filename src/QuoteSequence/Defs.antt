-- ===== src/QuoteSequence/Defs.antt =====
-- `QuoteSequenceBuffer` and its methods (src/qmt_agent/quote_sequence.py), over any type of quote.
-- A method runs under the lock, so it is one function of the buffer; what other threads append
-- while `read` waits is the list of appends at each wake-up of the condition.
use fpro_v.Base.{
  ℕ, suc, ◌+◌, ◌-◌, ◌%◌, min, Bool, true, false, ◌||◌, ◌&&◌, not, Option, none, some, List, [], ◌∷◌,
  if◌then◌else◌, ltb, leb, ◌==◌, length, get_elem?, set, replicate, Text, Result, ok, raise, bind,
  value_error, runtime_error, sequence_out_of_range,
}

pub data QuoteSource : Type 0 where
  market stock : QuoteSource

-- What an `append` call says of all its quotes.
pub record Origin : Type 0 where
  pub source : QuoteSource
  pub subscription : Text
  pub period : Text
  pub received_at : ℕ

pub record SequencedQuote (Q : Type 0) : Type 0 where
  pub seq : ℕ
  pub symbol : Text
  pub origin : Origin
  pub quote : Q

pub record Buffer (Q : Type 0) : Type 0 where
  pub capacity : ℕ
  pub records : List (Option (SequencedQuote Q))
  pub next_seq : ℕ
  pub size : ℕ

pub record Response (Q : Type 0) : Type 0 where
  pub quotes : List (SequencedQuote Q)
  pub count : ℕ
  pub requested_seq : ℕ
  pub next_seq : ℕ
  pub oldest_seq : Option ℕ
  pub latest_seq : Option ℕ

pub record Status : Type 0 where
  pub oldest_seq : Option ℕ
  pub latest_seq : Option ℕ
  pub next_seq : ℕ
  pub size : ℕ
  pub capacity : ℕ

-- the tests of the two validators on the bounds, by whether there are bounds
abbrev pub ordered : Option ℕ → Option ℕ → Bool
ordered none none = true
ordered (some oldest) (some latest) = leb oldest latest
ordered _ _ = false

abbrev pub check : Option ℕ → Option ℕ → Status → Bool
check (some oldest) (some latest) s =
    not (s.size == 0)
    && leb oldest latest
    && (latest + 1 == s.next_seq)
    && (latest - oldest + 1 == s.size)
check none none s = s.size == 0
check _ _ s = false

-- `QuoteSequenceResponse.validate_window`, which the constructor runs
unfoldable pub validate_window : {Q : Type 0} → Response Q → Bool
validate_window r =
    (r.count == length r.quotes)
    && leb r.requested_seq r.next_seq
    && not (r.next_seq == r.requested_seq && not (r.count == 0))
    && ordered r.oldest_seq r.latest_seq

-- `QuoteSequenceStatus.validate_bounds`
unfoldable pub validate_bounds : Status → Bool
validate_bounds s = check s.oldest_seq s.latest_seq s

-- `_slot`
abbrev pub slot : ℕ → ℕ → ℕ
slot capacity seq = (seq - 1) % capacity

module _ {Q : Type 0} where
  -- `__init__`
  unfoldable pub init : ℕ → Result (Buffer Q)
  init capacity =
      if ltb capacity 1
      then raise value_error
      else ok (record {
        capacity = capacity;
        records = replicate capacity none;
        next_seq = 1;
        size = 0;
      })

  -- one round of the loop of `append`
  unfoldable pub append_one : Origin → Buffer Q → Text × Q → Buffer Q
  append_one origin b (symbol, quote) = record b {
    records =
        set b.records (slot b.capacity b.next_seq)
          (some (record { seq = b.next_seq; symbol = symbol; origin = origin; quote = quote }));
    next_seq = b.next_seq + 1;
    size = min (b.size + 1) b.capacity;
  }

  unfoldable pub append : Origin → List (Text × Q) → Buffer Q → Buffer Q
  append origin [] b = b
  append origin (item ∷ items) b = append origin items (append_one origin b item)

  -- `_bounds_unlocked`
  unfoldable pub bounds : Buffer Q → Option ℕ × Option ℕ
  bounds b =
      if b.size == 0 then (none, none) else (some (b.next_seq - b.size), some (b.next_seq - 1))

  -- the `for` loop of `read`: `n` records from number `seq` on
  unfoldable pub collect : Buffer Q → ℕ → ℕ → Result (List (SequencedQuote Q))
  collect b seq ℕ.zero = ok []
  collect b seq (suc n) = elim (get_elem? b.records (slot b.capacity seq)) [
    | some (some r) ↦
        let rest = collect b (seq + 1) n in
        if r.seq == seq then bind rest (λ rs. ok (r ∷ rs)) else raise runtime_error
    | _ ↦ raise runtime_error
  ]

  -- `QuoteSequenceResponse(...)`: a validator's ValueError is raised
  unfoldable pub respond : Response Q → Result (Response Q)
  unfolding validate_window
  respond r = if validate_window r then ok r else raise value_error

  -- the rest of `read` for a number that is not the next one
  unfoldable pub read_window : ℕ → ℕ → Buffer Q → Option ℕ → Option ℕ → Result (Response Q)
  read_window seq limit b (some oldest) (some latest) =
      if ltb seq oldest || ltb latest seq
      then raise (sequence_out_of_range seq (some oldest) (some latest))
      else let end_seq = min (seq + limit - 1) latest in
        bind (collect b seq (end_seq + 1 - seq)) (λ rs. respond (record {
          quotes = rs;
          count = length rs;
          requested_seq = seq;
          next_seq = end_seq + 1;
          oldest_seq = some oldest;
          latest_seq = some latest;
        }))
  read_window seq limit b oldest latest = raise (sequence_out_of_range seq oldest latest)

  -- what `read` does once it has stopped waiting
  unfoldable pub read_now : ℕ → ℕ → Buffer Q → Result (Response Q)
  read_now seq limit b =
      let (oldest, latest) = bounds b in
      if seq == b.next_seq
      then respond (record {
        quotes = [];
        count = 0;
        requested_seq = seq;
        next_seq = seq;
        oldest_seq = oldest;
        latest_seq = latest;
      })
      else read_window seq limit b oldest latest

  -- appends of other threads, in order
  unfoldable pub append_all : List (Origin × List (Text × Q)) → Buffer Q → Buffer Q
  append_all [] b = b
  append_all ((origin, items) ∷ calls) b = append_all calls (append origin items b)

  -- The `while` loop of `read`. Each entry of the list is a wake-up with the appends made before
  -- it; the end of the list is the deadline.
  unfoldable pub wait_loop : ℕ → ℕ → List (List (Origin × List (Text × Q))) → Buffer Q → Buffer Q
  wait_loop wait_ms seq [] b = b
  wait_loop wait_ms seq (calls ∷ wakes) b =
      if not (wait_ms == 0) && seq == b.next_seq
      then wait_loop wait_ms seq wakes (append_all calls b)
      else b

  -- `read`: its response, and the buffer that it leaves
  unfoldable pub read :
      ℕ → ℕ → ℕ → List (List (Origin × List (Text × Q))) → Buffer Q → Result (Response Q) × Buffer Q
  read seq limit wait_ms wakes b =
      if ltb limit 1
      then (raise value_error, b)
      else let b' = wait_loop wait_ms seq wakes b in (read_now seq limit b', b')

  unfoldable pub status : Buffer Q → Result Status
  unfolding validate_bounds
  status b =
      let (oldest, latest) = bounds b in
      let s : Status = record {
        oldest_seq = oldest;
        latest_seq = latest;
        next_seq = b.next_seq;
        size = b.size;
        capacity = b.capacity;
      } in
      if validate_bounds s then ok s else raise value_error
