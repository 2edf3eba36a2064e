-- ===== src/QuoteSequence/Tests.antt =====
-- Tests of the buffer on a small run, and the theorems at it.
use fpro_v.Base.{
  ℕ, ◌+◌, ◌-◌, ◌≤◌, ◌<◌, min, ◌≡◌, ◌⊎◌, refl, none, some, List, [], ◌∷◌, arith, length, take, drop,
  Text, ok, raise, sequence_out_of_range, codes,
}
use fpro_v.QuoteSequence.Defs.{
  QuoteSource, Origin, SequencedQuote, Buffer, Response, init, append_one, append, append_all,
  bounds, collect, respond, read_window, read_now, wait_loop, read, status, validate_window,
}
use fpro_v.QuoteSequence.Log.{stamp_all, Represents, init-Represents, append-Represents}
use fpro_v.QuoteSequence.Reads.{
  log_bounds, log_read, log_wakes, IsWaiting, read_now-eq-log_read, read_now_follows, status-eq-ok,
  wait_loop-Represents,
}

abbrev feed : Origin
feed = record {
  source = QuoteSource.market;
  subscription = codes "all";
  period = codes "tick";
  received_at = 7;
}

abbrev items : List (Text × ℕ)
items = (codes "600000.SH", 10) ∷ (codes "000001.SZ", 11) ∷ (codes "600000.SH", 12) ∷ []

abbrev empty : Buffer ℕ
empty = record { capacity = 2; records = none ∷ none ∷ []; next_seq = 1; size = 0 }

init_two : init 2 ≡ ok empty
unfolding init
init_two = refl

-- Three quotes into two slots: the third takes the slot of the first.
abbrev full : Buffer ℕ
full = append feed items empty

abbrev log : List (SequencedQuote ℕ)
log = stamp_all feed 1 items

full-size : full.size ≡ 2
unfolding append append_one
full-size = refl

read_old : read_now 1 5 full ≡ raise (sequence_out_of_range 1 (some 2) (some 3))
unfolding read_now read_window bounds append append_one
read_old = refl

read_two :
    read_now 2 5 full
    ≡ ok (record {
      quotes = drop 1 log;
      count = 2;
      requested_seq = 2;
      next_seq = 4;
      oldest_seq = some 2;
      latest_seq = some 3;
    })
unfolding read_now read_window bounds collect respond validate_window append append_one
read_two = refl

-- A waiting read of the next number returns the quote that arrives.
read_waits : (read 4 5 100 (((feed, items) ∷ []) ∷ []) full).1 ≡ append feed items full
unfolding read wait_loop append_all append append_one
read_waits = refl

append-Represents_example : Represents full log
append-Represents_example =
    append-Represents feed items empty [] (init-Represents {Q = ℕ} 2 {b = empty} init_two)

read_now-eq-log_read_example : read_now 2 5 full ≡ log_read full.capacity log 2 5
read_now-eq-log_read_example =
    read_now-eq-log_read full log 2 5 append-Represents_example (omega arith)

abbrev answer : Response ℕ
answer = record {
  quotes = drop 1 log;
  count = 2;
  requested_seq = 2;
  next_seq = 4;
  oldest_seq = some 2;
  latest_seq = some 3;
}

read_now_follows_example :
    (answer.quotes ≡ take 2 (drop (2 - 1) log))
    × (answer.next_seq ≡ 2 + answer.count)
    × (answer.count ≤ 5)
    × (2 ≤ length log → 0 < answer.count)
read_now_follows_example =
    read_now_follows full log 2 5 answer append-Represents_example (omega arith) read_two

status-eq-ok_example :
    status full
    ≡ ok (record {
      oldest_seq = (log_bounds full.capacity 3).0;
      latest_seq = (log_bounds full.capacity 3).1;
      next_seq = 3 + 1;
      size = min 3 full.capacity;
      capacity = full.capacity;
    })
status-eq-ok_example = status-eq-ok full log append-Represents_example

-- two wake-ups: the first brings nothing, the second the quote
abbrev wakes : List (List (Origin × List (Text × ℕ)))
wakes = [] ∷ ((feed, items) ∷ []) ∷ []

wait_loop-Represents_example :
    (k : ℕ) × Represents (wait_loop 100 4 wakes full) (log_wakes k wakes log)
    × (k ≤ 2)
    × ((j : ℕ) → j < k → IsWaiting 100 4 (log_wakes j wakes log))
    × ((k ≡ 2) ⊎ ¬ IsWaiting 100 4 (log_wakes k wakes log))
wait_loop-Represents_example = wait_loop-Represents 100 4 wakes full log append-Represents_example
