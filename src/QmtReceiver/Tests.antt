-- ===== src/QmtReceiver/Tests.antt =====
-- Tests of the receiver on a small run with the buffer as its agent, and the theorems at it.
use fpro_v.Base.{
  ℕ, ◌≡◌, refl, none, some, List, [], ◌∷◌, arith, Text, Result, Option, true, ok, raise,
  value_error, codes,
}
use fpro_v.QuoteSequence.Defs.{
  QuoteSource, Origin, SequencedQuote, Buffer, Response, init, append_one, append, append_all,
  bounds, collect, respond, read_window, read_now, wait_loop, read, validate_window,
}
use fpro_v.QuoteSequence.Log.{stamp_all, log_all, init-Represents, append-Represents}
use fpro_v.QmtReceiver.Receive.{
  Receiver, ReceiveResult, init as init_receiver, Commits, probe_on, probed, probe, probe_available,
  fetch_else, fetched, fetch, take_in, received, concluded, receive, receive-Commits,
}
use fpro_v.QmtReceiver.Agent.{Serves}
use fpro_v.QmtReceiver.Agent.Returns.{fetch-Returns}
use fpro_v.QmtReceiver.Agent.Follows.{IsPlaced, Follows, fetch-Follows}
use fpro_v.QmtReceiver.Served.{World, IsSound, buffer_agent}
use fpro_v.QmtReceiver.Served.Laws.{buffer_agent-Serves}

abbrev feed : Origin
feed = record {
  source = QuoteSource.stock;
  subscription = codes "s1";
  period = codes "tick";
  received_at = 7;
}

abbrev items : List (Text × ℕ)
items = (codes "600000.SH", 10) ∷ (codes "000001.SZ", 11) ∷ (codes "600000.SH", 12) ∷ []

abbrev empty : Buffer ℕ
empty = record { capacity = 2; records = none ∷ none ∷ []; next_seq = 1; size = 0 }

init_two : init 2 ≡ ok empty
unfolding init
init_two = refl

-- The first quote is evicted; one more quote comes before the first probe.
abbrev world : World ℕ
world = record {
  buffer = append feed items empty;
  log = stamp_all feed 1 items;
  coming = ([], []) ∷ ((feed, (codes "600000.SH", 13) ∷ []) ∷ [], []) ∷ [];
  stored = [];
  queued = [];
}

world-IsSound : IsSound 2 1 world
unfolding append append_one
world-IsSound = record {
  represents = append-Represents feed items empty [] (init-Represents 2 init_two);
  sized = refl;
  paced = (omega arith, (omega arith, tt));
}

abbrev receiver : Receiver
receiver = record { next_seq = 1; batch_size = 5; timeout_ms = 0 }

serves_two : Serves buffer_agent (IsSound {Q = ℕ} 2 1) (λ w. w.log) 2 1
serves_two = buffer_agent-Serves 2 1 (omega arith)

receiver-IsPlaced : IsPlaced serves_two receiver world
unfolding IsPlaced
receiver-IsPlaced = (world-IsSound, omega arith, omega arith, omega arith)

refused_start : init_receiver buffer_agent 0 5 0 world ≡ (raise value_error, world)
unfolding init_receiver
refused_start = refl

abbrev fourth : SequencedQuote ℕ
fourth = record { seq = 4; symbol = codes "600000.SH"; origin = feed; quote = 13 }

abbrev payload : Response ℕ
payload = record {
  quotes = fourth ∷ [];
  count = 1;
  requested_seq = 4;
  next_seq = 5;
  oldest_seq = some 3;
  latest_seq = some 4;
}

abbrev found : World ℕ
found = record {
  buffer = append feed ((codes "600000.SH", 13) ∷ []) (append feed items empty);
  log = log_all ((feed, (codes "600000.SH", 13) ∷ []) ∷ []) (stamp_all feed 1 items);
  coming = [];
  stored = [];
  queued = [];
}

-- The probe of number 1 is refused, that of number 4 is answered.
fetch_fourth : fetch buffer_agent 2 receiver world ≡ some (ok (some payload, 2), found)
unfolding append_one append append_all bounds collect respond read_window read_now wait_loop read
    validate_window probe_on probed probe probe_available fetch_else fetched fetch
fetch_fourth = refl

abbrev result : ReceiveResult (SequencedQuote ℕ)
result = record { events = fourth ∷ []; next_seq = 5; probes = 2; skipped = 3 }

abbrev moved : Receiver
moved = record { next_seq = 5; batch_size = 5; timeout_ms = 0 }

receives_one :
    receive buffer_agent 2 true receiver world
    ≡ some (ok result, (moved, record found { stored = fourth ∷ []; queued = fourth ∷ [] }))
unfolding append_one append append_all bounds collect respond read_window read_now wait_loop read
    validate_window probe_on probed probe probe_available fetch_else fetched fetch take_in received
    concluded receive
receives_one = refl

receive-Commits_example : Commits receiver moved (ok result)
receive-Commits_example =
    receive-Commits buffer_agent 2 true receiver moved world
      (record found { stored = fourth ∷ []; queued = fourth ∷ [] }) (ok result) receives_one

fetch-Returns_example :
    (end : Result (Option (Response ℕ) × ℕ) × World ℕ) × (fetch buffer_agent 2 receiver world
      ≡ some end)
fetch-Returns_example =
    fetch-Returns serves_two 0 receiver world world-IsSound (omega arith) (omega arith)
      (omega arith)

fetch-Follows_example : Follows serves_two 1 2 world payload found
fetch-Follows_example =
    fetch-Follows serves_two 2 receiver world found payload 2 receiver-IsPlaced fetch_fourth

buffer_agent-Serves_example : Serves buffer_agent (IsSound {Q = ℕ} 2 1) (λ w. w.log) 2 1
buffer_agent-Serves_example = buffer_agent-Serves 2 1 (omega arith)
