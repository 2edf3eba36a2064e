-- ===== src/QmtAgent/Service/Tests.antt =====
-- Tests of a service and of a gate on a small gateway, and the theorems at it.
use fpro_v.Base.{
  ℕ, suc, ◌≡◌, refl, none, List, [], ◌∷◌, Text, ok, raise, value_error, runtime_error, codes,
  length, distinct, text_beq, sort, ⊤,
}
use fpro_v.Base.Method.{Method}
use fpro_v.QuoteSequence.Defs.{init as new_buffer, append, append_one}
use fpro_v.QmtAgent.Callback.{new_gate, suspend, close, receive, activate, deliver_all}
use fpro_v.QmtAgent.Callback.Order.{Call, arrivals, do_calls, Passes, new_gate-Passes}
use fpro_v.QmtAgent.Service.{to_market, to_stock, Gateway, Service, create}
use fpro_v.QmtAgent.Service.Callbacks.{arrive, arrive_all, latest_of, last_of, items_of}
use fpro_v.QmtAgent.Service.Operations.{
  subscribe_added, subscribe_stock, subscribe_stocks, unsubscribe_stock, unsubscribe_stocks,
  each_of, periods_of,
}
use fpro_v.QmtAgent.Service.Closing.{close_service}
use fpro_v.QmtAgent.Service.Latest.{validate_quotes, get_stock_quotes}
use fpro_v.QmtAgent.Service.Limits.Histories.{Reachable, IsWithin, Reachable-IsWithin}

-- a handler that keeps the quotes
abbrev keep : ℕ → ℕ → Method (List ℕ) ⊤
keep quotes received_at kept = (ok tt, quotes ∷ kept)

abbrev calls : List (Call ℕ)
calls =
    Call.receives 7 1
    ∷ Call.activates
    ∷ Call.receives 8 2
    ∷ Call.suspends
    ∷ Call.receives 9 3
    ∷ Call.closes
    ∷ Call.receives 10 4
    ∷ []

-- the quotes of a suspended gate are dropped when it is closed
calls_run : (do_calls keep calls (new_gate, [])).1 ≡ 8 ∷ 7 ∷ []
unfolding receive activate suspend close deliver_all
calls_run = refl

new_gate-Passes_example :
    Passes keep [] (arrivals keep calls) [] (do_calls keep calls (new_gate, []))
new_gate-Passes_example = new_gate-Passes keep calls []

abbrev alpha : Text
alpha = codes "600000.SH"

abbrev beta : Text
beta = codes "000001.SZ"

-- A gateway that counts its subscriptions, calls back once before it answers, and refuses `bad`.
abbrev gateway : Gateway ℕ ℕ
gateway = record {
  subscribe_market_quote =
      λ market place n. ((ok n, to_market place ((alpha, 3) ∷ []) 5 ∷ []), suc n);
  subscribe_stock_quote =
      λ stock period place n. ((ok n, to_stock place ((stock, 4 ∷ 6 ∷ []) ∷ []) 5 ∷ []), suc n);
  unsubscribe = λ id n. ((raise runtime_error, []), n);
}

abbrev fresh : Service ℕ ℕ
fresh = record {
  buffer = record {
    capacity = 4;
    records = none ∷ none ∷ none ∷ none ∷ [];
    next_seq = 1;
    size = 0;
  };
  max_stock_subscriptions = 1;
  market_subscriptions = [];
  stock_subscriptions = [];
  market_callbacks = [];
  stock_callbacks = [];
  market_quotes = [];
  market_quote_updated_at = [];
  stock_quotes = [];
  stock_quote_updated_at = [];
  outside = 1;
}

create_fresh : create {Q = ℕ} 1 1 4 ≡ ok fresh
unfolding create new_buffer
create_fresh = refl

abbrev tick : Text
tick = codes "tick"

abbrev one : Service ℕ ℕ
one = (subscribe_stocks gateway (alpha ∷ alpha ∷ []) tick fresh).1

-- the callback that comes before the answer is in the cache; the last of its quotes is the latest
one_quotes :
    get_stock_quotes (λ period quote. ok quote) one
    ≡ ok (record {
      quotes = (alpha, 6) ∷ [];
      periods = (alpha, tick) ∷ [];
      updated_at = (alpha, 5) ∷ [];
    })
unfolding subscribe_stocks subscribe_added subscribe_stock each_of periods_of receive activate close
    deliver_all arrive_all append append_one latest_of last_of validate_quotes get_stock_quotes
    distinct text_beq sort items_of
one_quotes = refl

-- a second stock is one too many, and the service stays
full_refused : (subscribe_stocks gateway (beta ∷ []) tick one).0 ≡ raise value_error
unfolding subscribe_stocks subscribe_added subscribe_stock each_of periods_of receive activate close
    deliver_all arrive_all append append_one latest_of last_of distinct text_beq sort items_of
full_refused = refl

-- a gateway that refuses leaves the subscription in force
kept_subscribed :
    length (unsubscribe_stocks gateway (alpha ∷ []) tick one).1.stock_subscriptions ≡ 1
unfolding subscribe_stocks subscribe_added subscribe_stock unsubscribe_stocks unsubscribe_stock
    each_of periods_of receive activate suspend close deliver_all arrive_all append append_one
    latest_of last_of distinct text_beq sort items_of
kept_subscribed = refl

Reachable-IsWithin_example :
    IsWithin (close_service gateway (arrive (to_stock 0 ((alpha, 8 ∷ []) ∷ []) 9) one)).1
Reachable-IsWithin_example = Reachable-IsWithin gateway (
    Reachable.closes (
      Reachable.arrives (to_stock 0 ((alpha, 8 ∷ []) ∷ []) 9) (
        Reachable.stock_subscribes (alpha ∷ alpha ∷ []) tick
          (Reachable.starts 1 1 4 create_fresh))))
