-- ===== src/QmtAgent/Service/Callbacks.antt =====
-- The handlers of the quotes and the callback objects (src/qmt_agent/service.py).
use fpro_v.Base.{
  all, member, Bool, ◌&&◌, ℕ, Option, none, some, List, [], ◌∷◌, ◌++◌, map, foldl, get_elem?, set,
  Text, codes, text_eq, Dict, lookup, insert, erase, Result, ok, raise, ⊤,
}
use fpro_v.Base.Method.{Method}
use fpro_v.QuoteSequence.Defs.{QuoteSource, append}
use fpro_v.QmtAgent.Callback.{Gate, suspend, close, receive, activate}
use fpro_v.QmtAgent.Service.{
  MarketPush, StockPush, Arrival, to_market, to_stock, MarketCallback, StockCallback, Service,
}

-- `d.update(other)`, `d.get(key, {})` and `dict.fromkeys(other, value)`
abbrev pub update {κ} : {V : Type κ} → Dict Text V → Dict Text V → Dict Text V
update d other = foldl (λ e item. insert item.0 item.1 e) d other

abbrev pub or_empty {κ} : {V : Type κ} → Option (Dict Text V) → Dict Text V
or_empty none = []
or_empty (some d) = d

abbrev pub from_keys {κ} : {V : Type κ} → ℕ → Dict Text V → Dict Text ℕ
from_keys value d = map (λ item. (item.0, value)) d

abbrev pub keys {κ} : {V : Type κ} → Dict Text V → List Text
keys d = map (λ item. item.0) d

-- the test that two collections have the same members
abbrev pub same_set : List Text → List Text → Bool
same_set xs ys = all (λ x. member x ys) xs && all (λ y. member y xs) ys

-- `rows[-1]` of the rows of a code, if there are any
unfoldable pub last_of {ℓ} : {A : Type ℓ} → List A → Option A
last_of [] = none
last_of (x ∷ []) = some x
last_of (x ∷ y ∷ ys) = last_of (y ∷ ys)

abbrev pub add_latest {ℓ} : {Q : Type ℓ} → Text → Option Q → Dict Text Q → Dict Text Q
add_latest code none rest = rest
add_latest code (some quote) rest = (code, quote) ∷ rest

unfoldable pub latest_of {ℓ} : {Q : Type ℓ} → Dict Text (List Q) → Dict Text Q
latest_of [] = []
latest_of ((code, rows) ∷ quotes) = add_latest code (last_of rows) (latest_of quotes)

unfoldable pub items_of {ℓ} : {Q : Type ℓ} → Dict Text (List Q) → List (Text × Q)
items_of [] = []
items_of ((code, rows) ∷ quotes) = map (λ quote. (code, quote)) rows ++ items_of quotes

-- a method, and what is done before its exception goes on
abbrev pub raising_after : {S : Type 0} {A : Type 0} → Result A → (S → S) → S → Result A × S
raising_after (ok a) cleanup s = (ok a, s)
raising_after (raise e) cleanup s = (raise e, cleanup s)

abbrev pub attempt : {S A : Type 0} → Method S A → (S → S) → Method S A
attempt m cleanup s = let (answer, s') = m s in raising_after answer cleanup s'

module _ {G Q : Type 0} where
  -- `_on_market_quotes`
  abbrev pub on_market_quotes : Text → MarketPush Q → ℕ → Method (Service G Q) ⊤
  on_market_quotes market [] received_at s = (ok tt, s)
  on_market_quotes market (quote ∷ quotes) received_at s = (
    ok tt,
    record s {
      buffer =
          append
            (record {
              source = QuoteSource.market;
              subscription = market;
              period = codes "tick";
              received_at = received_at;
            })
            (quote ∷ quotes) s.buffer;
      market_quotes =
          insert market (update (or_empty (lookup market s.market_quotes)) (quote ∷ quotes))
            s.market_quotes;
      market_quote_updated_at =
          insert market
            (update (or_empty (lookup market s.market_quote_updated_at))
              (from_keys received_at (quote ∷ quotes)))
            s.market_quote_updated_at;
    },
  )

  -- `_on_stock_quotes`, by its list of items
  abbrev pub on_stock_items :
      Text → Text → List (Text × Q) → Dict Text Q → ℕ → Service G Q → Service G Q
  on_stock_items stock period [] latest received_at s = s
  on_stock_items stock period (item ∷ items) latest received_at s = record s {
    buffer =
        append
          (record {
            source = QuoteSource.stock;
            subscription = stock;
            period = period;
            received_at = received_at;
          })
          (item ∷ items) s.buffer;
    stock_quotes =
        insert stock (update (or_empty (lookup stock s.stock_quotes)) latest) s.stock_quotes;
    stock_quote_updated_at =
        insert stock
          (update (or_empty (lookup stock s.stock_quote_updated_at)) (from_keys received_at latest))
          s.stock_quote_updated_at;
  }

  abbrev pub on_stock_quotes : Text → Text → StockPush Q → ℕ → Method (Service G Q) ⊤
  on_stock_quotes stock period quotes received_at s =
      (ok tt, on_stock_items stock period (items_of quotes) (latest_of quotes) received_at s)

  -- a method of a callback object, and the object that it leaves
  abbrev pub put_market : ℕ → MarketCallback Q → Gate (MarketPush Q) × Service G Q → Service G Q
  put_market place c (gate, s) = record s {
    market_callbacks = set s.market_callbacks place (record c { gate = gate });
  }

  abbrev pub put_stock : ℕ → StockCallback Q → Gate (StockPush Q) × Service G Q → Service G Q
  put_stock place c (gate, s) = record s {
    stock_callbacks = set s.stock_callbacks place (record c { gate = gate });
  }

  abbrev pub at_market :
      ℕ
      → Option (MarketCallback Q)
      → (MarketCallback Q → Service G Q → Gate (MarketPush Q) × Service G Q)
      → Service G Q
      → Service G Q
  at_market place none m s = s
  at_market place (some c) m s = put_market place c (m c s)

  abbrev pub at_stock :
      ℕ
      → Option (StockCallback Q)
      → (StockCallback Q → Service G Q → Gate (StockPush Q) × Service G Q)
      → Service G Q
      → Service G Q
  at_stock place none m s = s
  at_stock place (some c) m s = put_stock place c (m c s)

  abbrev pub with_market :
      ℕ
      → (MarketCallback Q → Service G Q → Gate (MarketPush Q) × Service G Q)
      → Service G Q
      → Service G Q
  with_market place m s = at_market place (get_elem? s.market_callbacks place) m s

  abbrev pub with_stock :
      ℕ
      → (StockCallback Q → Service G Q → Gate (StockPush Q) × Service G Q)
      → Service G Q
      → Service G Q
  with_stock place m s = at_stock place (get_elem? s.stock_callbacks place) m s

  abbrev pub activate_market : ℕ → Service G Q → Service G Q
  activate_market place s =
      with_market place (λ c s. activate (on_market_quotes c.market) c.gate s) s

  abbrev pub activate_stock : ℕ → Service G Q → Service G Q
  activate_stock place s =
      with_stock place (λ c s. activate (on_stock_quotes c.stock c.period) c.gate s) s

  abbrev pub suspend_market : ℕ → Service G Q → Service G Q
  suspend_market place s = with_market place (λ c s. (suspend c.gate, s)) s

  abbrev pub suspend_stock : ℕ → Service G Q → Service G Q
  suspend_stock place s = with_stock place (λ c s. (suspend c.gate, s)) s

  abbrev pub close_market : ℕ → Service G Q → Service G Q
  close_market place s = with_market place (λ c s. (close c.gate, s)) s

  abbrev pub close_stock : ℕ → Service G Q → Service G Q
  close_stock place s = with_stock place (λ c s. (close c.gate, s)) s

  -- a callback of XtData
  abbrev pub arrive : Arrival Q → Service G Q → Service G Q
  arrive (to_market place quotes received_at) s =
      with_market place (λ c s. receive (on_market_quotes c.market) quotes received_at c.gate s) s
  arrive (to_stock place quotes received_at) s =
      with_stock place
        (λ c s. receive (on_stock_quotes c.stock c.period) quotes received_at c.gate s) s

  unfoldable pub arrive_all : List (Arrival Q) → Service G Q → Service G Q
  arrive_all [] s = s
  arrive_all (arrival ∷ arrivals) s = arrive_all arrivals (arrive arrival s)

  abbrev pub ask : {A : Type 0} → (G → (Result A × List (Arrival Q)) × G) → Method (Service G Q) A
  ask call s =
      let ((answer, arrivals), outside) = call s.outside in
      (answer, arrive_all arrivals (record s { outside = outside }))

  -- `_clear_market_cache` and `_clear_stock_cache`
  abbrev pub clear_market_cache : Text → Service G Q → Service G Q
  clear_market_cache market s = record s {
    market_quotes = erase market s.market_quotes;
    market_quote_updated_at = erase market s.market_quote_updated_at;
  }

  abbrev pub clear_stock_cache : Text → Service G Q → Service G Q
  clear_stock_cache stock s = record s {
    stock_quotes = erase stock s.stock_quotes;
    stock_quote_updated_at = erase stock s.stock_quote_updated_at;
  }
