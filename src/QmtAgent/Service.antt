-- ===== src/QmtAgent/Service.antt =====
-- `QmtMarketService`: the subscriptions, their callbacks and the caches (src/qmt_agent/service.py).
-- An operation runs under its lock; what XtData calls back meanwhile, from its own thread, is part of the
-- answer of the gateway. The callback objects are the entries of two lists; a subscription and the
-- gateway know one by its place.
pub mod Callbacks
pub mod Operations
pub mod Closing
pub mod Latest
pub mod Limits
mod Tests
use fpro_v.Base.{
  ℕ, suc, ◌+◌, Bool, true, false, not, ◌&&◌, ◌||◌, Option, none, some, List, [], ◌∷◌, ◌++◌, map,
  filter, foldl, if◌then◌else◌, any, ltb, leb, ◌==◌, length, get_elem?, set, sort, distinct, member,
  is_some, Text, codes, text_eq, text_ltb, ◌=?◌, Dict, lookup, insert, erase, Result, ok, raise,
  bind, ⊤, Error, value_error, runtime_error,
}
use fpro_v.Base.Method.{Method, continue, ◌>>=◌, ◌>>◌, pure, gets, reads, modify, raise_if}
use fpro_v.QuoteSequence.Defs.{Buffer, Origin, QuoteSource, append, init as new_buffer}
use fpro_v.QmtAgent.Callback.{Gate, new_gate, suspend, close, receive, activate}

-- `MarketQuotePush` and `StockQuotePush`
abbrev pub MarketPush : Type 0 → Type 0
MarketPush Q = Dict Text Q

abbrev pub StockPush : Type 0 → Type 0
StockPush Q = Dict Text (List Q)

-- a callback: the place of its object, the quotes and the time
pub data Arrival (Q : Type 0) : Type 0 where
  to_market : ℕ → MarketPush Q → ℕ → Arrival Q
  to_stock : ℕ → StockPush Q → ℕ → Arrival Q

-- `MarketDataGateway`: what it answers, and the callbacks that arrive before it does
pub record Gateway (G Q : Type 0) : Type 0 where
  pub subscribe_market_quote : Text → ℕ → G → (Result ℕ × List (Arrival Q)) × G
  pub subscribe_stock_quote : Text → Text → ℕ → G → (Result ℕ × List (Arrival Q)) × G
  pub unsubscribe : ℕ → G → (Result ⊤ × List (Arrival Q)) × G

pub record MarketSubscription : Type 0 where
  pub subscription_id : ℕ
  pub callback : ℕ

pub record StockSubscription : Type 0 where
  pub subscription_id : ℕ
  pub period : Text
  pub callback : ℕ

-- a callback object of a market, and one of a stock and a period
pub record MarketCallback (Q : Type 0) : Type 0 where
  pub gate : Gate (MarketPush Q)
  pub market : Text

pub record StockCallback (Q : Type 0) : Type 0 where
  pub gate : Gate (StockPush Q)
  pub stock : Text
  pub period : Text

pub record Service (G Q : Type 0) : Type 0 where
  pub buffer : Buffer Q
  pub max_stock_subscriptions : ℕ
  pub market_subscriptions : Dict Text MarketSubscription
  pub stock_subscriptions : Dict Text StockSubscription
  pub market_callbacks : List (MarketCallback Q)
  pub stock_callbacks : List (StockCallback Q)
  pub market_quotes : Dict Text (Dict Text Q)
  pub market_quote_updated_at : Dict Text (Dict Text ℕ)
  pub stock_quotes : Dict Text (Dict Text Q)
  pub stock_quote_updated_at : Dict Text (Dict Text ℕ)
  pub outside : G

pub record MarketResponse : Type 0 where
  pub subscribed : List Text
  pub added : List Text
  pub removed : List Text
  pub not_found : List Text

pub record StockResponse : Type 0 where
  pub periods : Dict Text Text
  pub subscribed : List Text
  pub added : List Text
  pub updated : List Text
  pub removed : List Text
  pub not_found : List Text
  pub period_mismatches : Dict Text Text

pub record LatestQuotes (Q : Type 0) : Type 0 where
  pub quotes : Dict Text Q
  pub periods : Dict Text Text
  pub updated_at : Dict Text ℕ

module _ {G Q : Type 0} where
  -- `__init__`
  unfoldable pub create : G → ℕ → ℕ → Result (Service G Q)
  create outside max_stock_subscriptions quote_buffer_capacity =
      if not (leb 1 max_stock_subscriptions && leb max_stock_subscriptions 50)
      then raise value_error
      else bind (new_buffer quote_buffer_capacity) λ buffer. ok (record {
        buffer = buffer;
        max_stock_subscriptions = max_stock_subscriptions;
        market_subscriptions = [];
        stock_subscriptions = [];
        market_callbacks = [];
        stock_callbacks = [];
        market_quotes = [];
        market_quote_updated_at = [];
        stock_quotes = [];
        stock_quote_updated_at = [];
        outside = outside;
      })
