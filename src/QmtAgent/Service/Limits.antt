-- ===== src/QmtAgent/Service/Limits.antt =====
-- The number of stock subscriptions stays within its limit (src/qmt_agent/service.py).
pub mod Steps
pub mod Operations
pub mod Histories
use fpro_v.Base.{
  ℕ, suc, ◌+◌, ◌≤◌, ◌≡◌, refl, sym, ap, ◌∙◌, Bool, true, false, not, Option, none, some, List, [],
  ◌∷◌, ◌++◌, arith, if◌then◌else◌, ltb, leb, length, get_elem?, sort, insert_sorted, distinct,
  filter, Text, text_ltb, text_eq, ◌=?◌, Dict, lookup, insert, erase, Result, ok, raise, bind,
  bind-eq-ok, ok-injective, ⊤, Error, value_error, Bool-cases, Result-cases, Option-cases, inl, inr,
  any,
}
use fpro_v.Base.Method.{Method, continue, ◌>>=◌, ◌>>◌, pure, gets, modify, raise_if}
use fpro_v.QuoteSequence.Defs.{init as new_buffer}
use fpro_v.QmtAgent.Callback.{
  GateState, Gate, suspend, close, receive, receive_in, activate, activate_from, deliver,
  deliver_all,
}
use fpro_v.QmtAgent.Service.{
  MarketPush, StockPush, Arrival, to_market, to_stock, Gateway, MarketSubscription,
  StockSubscription, MarketCallback, StockCallback, Service, create,
}
use fpro_v.QmtAgent.Service.Callbacks.{
  on_market_quotes, on_stock_quotes, on_stock_items, items_of, latest_of, with_market, with_stock,
  at_market, at_stock, arrive, arrive_all, ask, attempt, activate_market, activate_stock,
  suspend_market, suspend_stock, close_market, close_stock, clear_market_cache, clear_stock_cache,
}

module _ {G Q : Type 0} where
  -- the subscriptions and their limit, from a state to a later one: at most `n` more
  pub record Adds (n : ℕ) (s t : Service G Q) : Type 0 where
    pub limit : t.max_stock_subscriptions ≡ s.max_stock_subscriptions
    pub few : length t.stock_subscriptions ≤ length s.stock_subscriptions + n

  pub Adds-refl : (s : Service G Q) → Adds 0 s s
  Adds-refl s = record { limit = refl; few = omega arith }

  pub Adds-trans : (n m : ℕ) (s t u : Service G Q) → Adds n s t → Adds m t u → Adds (n + m) s u
  Adds-trans n m s t u a b = record { limit = b.limit ∙ a.limit; few = omega (arith, a.few, b.few) }

  pub Adds-more : (n m : ℕ) (s t : Service G Q) → n ≤ m → Adds n s t → Adds m s t
  Adds-more n m s t h a = record { limit = a.limit; few = omega (arith, a.few) }

  pub Adds-two : (s t u : Service G Q) → Adds 0 s t → Adds 0 t u → Adds 0 s u
  Adds-two s t u a b = Adds-trans 0 0 s t u a b

  Adds-on_market_quotes :
      (market : Text) (quotes : MarketPush Q) (at : ℕ) (s : Service G Q)
      → Adds 0 s (on_market_quotes market quotes at s).1
  Adds-on_market_quotes market [] at s = Adds-refl s
  Adds-on_market_quotes market (_ ∷ _) at s = record { limit = refl; few = omega arith }

  Adds-on_stock_items :
      (stock period : Text) (items : List (Text × Q)) (latest : Dict Text Q) (at : ℕ)
      (s : Service G Q)
      → Adds 0 s (on_stock_items stock period items latest at s)
  Adds-on_stock_items stock period [] latest at s = Adds-refl s
  Adds-on_stock_items stock period (_ ∷ _) latest at s = record { limit = refl; few = omega arith }

  -- a handler that adds none, through the calls of a gate
  module _ {P : Type 0} (handler : P → ℕ → Method (Service G Q) ⊤)
      (h : (quotes : P) (at : ℕ) (s : Service G Q) → Adds 0 s (handler quotes at s).1) where
    Adds-deliver_all :
        (calls : List (P × ℕ)) (s : Service G Q) → Adds 0 s (deliver_all handler calls s)
    unfolding deliver_all
    Adds-deliver_all [] s = Adds-refl s
    Adds-deliver_all ((quotes, at) ∷ calls) s =
        Adds-two s _ _ (h quotes at s) (Adds-deliver_all calls (handler quotes at s).1)

    Adds-receive_in :
        (state : GateState) (quotes : P) (at : ℕ) (g : Gate P) (s : Service G Q)
        → Adds 0 s (receive_in handler state (quotes, at) g s).1
    Adds-receive_in GateState.closed quotes at g s = Adds-refl s
    Adds-receive_in GateState.pending quotes at g s = Adds-refl s
    Adds-receive_in GateState.active quotes at g s = h quotes at s

    Adds-activate_from :
        (state : GateState) (g : Gate P) (s : Service G Q)
        → Adds 0 s (activate_from handler state g s).1
    Adds-activate_from GateState.closed g s = Adds-refl s
    Adds-activate_from GateState.pending g s = Adds-deliver_all g.waiting s
    Adds-activate_from GateState.active g s = Adds-deliver_all g.waiting s

  Adds-with_market :
      (place : ℕ) (m : MarketCallback Q → Service G Q → Gate (MarketPush Q) × Service G Q)
      (s : Service G Q)
      → ((c : MarketCallback Q) → Adds 0 s (m c s).1)
      → Adds 0 s (with_market place m s)
  Adds-with_market place m s h = elim (Option-cases (get_elem? s.market_callbacks place)) [
    | inl nothing ↦ rw nothing (Adds-refl s)
    | inr (c, found) ↦ rw found (record { limit = (h c).limit; few = (h c).few })
  ]

  Adds-with_stock :
      (place : ℕ) (m : StockCallback Q → Service G Q → Gate (StockPush Q) × Service G Q)
      (s : Service G Q)
      → ((c : StockCallback Q) → Adds 0 s (m c s).1)
      → Adds 0 s (with_stock place m s)
  Adds-with_stock place m s h = elim (Option-cases (get_elem? s.stock_callbacks place)) [
    | inl nothing ↦ rw nothing (Adds-refl s)
    | inr (c, found) ↦ rw found (record { limit = (h c).limit; few = (h c).few })
  ]

  pub Adds-arrive : (arrival : Arrival Q) (s : Service G Q) → Adds 0 s (arrive arrival s)
  unfolding receive
  Adds-arrive (to_market place quotes at) s = Adds-with_market place _ s (λ c.
      Adds-receive_in (on_market_quotes c.market) (Adds-on_market_quotes c.market) c.gate.state
        quotes at c.gate s)
  Adds-arrive (to_stock place quotes at) s = Adds-with_stock place _ s (λ c.
      Adds-receive_in (on_stock_quotes c.stock c.period)
        (λ quotes at s.
          Adds-on_stock_items c.stock c.period (items_of quotes) (latest_of quotes) at s)
        c.gate.state quotes at c.gate s)

  pub Adds-arrive_all :
      (arrivals : List (Arrival Q)) (s : Service G Q) → Adds 0 s (arrive_all arrivals s)
  unfolding arrive_all
  Adds-arrive_all [] s = Adds-refl s
  Adds-arrive_all (arrival ∷ arrivals) s =
      Adds-two s _ _ (Adds-arrive arrival s) (Adds-arrive_all arrivals (arrive arrival s))

  pub Adds-activate_market : (place : ℕ) (s : Service G Q) → Adds 0 s (activate_market place s)
  unfolding activate
  Adds-activate_market place s = Adds-with_market place _ s (λ c.
      Adds-activate_from (on_market_quotes c.market) (Adds-on_market_quotes c.market) c.gate.state
        c.gate s)

  pub Adds-activate_stock : (place : ℕ) (s : Service G Q) → Adds 0 s (activate_stock place s)
  unfolding activate
  Adds-activate_stock place s = Adds-with_stock place _ s (λ c.
      Adds-activate_from (on_stock_quotes c.stock c.period)
        (λ quotes at s.
          Adds-on_stock_items c.stock c.period (items_of quotes) (latest_of quotes) at s)
        c.gate.state c.gate s)

  pub Adds-suspend_market : (place : ℕ) (s : Service G Q) → Adds 0 s (suspend_market place s)
  Adds-suspend_market place s = Adds-with_market place _ s (λ c. Adds-refl s)

  pub Adds-suspend_stock : (place : ℕ) (s : Service G Q) → Adds 0 s (suspend_stock place s)
  Adds-suspend_stock place s = Adds-with_stock place _ s (λ c. Adds-refl s)

  pub Adds-close_market : (place : ℕ) (s : Service G Q) → Adds 0 s (close_market place s)
  Adds-close_market place s = Adds-with_market place _ s (λ c. Adds-refl s)

  pub Adds-close_stock : (place : ℕ) (s : Service G Q) → Adds 0 s (close_stock place s)
  Adds-close_stock place s = Adds-with_stock place _ s (λ c. Adds-refl s)
