-- ===== src/Backtest/Broker/Lifecycle.antt =====
-- Every history of a simulated broker (src/backtest/broker.py), as a sequence of its operations.
use fpro_v.Base.{ℕ, ◌≡◌, ◌≤◌, List, count, Text, Dict, Date, Datetime, Option, ok, arith}
use fpro_v.Base.Host.{Host}
use fpro_v.MarketData.Identity.{History}
use fpro_v.Backtest.Clock.{Event}
use fpro_v.Backtest.Config.{BacktestConfig}
use fpro_v.Backtest.Domain.{OrderReason, OrderRequest, Bar, AccountSnapshot, Fill}
use fpro_v.Backtest.Portfolio.State.{Key}
use fpro_v.Backtest.Broker.State.{
  Broker, create, set_session, submit, cancel, cancel_symbol, expire_all,
}
use fpro_v.Backtest.Broker.State.Accounts.{
  has_id, ends, IsAccounted, create-IsAccounted, cancel-IsAccounted, cancel_symbol-IsAccounted,
  expire_all-IsAccounted, submit-IsAccounted,
}
use fpro_v.Backtest.Broker.Market.{DataView}
use fpro_v.Backtest.Broker.Matching.{match_bar}
use fpro_v.Backtest.Broker.Matching.Bars.{match_bar-IsAccounted}

module _ {F : Type 0} ⦃host : Host F⦄ where
  -- A call of the broker; of `match_bar` only a call that returns.
  pub data Step (b : Broker F) : Broker F → Type 0 where
    submits : (request : OrderRequest F) (at : Datetime) → Step b (submit request at b).1
    cancels : (order_id : ℕ) (at : Datetime) → Step b (cancel order_id at b).1
    cancels_symbol :
        (symbol : Key) (reason : OrderReason) (at : Datetime)
        → Step b (cancel_symbol symbol reason at b).1
    expires : (at : Datetime) → Step b (expire_all at b)
    opens : (session : Date) → Step b (set_session session b)
    matches :
        (event : Event) (bars : Dict Text (Bar F)) (account : AccountSnapshot F) (view : DataView F)
        (new : List (Fill F)) {b' : Broker F}
        → match_bar event bars account view b ≡ (ok new, b')
        → Step b b'

  pub data Run (config : BacktestConfig F) (h : Option History) : Broker F → Type 0 where
    start : Run config h (create config h)
    next : {b b' : Broker F} → Run config h b → Step b b' → Run config h b'

  pub Step-IsAccounted : {b b' : Broker F} → IsAccounted b → Step b b' → IsAccounted b'
  unfolding set_session
  Step-IsAccounted {b} h (submits request at) = submit-IsAccounted request at b h
  Step-IsAccounted {b} h (cancels n at) = cancel-IsAccounted n at b h
  Step-IsAccounted {b} h (cancels_symbol symbol reason at) =
      cancel_symbol-IsAccounted symbol reason at b h
  Step-IsAccounted {b} h (expires at) = expire_all-IsAccounted at b h
  Step-IsAccounted h (opens session) = record {
    balance = h.balance;
    unique = h.unique;
    fresh = h.fresh;
  }
  Step-IsAccounted {b} {b'} h (matches event bars account view new e) =
      match_bar-IsAccounted event bars account view b b' new h e

  -- In every history of a broker in which each `match_bar` returns, no order is lost and none ends
  -- twice: of each number, the orders that wait and the closing updates together are the orders that
  -- were submitted, at most one, and none of the numbers to come was submitted.
  pub Run-IsAccounted :
      {config : BacktestConfig F} {h : Option History} {b : Broker F}
      → Run config h b
      → IsAccounted b
  Run-IsAccounted {config} {h} start = create-IsAccounted config h
  Run-IsAccounted (next run step) = Step-IsAccounted (Run-IsAccounted run) step

  -- If in such a history the waiting orders expire, then none of a number waits any more, and the
  -- closing updates of the number are as many as the orders submitted under it, at most one.
  pub Run-ends :
      {config : BacktestConfig F} {h : Option History} {b : Broker F} (n : ℕ) (at : Datetime)
      → Run config h b
      → let b' = expire_all at b in
        (count (has_id n) b'.pending ≡ 0)
        × (count (ends n) b'.updates ≡ count (has_id n) b.orders)
        × (count (ends n) b'.updates ≤ 1)
  unfolding expire_all
  Run-ends {b = b} n at run =
      let closed = expire_all-IsAccounted at b (Run-IsAccounted run) in
      (
        omega arith,
        omega (arith, closed.balance n),
        omega (arith, closed.balance n, closed.unique n),
      )
