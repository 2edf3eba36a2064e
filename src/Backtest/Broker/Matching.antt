-- ===== src/Backtest/Broker/Matching.antt =====
-- `match_bar`: the pending orders against one complete bar (src/backtest/broker.py).
pub mod Rounds
pub mod Bars
use fpro_v.Base.{
  ℕ, suc, ◌≡◌, ◌-◌, Bool, true, false, ◌&&◌, ◌||◌, not, Option, none, some, List, [], ◌∷◌, ◌++◌,
  map, filter, foldl, length, if◌then◌else◌, ◌==◌, ltb, leb, Text, codes, text_eq, text_ltb,
  decimal_text, replicate, ◌=?◌, Dict, lookup, insert, sort, Date, Datetime, date_of, Result, ok,
  raise, bind, ⊤, assertion_error,
}
use fpro_v.Base.Int.{ℤ, pos, ◌-ℤ◌, eqb_ℤ}
use fpro_v.Base.Host.{Host, ◌⊕◌, ◌⊖◌}
use fpro_v.Base.Method.{Method, continue, ◌>>=◌, ◌>>◌, pure, raising, gets, reads, modify, raise_if}
use fpro_v.Backtest.Clock.{Event}
use fpro_v.Backtest.Config.{BacktestConfig}
use fpro_v.Backtest.Domain.{
  Side, OrderStatus, OrderReason, Order, OrderUpdate, Bar, MarketStatus, PriceLimitStatus, Fill,
  Holding, AccountSnapshot,
}
use fpro_v.MarketData.Identity.{sorted_set}
use fpro_v.Backtest.Portfolio.Trading.{total_fee}
use fpro_v.Backtest.Broker.Execution.{Execution, is_buy, executable_quantity, make_fill, open_of}
use fpro_v.Backtest.Broker.State.{Broker, trading_symbol, symbols_of, update_of}
use fpro_v.Backtest.Broker.Market.{
  StatusRow, VolumeRow, DataView, limit_status, order_label, shares_for, status_of, market_statuses,
  status_for, add_volume, volumes_from, previous_volumes, volume_for, start_for, comes_first,
  status_after, is_due, due_orders, later_orders,
}

-- What is read before the loop, and what the loop carries: the cash and the sellable shares.
pub record Market (F : Type 0) : Type 0 where
  pub event : Event
  pub bars : Dict Text (Bar F)
  pub statuses : Dict Text (MarketStatus F)
  pub volumes : Dict Text (Option F)

pub record Budget (F : Type 0) : Type 0 where
  pub cash : F
  pub sellable : Dict Text ℤ

module _ {F : Type 0} ⦃host : Host F⦄ where
  abbrev pub log_update : OrderUpdate F → Method (Broker F) ⊤
  log_update u = modify (λ b. record b { updates = b.updates ++ (u ∷ []) })

  -- `_executable_quantity` at the order's place in the loop
  unfoldable pub assess :
      BacktestConfig F → Market F → Budget F → Order F → Text → Result (Execution F)
  assess config m budget order symbol =
      let bar = lookup symbol m.bars in
      executable_quantity config (record order { symbol = symbol }) bar
        (status_for (lookup symbol m.statuses) symbol) (volume_for (lookup symbol m.volumes))
        budget.cash (shares_for (lookup symbol budget.sellable)) (date_of (start_for bar m.event))

  -- the budget after a fill
  unfoldable pub spend : Budget F → Side → Text → Fill F → Budget F
  spend budget Side.buy symbol fill = record budget {
    cash = budget.cash ⊖ (fill.notional ⊕ total_fee fill);
  }
  spend budget Side.sell symbol fill = record {
    cash = budget.cash ⊕ (fill.notional ⊖ total_fee fill);
    sellable =
        insert symbol (shares_for (lookup symbol budget.sellable) -ℤ fill.quantity) budget.sellable;
  }

  -- the body of the loop once the quantity is known: the next budget and the new fill
  unfoldable pub execute :
      Market F
      → Budget F
      → Order F
      → Text
      → ℤ
      → OrderReason
      → F
      → Option (Bar F)
      → Option F
      → Method (Broker F) (Budget F × List (Fill F))
  execute m budget order symbol quantity reason price (some bar) (some open_price) = do
    fill ← gets (λ b.
        make_fill b.config b.next_fill_id (record order { symbol = symbol }) bar.interval_start
          quantity open_price price)
    modify (λ b. record b { next_fill_id = suc b.next_fill_id })
    log_update (update_of (status_after order quantity) bar.interval_start quantity reason order)
    pure (spend budget order.side symbol fill, fill ∷ [])
  execute m budget order symbol quantity reason price _ _ = raising assertion_error

  unfoldable pub leave :
      Market F → Budget F → Order F → OrderReason → Method (Broker F) (Budget F × List (Fill F))
  leave m budget order reason = do
    log_update (update_of OrderStatus.not_filled m.event.at (pos 0) reason order)
    pure (budget, [])

  unfoldable pub conclude :
      Market F
      → Budget F
      → Order F
      → Text
      → ℤ
      → OrderReason
      → Option F
      → Method (Broker F) (Budget F × List (Fill F))
  conclude m budget order symbol quantity reason none = leave m budget order reason
  conclude m budget order symbol quantity reason (some price) =
      if eqb_ℤ quantity (pos 0)
      then leave m budget order reason
      else execute m budget order symbol quantity reason price (lookup symbol m.bars)
          (open_of (lookup symbol m.bars))

  -- one round of the loop
  unfoldable pub match_order :
      Market F → Budget F → Order F → Method (Broker F) (Budget F × List (Fill F))
  match_order m budget order = do
    symbol ← reads (λ b. trading_symbol b.identities order m.event.session)
    e ← reads (λ b. assess b.config m budget order symbol)
    conclude m budget order symbol e.quantity e.reason e.price

  unfoldable pub match_orders :
      Market F → Budget F → List (Order F) → Method (Broker F) (List (Fill F))
  match_orders m budget [] = pure []
  match_orders m budget (order ∷ orders) = do
    (budget', new) ← match_order m budget order
    rest ← match_orders m budget' orders
    pure (new ++ rest)

  -- the reads of the market data before the loop
  unfoldable pub read_market :
      Event → Dict Text (Bar F) → DataView F → List (Order F) → Broker F → Result (Market F)
  read_market event bars data_view orders b =
      bind (symbols_of b.identities event.session orders) (λ cs.
        bind (market_statuses data_view (sorted_set cs)) (λ statuses.
          bind
            (previous_volumes b.config data_view (sorted_set cs) event.frequency
              event.interval_start)
            (λ volumes.
              ok (record { event = event; bars = bars; statuses = statuses; volumes = volumes }))))

  abbrev pub budget_of : AccountSnapshot F → Budget F
  budget_of account = record {
    cash = account.cash;
    sellable =
        foldl (λ d (holding : Holding F). insert holding.symbol holding.sellable_quantity d) []
          account.holdings;
  }

  -- the matching of the orders that are due, from the reads to the end
  unfoldable pub match_due :
      Event
      → Dict Text (Bar F)
      → AccountSnapshot F
      → DataView F
      → List (Order F)
      → Method (Broker F) (List (Fill F))
  match_due event bars account data_view [] = pure []
  match_due event bars account data_view (order ∷ orders) = do
    m ← reads (read_market event bars data_view (order ∷ orders))
    new ← match_orders m (budget_of account) (order ∷ orders)
    modify (λ b. record b { fills = b.fills ++ new })
    pure new

  -- `match_bar`
  unfoldable pub match_bar :
      Event → Dict Text (Bar F) → AccountSnapshot F → DataView F → Method (Broker F) (List (Fill F))
  match_bar event bars account data_view = do
    due ← gets (λ b. due_orders event b.pending)
    modify (λ b. record b { pending = later_orders event b.pending })
    match_due event bars account data_view due
