-- ===== src/Backtest/Engine/Bars.antt =====
-- What the engine does with the bars of an event (src/backtest/engine.py).
use fpro_v.Base.{
  ◌+◌, Bool, true, false, not, ◌||◌, Option, none, some, List, [], ◌∷◌, ◌++◌, map, filter, foldl,
  if◌then◌else◌, ltb, ◌==◌, length, distinct, is_some, Text, text_eq, Date, Datetime, date_of,
  nat_eq, Dict, lookup, insert, Result, ok, raise, bind, ⊤, data_error,
}
use fpro_v.Base.Host.{Host, ◌⊴◌, zero_f, is_finite}
use fpro_v.Base.Method.{Method, ◌>>=◌, pure, gets, reads, modify}
use fpro_v.MarketData.Identity.{History as Identities}
use fpro_v.Backtest.Clock.{Event}
use fpro_v.Backtest.Schedule.{is_bar}
use fpro_v.Backtest.Config.{BacktestConfig}
use fpro_v.Backtest.Domain.{Bar, Fill}
use fpro_v.Backtest.Portfolio.State.{Key, key_eq, code, identity, account_snapshot}
use fpro_v.Backtest.Portfolio.Trading.{apply_fill, mark_to_market}
use fpro_v.Backtest.Broker.State.{pending_symbols}
use fpro_v.Backtest.Broker.Matching.{match_bar}
use fpro_v.Backtest.CorporateActions.Sessions.{World, on_portfolio, on_broker}
use fpro_v.Backtest.Engine.{BarRow, Reader, Engine, on_world}

-- whether an earlier bar of the security started after `start`, and whether none started then or later
abbrev pub is_stale : Option Datetime → Datetime → Bool
is_stale none start = false
is_stale (some previous) start = ltb start previous

abbrev pub is_new : Option Datetime → Datetime → Bool
is_new none start = true
is_new (some previous) start = ltb previous start

module _ {F : Type 0} where
  abbrev pub bar_of : BarRow F → Bar F
  bar_of row = record {
    symbol = row.symbol;
    interval_start = row.interval_start;
    open_price = row.open_price;
    close = row.close;
  }

  -- the loop of `_read_bars`
  unfoldable pub collect_bars :
      Option Identities
      → Date
      → Dict Key Datetime
      → List (BarRow F)
      → Dict Text (Bar F)
      → Result (Dict Text (Bar F))
  collect_bars h start_date last_starts [] bars = ok bars
  collect_bars h start_date last_starts (row ∷ rows) bars =
      let skipped = collect_bars h start_date last_starts rows bars in
      let taken =
        collect_bars h start_date last_starts rows (insert row.symbol (bar_of row) bars) in
      if ltb (date_of row.interval_start) start_date
      then skipped
      else bind (identity h (code row.symbol)) λ key.
        if is_stale (lookup key last_starts) row.interval_start
        then skipped
        else if is_some (lookup row.symbol bars)
        then raise data_error
        else taken

  -- the bars that start later than any earlier bar of their security, with its identity
  unfoldable pub new_bars :
      Option Identities → Dict Key Datetime → Dict Text (Bar F) → Result (List (Key × Bar F))
  new_bars h last_starts [] = ok []
  new_bars h last_starts ((symbol, bar) ∷ bars) = bind (identity h (code symbol)) λ key.
      bind (new_bars h last_starts bars) λ rest.
        ok (if is_new (lookup key last_starts) bar.interval_start then (key, bar) ∷ rest else rest)

  -- what is counted of new bars
  unfoldable pub count_bars : {S : Type 0} → List (Key × Bar F) → Engine F S → Engine F S
  count_bars [] e = e
  count_bars (first ∷ rest) e =
      let bars = first ∷ rest in
      record e {
        bar_count = e.bar_count + length bars;
        events_with_bars = e.events_with_bars + 1;
        sessions_with_bars =
            distinct
              (e.sessions_with_bars ++ map (λ (x : Key × Bar F). date_of x.1.interval_start) bars);
        symbols_with_bars =
            distinct (e.symbols_with_bars ++ map (λ (x : Key × Bar F). x.1.symbol) bars);
        last_bar_starts =
            foldl (λ d (x : Key × Bar F). insert x.0 x.1.interval_start d) e.last_bar_starts bars;
      }

module _ {F : Type 0} ⦃host : Host F⦄ where
  -- the prices of an event
  abbrev pub add_price : Text → Option F → Dict Text F → Result (Dict Text F)
  add_price symbol none prices = ok prices
  add_price symbol (some close) prices =
      if not (is_finite close) || (close ⊴ zero_f)
      then raise data_error
      else ok (insert symbol close prices)

  unfoldable pub collect_prices : Dict Text (Bar F) → Dict Text F → Result (Dict Text F)
  collect_prices [] prices = ok prices
  collect_prices ((symbol, bar) ∷ bars) prices =
      bind (add_price symbol bar.close prices) (collect_prices bars)

  -- `_read_bars`
  unfoldable pub read_bars :
      BacktestConfig F → Reader F → Event → {S : Type 0} → Engine F S → Result (Dict Text (Bar F))
  read_bars config reader event e =
      bind (reader.bars event.at config.symbols event.frequency event.interval_start event.at)
        λ rows.
          collect_bars e.world.portfolio.identities config.start_date e.last_bar_starts rows []

  -- `for fill in fills`
  unfoldable pub apply_fills : List (Fill F) → Method (World F) ⊤
  apply_fills [] = pure tt
  apply_fills (fill ∷ fills) = do _ ← on_portfolio (apply_fill fill); apply_fills fills

  -- the bars that start with the event
  abbrev pub opening_bars : Event → Dict Text (Bar F) → Dict Text (Bar F)
  opening_bars event bars = filter (λ x. x.1.interval_start == event.interval_start) bars

  abbrev pub match_pending : Reader F → Event → Dict Text (Bar F) → List Text → Method (World F) ⊤
  match_pending reader event bars [] = pure tt
  match_pending reader event bars (_ ∷ _) = do
    account ← gets (λ w. account_snapshot w.portfolio)
    fills ←
        on_broker
          (match_bar event (opening_bars event bars) account (reader.view event.interval_start))
    apply_fills fills

  -- the matching of a bar, not of an auction
  abbrev pub match_event : Bool → Reader F → Event → Dict Text (Bar F) → Method (World F) ⊤
  match_event false reader event bars = pure tt
  match_event true reader event bars = do
    symbols ← reads (λ w. pending_symbols w.broker)
    match_pending reader event bars symbols

  -- `_process_bar`
  unfoldable pub process_bar :
      {S : Type 0} → BacktestConfig F → Reader F → Event → Method (Engine F S) ⊤
  process_bar config reader event = do
    bars ← reads (λ e. read_bars config reader event e)
    fresh ← reads (λ e. new_bars e.world.portfolio.identities e.last_bar_starts bars)
    _ ← modify (count_bars fresh)
    prices ← reads (λ e. collect_prices bars [])
    _ ← on_world (match_event (is_bar event) reader event bars)
    on_world (on_portfolio (mark_to_market prices))
