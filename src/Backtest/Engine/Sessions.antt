-- ===== src/Backtest/Engine/Sessions.antt =====
-- The start and the end of a session (src/backtest/engine.py).
use fpro_v.Base.{
  Bool, false, not, ◌&&◌, Option, none, some, List, [], ◌∷◌, ◌++◌, map, filter, foldl,
  if◌then◌else◌, ltb, ◌==◌, length, sort, distinct, member, Text, codes, text_eq, text_ltb, ◌=?◌,
  Date, Datetime, date_of, Dict, lookup, insert, Result, ok, raise, bind, raise_when, ⊤, data_error,
  corporate_action_error,
}
use fpro_v.Base.Host.{Host}
use fpro_v.Base.Method.{Method, ◌>>=◌, pure, reads, modify}
use fpro_v.MarketData.Identity.{History as Identities, aliases, first_alias}
use fpro_v.Backtest.Clock.{Event}
use fpro_v.Backtest.Config.{BacktestConfig}
use fpro_v.Backtest.Domain.{OrderReason, Order, Holding}
use fpro_v.Backtest.Portfolio.State.{Key, key_eq, code, sid, identity, str_of, account_snapshot}
use fpro_v.Backtest.Portfolio.Trading.{unlock_t1, set_session, equity_snapshot}
use fpro_v.Backtest.Portfolio.Dividends.{write_off}
use fpro_v.Backtest.Broker.State.{cancel_symbol, set_session as set_broker_session}
use fpro_v.Backtest.CorporateActions.Sessions.{
  World, on_portfolio, on_broker, on_session_start, on_session_end,
}
use fpro_v.Backtest.Engine.{Engine, Reader, on_world}

-- the order of `sorted` on identities: they are all texts or all numbers
abbrev pub key_before : Key → Key → Bool
key_before (code a) (code b) = text_ltb a b
key_before (sid a) (sid b) = ltb a b
key_before (code a) (sid b) = false
key_before (sid a) (code b) = false

-- a set of identities
unfoldable pub identities_of : Option Identities → List Text → Result (List Key)
identities_of h [] = ok []
identities_of h (symbol ∷ symbols) =
    bind (identity h (code symbol)) λ key. bind (identities_of h symbols) λ keys. ok (key ∷ keys)

-- `identities.aliases(key)[0] if identities is not None else str(key)`
abbrev pub query_symbol : Option Identities → Key → Result Text
query_symbol (some h) (sid n) = bind (aliases h n) first_alias
query_symbol _ key = ok (str_of key)

unfoldable pub query_symbols : Option Identities → List Key → Result (List Text)
query_symbols h [] = ok []
query_symbols h (key ∷ keys) =
    bind (query_symbol h key) λ symbol. bind (query_symbols h keys) λ symbols. ok (symbol ∷ symbols)

unfoldable pub lifecycles_of :
    Option Identities → List (Text × Option Date) → Result (List (Key × Option Date))
lifecycles_of h [] = ok []
lifecycles_of h ((symbol, delisted) ∷ rows) =
    bind (identity h (code symbol))
      λ key. bind (lifecycles_of h rows) λ rest. ok ((key, delisted) ∷ rest)

-- a dict by identity; two rows of one identity are refused
abbrev pub unique_lifecycles : List (Key × Option Date) → Result (Dict Key (Option Date))
unique_lifecycles rows =
    let d = foldl (λ d row. insert row.0 row.1 d) [] rows in
    if length d == length rows then ok d else raise data_error

-- the day of a lifecycle that is a delisting in force
abbrev pub check_delisted : Date → Option (Option Date) → Result ⊤
check_delisted day none = raise data_error
check_delisted day (some none) = raise data_error
check_delisted day (some (some delisted)) = raise_when (ltb day delisted) data_error

module _ {F : Type 0} ⦃host : Host F⦄ where
  -- the end of a security that is no more listed
  abbrev pub settle_delisted :
      BacktestConfig F → Datetime → List Key → Dict Key (Option Date) → Key → Method (World F) ⊤
  settle_delisted config at held lifecycles key = do
    _ ← reads (λ w. check_delisted (date_of at) (lookup key lifecycles))
    _ ← reads (λ w.
        raise_when (member key held && (config.delisting_policy =? codes "error"))
          corporate_action_error)
    _ ← on_broker (cancel_symbol key OrderReason.delisted at)
    on_portfolio (write_off key)

  -- the last loop of `_check_lifecycles`
  unfoldable pub settle_each :
      BacktestConfig F
      → Datetime
      → List Key
      → Dict Key (Option Date)
      → List Key
      → Method (World F) ⊤
  settle_each config at held lifecycles [] = pure tt
  settle_each config at held lifecycles (key ∷ keys) = do
    _ ← settle_delisted config at held lifecycles key
    settle_each config at held lifecycles keys

  -- what is asked of the lifecycles, where securities are missing
  abbrev pub lifecycles_for :
      Option Identities → Reader F → List Key → Result (Dict Key (Option Date))
  lifecycles_for h reader missing = bind (query_symbols h missing) λ symbols.
      bind (reader.security_lifecycles symbols)
        λ rows. bind (lifecycles_of h rows) unique_lifecycles

  abbrev pub settle_missing :
      BacktestConfig F → Reader F → Datetime → List Key → List Key → Method (World F) ⊤
  settle_missing config reader at held [] = pure tt
  settle_missing config reader at held (key ∷ keys) = do
    lifecycles ←
        reads (λ w. lifecycles_for w.portfolio.identities reader (sort key_before (key ∷ keys)))
    settle_each config at held lifecycles (sort key_before (key ∷ keys))

  -- the identities that are held, and those that are held or ordered
  abbrev pub held_by : World F → Result (List Key)
  held_by w =
      identities_of w.portfolio.identities
        (map (λ (x : Holding F). x.symbol) (account_snapshot w.portfolio).holdings)

  abbrev pub ordered_by : World F → Result (List Key)
  ordered_by w =
      identities_of w.portfolio.identities (map (λ (o : Order F). o.symbol) w.broker.pending)

  -- `managed - {…}`
  abbrev pub missing_of : Reader F → Datetime → List Key → World F → Result (List Key)
  missing_of reader at managed w = bind (reader.listed_symbols at) λ listed.
      bind (identities_of w.portfolio.identities listed)
        λ keys. ok (filter (λ key. not (member key keys)) managed)

  -- the tests for an empty set of managed and of missing securities
  abbrev pub check_managed :
      BacktestConfig F → Reader F → Datetime → List Key → List Key → Method (World F) ⊤
  check_managed config reader at held [] = pure tt
  check_managed config reader at held (key ∷ keys) = do
    missing ← reads (missing_of reader at (key ∷ keys))
    settle_missing config reader at held missing

  -- `_check_lifecycles`
  unfoldable pub check_lifecycles : BacktestConfig F → Reader F → Datetime → Method (World F) ⊤
  check_lifecycles config reader at = do
    held ← reads held_by
    ordered ← reads ordered_by
    check_managed config reader at held (distinct (ordered ++ held))

  -- `_start_session`
  unfoldable pub start_session : BacktestConfig F → Reader F → Datetime → Method (World F) ⊤
  start_session config reader at = do
    _ ← on_portfolio unlock_t1
    _ ← on_session_start at
    _ ← check_lifecycles config reader at
    _ ← on_portfolio (set_session (date_of at))
    modify (λ w. record w { broker = set_broker_session (date_of at) w.broker })

  -- `_end_session`
  unfoldable pub end_session : {S : Type 0} → Event → Method (Engine F S) ⊤
  end_session event = do
    _ ← on_world (on_session_end event.at)
    snapshot ← on_world (on_portfolio (equity_snapshot event.session))
    modify (λ e. record e { equity = e.equity ++ (snapshot ∷ []) })
