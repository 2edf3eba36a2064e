-- ===== src/Backtest/CorporateActions/Tests.antt =====
-- Runs of the corporate actions in millionths (src/backtest/corporate_actions.py).
use fpro_v.Base.{
  nat_eq, ℕ, ◌≡◌, ◌≤◌, ◌<◌, ◌⊎◌, refl, Option, none, some, List, [], ◌∷◌, All, Text, codes, date,
  at_time, Date, Dict, lookup, Result, ok, raise, arith, sort, distinct,
}
use fpro_v.Base.Int.{ℤ, pos, ◌≤ℤ◌}
use fpro_v.Base.Host.{Micro, micro_host}
use fpro_v.Backtest.Domain.{CorporateAction, Holding}
use fpro_v.Backtest.Portfolio.State.{Portfolio, account_snapshot}
use fpro_v.Backtest.Portfolio.Dividends.{entitlement}
use fpro_v.Backtest.CorporateActions.Processor.{
  Processor, actions_at, create, set_sessions, session_before, ordered_sessions,
}
use fpro_v.Backtest.CorporateActions.Checks.{
  action_key, find_holding, validate, entitlement_of, is_refused,
}
use fpro_v.Backtest.CorporateActions.Filing.{filed, set_sessions_files}
use fpro_v.Backtest.CorporateActions.Dates.{IsOrderly, validate-IsOrderly, entitlement_of-eq-ok}

-- A dividend that is registered on a Saturday.
abbrev dividend : CorporateAction Micro
dividend = record {
  action_id = codes "CA:1";
  symbol = codes "600000.SH";
  record_date = some (date 2024 1 6);
  ex_date = some (date 2024 1 8);
  pay_date = some (date 2024 1 9);
  listing_date = none;
  cash_dividend = some (pos 200_000);
  cash_dividend_before_tax = none;
  stock_dividend = pos 0;
  sid = none;
}

abbrev week : List Date
week = date 2024 1 9 ∷ date 2024 1 8 ∷ date 2024 1 5 ∷ date 2024 1 8 ∷ []

abbrev loaded : Processor Micro
loaded = create (dividend ∷ [])

-- The Friday before closes the register.
friday : session_before (ordered_sessions week) (date 2024 1 6) ≡ some (date 2024 1 5)
unfolding session_before ordered_sessions fpro_v.Backtest.CorporateActions.Processor.bisect_left
    sort distinct
friday = refl

saturday_filed :
    (set_sessions week (date 2024 1 1) (date 2024 1 31) loaded).record_after_close
    ≡ (date 2024 1 5, dividend ∷ []) ∷ []
unfolding set_sessions fpro_v.Backtest.CorporateActions.Processor.file_actions create
    fpro_v.Backtest.CorporateActions.Processor.index_actions ordered_sessions sort distinct
    session_before fpro_v.Backtest.CorporateActions.Processor.bisect_left
saturday_filed = refl

set_sessions_files_example :
    let ordered = ordered_sessions week in
    let q = set_sessions week (date 2024 1 1) (date 2024 1 31) loaded in
    ((s : Date)
      → actions_at (lookup s q.record_after_close)
        ≡ filed ordered (date 2024 1 1) (date 2024 1 31) (some s) loaded.records)
    × (q.record_before_start ≡ filed ordered (date 2024 1 1) (date 2024 1 31) none loaded.records)
    × ((day : Date)
        → ((session_before ordered day ≡ none) × All (λ t. day ≤ t) ordered)
          ⊎ ((s : Date) × (session_before ordered day ≡ some s)
              × (s < day)
              × All (λ t. t < day → t ≤ s) ordered))
set_sessions_files_example = set_sessions_files week (date 2024 1 1) (date 2024 1 31) loaded

dividend-validate : validate loaded dividend ≡ ok tt
unfolding validate is_refused create fpro_v.Backtest.CorporateActions.Processor.index_actions
    fpro_v.Backtest.CorporateActions.Checks.cash_per_share fpro_v.Base.Int.◌*ℤ◌
dividend-validate = refl

validate-IsOrderly_example : IsOrderly dividend
validate-IsOrderly_example = validate-IsOrderly loaded dividend dividend-validate

-- An account that never held the security has no right.
abbrev account : Portfolio Micro
account = record {
  cash = pos 10_000_000;
  identities = none;
  session = some (date 2024 1 5);
  positions = [];
  receivables = [];
  entitlements = [];
  pending_stock = [];
  last_equity = pos 10_000_000;
}

dividend-entitlement_of : entitlement_of dividend account ≡ ok (pos 0)
unfolding entitlement_of entitlement account_snapshot sort
dividend-entitlement_of = refl

entitlement_of-eq-ok_example :
    (entitlement dividend.action_id account ≡ some (pos 0))
    ⊎ ((entitlement dividend.action_id account ≡ none)
        × (◌≡◌ {A = ℤ} (pos 0) (pos 0))
        × ((h : Holding Micro)
            → find_holding (action_key dividend) (account_snapshot account).holdings ≡ some h
            → h.quantity ≤ℤ pos 0))
entitlement_of-eq-ok_example = entitlement_of-eq-ok dividend account (pos 0) dividend-entitlement_of
