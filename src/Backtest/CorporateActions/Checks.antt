-- ===== src/Backtest/CorporateActions/Checks.antt =====
-- The checks of an action and of its entitlement (src/backtest/corporate_actions.py).
use fpro_v.Base.{
  ℕ, Bool, false, ◌&&◌, ◌||◌, not, Option, none, some, List, [], ◌∷◌, if◌then◌else◌, ltb, leb, ◌=?◌,
  text_eq, nat_eq, Text, member, Date, Result, ok, raise, raise_when, ⊤, is_some,
  corporate_action_error,
}
use fpro_v.Base.Int.{ℤ, pos, ltb_ℤ}
use fpro_v.Base.Host.{Host, ◌⊲◌, zero_f, is_finite}
use fpro_v.Backtest.Domain.{CorporateAction, Holding}
use fpro_v.Backtest.Portfolio.State.{Key, code, sid, Portfolio, account_snapshot}
use fpro_v.Backtest.Portfolio.Dividends.{entitlement}
use fpro_v.Backtest.CorporateActions.Processor.{Processor, in_replay}

-- `action.sid if action.sid is not None else action.symbol`
abbrev pub key_named : Option ℕ → Text → Key
key_named none symbol = code symbol
key_named (some n) symbol = sid n

module _ {F : Type 0} where
  abbrev pub action_key : CorporateAction F → Key
  action_key action = key_named action.sid action.symbol

  -- `_cash_per_share`
  abbrev pub or_before_tax : Option F → Option F → Option F
  or_before_tax none before_tax = before_tax
  or_before_tax (some cash) before_tax = some cash

  unfoldable pub cash_per_share : CorporateAction F → Option F
  cash_per_share action = or_before_tax action.cash_dividend action.cash_dividend_before_tax

  -- `AccountSnapshot.holding`
  abbrev pub is_held : Key → Holding F → Bool
  is_held (code c) holding = holding.symbol =? c
  is_held (sid n) holding = elim holding.sid [ none ↦ false | some m ↦ m =? n ]

  abbrev pub find_holding : Key → List (Holding F) → Option (Holding F)
  find_holding key [] = none
  find_holding key (holding ∷ holdings) =
      if is_held key holding then some holding else find_holding key holdings

-- the tests of two dates of `_validate`, where both are given
abbrev pub is_late : Option Date → Option Date → Bool
is_late (some record_day) (some day) = leb day record_day
is_late _ _ = false

abbrev pub is_early : Option Date → Option Date → Bool
is_early (some ex_day) (some day) = ltb day ex_day
is_early _ _ = false

-- a date in the replay that is no session
abbrev pub is_off : List Date → Date → Date → Option Date → Bool
is_off sessions start_date end_date none = false
is_off sessions start_date end_date (some day) =
    in_replay start_date end_date day && not (member day sessions)

module _ {F : Type 0} ⦃host : Host F⦄ where
  abbrev pub is_bad : Option F → Bool
  is_bad none = false
  is_bad (some cash) = not (is_finite cash) || (cash ⊲ zero_f)

  -- `cash_per_share is not None and cash_per_share > 0`
  abbrev pub pays_cash : Option F → Bool
  pays_cash none = false
  pays_cash (some cash) = zero_f ⊲ cash

  abbrev pub gives_stock : CorporateAction F → Bool
  gives_stock action = zero_f ⊲ action.stock_dividend

  -- the last test of `_validate`
  abbrev pub off_session : Option (List Date) → Processor F → CorporateAction F → Bool
  off_session none p action = false
  off_session (some sessions) p action =
      let off = is_off sessions p.start_date p.end_date in
      off action.record_date
      || off action.ex_date
      || (pays_cash (cash_per_share action) && off action.pay_date)
      || (gives_stock action && off action.listing_date)

  -- the tests of `_validate`: each raises the same exception
  unfoldable pub is_refused : Processor F → CorporateAction F → Bool
  is_refused p action =
      let cash = cash_per_share action in
      member action.action_id p.conflicts
      || is_bad cash
      || (pays_cash cash && not (is_some action.pay_date))
      || (not (is_finite action.stock_dividend) || (action.stock_dividend ⊲ zero_f))
      || (gives_stock action && not (is_some action.listing_date))
      || not (is_some action.record_date)
      || is_late action.record_date action.ex_date
      || (pays_cash cash
          && (is_late action.record_date action.pay_date
              || is_early action.ex_date action.pay_date))
      || (gives_stock action
          && (is_late action.record_date action.listing_date
              || is_early action.ex_date action.listing_date))
      || off_session p.sessions p action

  unfoldable pub validate : Processor F → CorporateAction F → Result ⊤
  validate p action = raise_when (is_refused p action) corporate_action_error

  -- `_entitlement`
  abbrev pub unless_held : Option (Holding F) → Result ℤ
  unless_held none = ok (pos 0)
  unless_held (some holding) =
      if ltb_ℤ (pos 0) holding.quantity then raise corporate_action_error else ok (pos 0)

  abbrev pub or_unless_held : Option ℤ → Option (Holding F) → Result ℤ
  or_unless_held (some n) holding = ok n
  or_unless_held none holding = unless_held holding

  unfoldable pub entitlement_of : CorporateAction F → Portfolio F → Result ℤ
  entitlement_of action s =
      or_unless_held (entitlement action.action_id s)
        (find_holding (action_key action) (account_snapshot s).holdings)
