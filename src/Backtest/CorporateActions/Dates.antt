-- ===== src/Backtest/CorporateActions/Dates.antt =====
-- What the checks of a corporate action and of its entitlement exclude
-- (src/backtest/corporate_actions.py).
use fpro_v.Base.{
  ◌≡◌, ◌≤◌, ◌<◌, refl, inl, inr, ◌⊎◌, Bool, true, false, ◌&&◌, ◌||◌, not, Option, none, some,
  text_eq, nat_eq, is_some, Bool-cases, Option-cases, Date, ok, arith,
}
use fpro_v.Base.Int.{ℤ, pos, ◌≤ℤ◌}
use fpro_v.Base.Host.{Host}
use fpro_v.Backtest.Domain.{CorporateAction, Holding}
use fpro_v.Backtest.Portfolio.State.{Portfolio, account_snapshot}
use fpro_v.Backtest.Portfolio.Dividends.{entitlement}
use fpro_v.Backtest.CorporateActions.Processor.{Processor}
use fpro_v.Backtest.CorporateActions.Checks.{
  action_key, cash_per_share, find_holding, is_late, is_early, pays_cash, gives_stock, off_session,
  is_refused, validate, entitlement_of,
}

-- a date that is given comes after, or not before, another that is given
abbrev pub IsAfter : Date → Option Date → Type 0
IsAfter record_day none = Unit
IsAfter record_day (some day) = record_day < day

abbrev pub IsFrom : Option Date → Date → Type 0
IsFrom none day = Unit
IsFrom (some ex_day) day = ex_day ≤ day

is_late-IsAfter : (r : Date) (day : Option Date) → is_late (some r) day ≡ false → IsAfter r day
is_late-IsAfter r none h = tt
is_late-IsAfter r (some d) h = ground arith

is_early-IsFrom : (ex : Option Date) (d : Date) → is_early ex (some d) ≡ false → IsFrom ex d
is_early-IsFrom none d h = tt
is_early-IsFrom (some e) d h = ground arith

dated :
    (gives : Bool) (r : Date) (registered ex day : Option Date)
    → registered ≡ some r
    → gives && not (is_some day) ≡ false
    → gives && (is_late registered day || is_early ex day) ≡ false
    → gives ≡ true
    → (d : Date) × (day ≡ some d) × (r < d) × IsFrom ex d
dated true r rd ex none e h k g = cc
dated true r rd ex (some d) e h k g =
    (d, refl, is_late-IsAfter r (some d) (ground (arith, e)), is_early-IsFrom ex d (ground arith))
dated false r rd ex day e h k g = cc

module _ {F : Type 0} ⦃host : Host F⦄ where
  -- The business dates of an action in order: the record date, then the day without the right, and
  -- from this day on the payment of a cash dividend and the listing of bonus shares.
  pub record IsOrderly (action : CorporateAction F) : Type 0 where
    pub record_day : Date
    pub registered : action.record_date ≡ some record_day
    pub ex_after : IsAfter record_day action.ex_date
    pub paid :
        pays_cash (cash_per_share action) ≡ true
        → (d : Date) × (action.pay_date ≡ some d) × (record_day < d) × IsFrom action.ex_date d
    pub listed :
        gives_stock action ≡ true
        → (d : Date) × (action.listing_date ≡ some d) × (record_day < d) × IsFrom action.ex_date d

  is_refused-eq-false :
      (p : Processor F) (action : CorporateAction F)
      → is_refused p action ≡ false
      → (pays_cash (cash_per_share action) && not (is_some action.pay_date) ≡ false)
        × (gives_stock action && not (is_some action.listing_date) ≡ false)
        × (not (is_some action.record_date) ≡ false)
        × (is_late action.record_date action.ex_date ≡ false)
        × (pays_cash (cash_per_share action)
              && (is_late action.record_date action.pay_date
                  || is_early action.ex_date action.pay_date)
            ≡ false)
        × (gives_stock action
              && (is_late action.record_date action.listing_date
                  || is_early action.ex_date action.listing_date)
            ≡ false)
        × (off_session p.sessions p action ≡ false)
  unfolding is_refused
  is_refused-eq-false p action h = ground arith

  validate-eq-ok :
      (p : Processor F) (action : CorporateAction F)
      → validate p action ≡ ok tt
      → is_refused p action ≡ false
  unfolding validate
  validate-eq-ok p action h = elim (Bool-cases (is_refused p action)) [
    | inl e ↦ ground (arith, rw e at h)
    | inr e ↦ e
  ]

  -- An action that passes its checks has a record date, and its ex date, if there is one, is after
  -- it; if the action pays cash it has a pay date, and if it gives shares a listing date, which is
  -- after the record date and not before the ex date.
  pub validate-IsOrderly :
      (p : Processor F) (action : CorporateAction F) → validate p action ≡ ok tt → IsOrderly action
  validate-IsOrderly p action h =
      let (cash, stock, day, ex, pay, listing, _) =
        is_refused-eq-false p action (validate-eq-ok p action h) in
      elim (Option-cases action.record_date) [
        | inl missing ↦ ground (arith, rw missing at day)
        | inr (r, e) ↦ record {
          record_day = r;
          registered = e;
          ex_after = is_late-IsAfter r action.ex_date (rw e at ex);
          paid =
              dated (pays_cash (cash_per_share action)) r action.record_date action.ex_date
                action.pay_date e cash pay;
          listed =
              dated (gives_stock action) r action.record_date action.ex_date action.listing_date e
                stock listing;
        }
      ]

  -- An entitlement is never guessed: the number used is the one registered for the action, or 0
  -- where none is registered and the account holds nothing of the security.
  pub entitlement_of-eq-ok :
      (action : CorporateAction F) (s : Portfolio F) (n : ℤ)
      → entitlement_of action s ≡ ok n
      → (entitlement action.action_id s ≡ some n)
        ⊎ ((entitlement action.action_id s ≡ none)
            × (n ≡ pos 0)
            × ((h : Holding F)
                → find_holding (action_key action) (account_snapshot s).holdings ≡ some h
                → h.quantity ≤ℤ pos 0))
  unfolding entitlement_of
  entitlement_of-eq-ok action s n h = elim (Option-cases (entitlement action.action_id s)) [
    | inr (m, e) ↦ inl (ground (arith, rw e at h))
    | inl e ↦ elim (Option-cases (find_holding (action_key action) (account_snapshot s).holdings)) [
      | inl nothing ↦ inr (e, ground (arith, rw (e, nothing) at h), λ k some_held. cc)
      | inr (held, found) ↦ inr (
        e,
        ground (arith, rw (e, found) at h),
        λ k same. ground (arith, rw (e, found) at h, found),
      )
    ]
  ]
