-- ===== src/Backtest/Portfolio/Trading.antt =====
-- What a day of trading does to a `Portfolio`: sessions, fills and valuation
-- (src/backtest/portfolio.py).
use fpro_v.Base.{
  ℕ, Bool, true, false, ◌||◌, not, Option, none, some, [], ◌∷◌, map, filter, length, if◌then◌else◌,
  ◌==◌, Text, text_eq, Dict, lookup, insert, Date, Result, ok, raise, bind, ⊤, account_error,
  data_error, assertion_error, mapping_error, is_some,
}
use fpro_v.Base.Int.{ℤ, pos, ◌+ℤ◌, ◌-ℤ◌, ltb_ℤ, leb_ℤ, eqb_ℤ}
use fpro_v.Base.Host.{Host, ◌⊕◌, ◌⊖◌, ◌⊲◌, ◌⊴◌, ◌≗◌, zero_f, one_f, is_finite, divide, max_f}
use fpro_v.Base.Method.{Method, ◌>>=◌, ◌>>◌, gets, reads, modify, raise_if}
use fpro_v.Backtest.Domain.{Side, Fill, EquitySnapshot}
use fpro_v.MarketData.Identity.{History, sid_of, code_at}
use fpro_v.Backtest.Portfolio.State.{
  Key, code, sid, key_eq, Position, Portfolio, new_position, identity, dividend_receivable,
  market_value, total_equity, epsilon, assert_valid,
}

abbrev new_code : History → Date → Option ℕ → Option (Result Text)
new_code h session none = none
new_code h session (some s) = some (code_at h s session)

-- the test of a fill's `sid` against its code
abbrev pub check_sid : Option History → Option ℕ → Text → Result ⊤
check_sid (some h) (some n) symbol =
    bind (sid_of h symbol) (λ m. if m == n then ok tt else raise mapping_error)
check_sid _ _ symbol = ok tt

abbrev pub fill_key : Option ℕ → Text → Key
fill_key (some n) symbol = sid n
fill_key none symbol = code symbol

abbrev pub key_sid : Key → Option ℕ
key_sid (code _) = none
key_sid (sid n) = some n

module _ {F : Type 0} where
  -- the change of every position, with its key
  abbrev pub map_positions :
      (Position F → Position F) → Dict Key (Position F) → Dict Key (Position F)
  map_positions f [] = []
  map_positions f ((k, p) ∷ ps) = (k, f p) ∷ map_positions f ps

  -- the assignment in the loop of `unlock_t1`
  abbrev pub unlock : Position F → Position F
  unlock p = record p { sellable_quantity = p.quantity -ℤ p.pending_listing_quantity }

  -- The loop of `set_session`: the positions before a raise have their new code.
  abbrev pub rename : Option (Result Text) → Position F → Result (Position F)
  rename none p = raise assertion_error
  rename (some r) p = bind r (λ c. ok (record p { symbol = c }))

  -- one position of a loop that may raise, and the positions after it
  abbrev pub then_rest :
      Key
      → Position F
      → Result (Position F)
      → Dict Key (Position F)
      → Result ⊤ × Dict Key (Position F)
      → Result ⊤ × Dict Key (Position F)
  then_rest k p (ok p') ps (r, ps') = (r, (k, p') ∷ ps')
  then_rest k p (raise e) ps _ = (raise e, (k, p) ∷ ps)

  unfoldable pub rename_positions :
      History → Date → Dict Key (Position F) → Result ⊤ × Dict Key (Position F)
  rename_positions h session [] = (ok tt, [])
  rename_positions h session ((k, p) ∷ ps) =
      then_rest k p (if eqb_ℤ p.quantity (pos 0) then ok p else rename (new_code h session p.sid) p)
        ps (rename_positions h session ps)

  abbrev rename_all : Option History → Date → Method (Portfolio F) ⊤
  rename_all none session s = (ok tt, s)
  rename_all (some h) session s =
      let (r, ps) = rename_positions h session s.positions in (r, record s { positions = ps })

  -- `set_session`
  unfoldable pub set_session : Date → Method (Portfolio F) ⊤
  set_session session s = rename_all s.identities session (record s { session = some session })

module _ {F : Type 0} ⦃host : Host F⦄ where
  unfoldable pub unlock_t1 : Method (Portfolio F) ⊤
  unlock_t1 = do
    modify (λ s. record s { positions = map_positions unlock s.positions })
    assert_valid

  -- `Fill.total_fee`
  unfoldable pub total_fee : Fill F → F
  total_fee f = f.commission ⊕ f.stamp_tax ⊕ f.transfer_fee

  -- `not math.isfinite(value) or value < 0`
  abbrev pub is_bad_amount : F → Bool
  is_bad_amount value = not (is_finite value) || (value ⊲ zero_f)

  abbrev pub or_new : Option (Position F) → Text → Key → Position F
  or_new (some p) symbol key = p
  or_new none symbol key = new_position symbol (key_sid key)

  -- the cash after a fill, before it is cut off at zero
  unfoldable pub new_cash : Portfolio F → Fill F → Position F → Side → Result F
  unfolding total_fee
  new_cash s fill p Side.buy =
      let cost = fill.notional ⊕ total_fee fill in
      if (s.cash ⊕ epsilon) ⊲ cost then raise account_error else ok (s.cash ⊖ cost)
  new_cash s fill p Side.sell =
      let cash = s.cash ⊕ fill.notional ⊖ total_fee fill in
      if ltb_ℤ p.quantity fill.quantity
      then raise account_error
      else if ltb_ℤ p.sellable_quantity fill.quantity
      then raise account_error
      else if cash ⊲ (zero_f ⊖ epsilon)
      then raise account_error
      else ok cash

  -- the position after a fill
  abbrev pub closed : Position F → Position F
  closed p =
      if eqb_ℤ p.quantity (pos 0) then record p { last_price = none; stale_price = false } else p

  unfoldable pub filled : Position F → ℤ → Side → Position F
  filled p quantity Side.buy = record p { quantity = p.quantity +ℤ quantity }
  filled p quantity Side.sell = closed (record p {
    quantity = p.quantity -ℤ quantity;
    sellable_quantity = p.sellable_quantity -ℤ quantity;
  })

  -- the end of `apply_fill`, once the key of the position is known
  unfoldable pub settle_fill : Fill F → Key → Method (Portfolio F) ⊤
  settle_fill fill key = do
    p ← gets (λ s. or_new (lookup key s.positions) fill.symbol key)
    cash ← reads (λ s. new_cash s fill p fill.side)
    modify (λ s. record s {
      cash = max_f zero_f cash;
      positions = insert key (filled p fill.quantity fill.side) s.positions;
    })
    assert_valid

  -- the amounts that `apply_fill` tests
  unfoldable pub has_bad_amount : Fill F → Bool
  has_bad_amount fill =
      is_bad_amount fill.notional
      || is_bad_amount fill.commission
      || is_bad_amount fill.stamp_tax
      || is_bad_amount fill.transfer_fee

  -- the part of `apply_fill` that finds the security
  unfoldable pub route_fill : Fill F → Method (Portfolio F) ⊤
  route_fill fill = do
    reads (λ s. check_sid s.identities fill.sid fill.symbol)
    key ← reads (λ s. identity s.identities (fill_key fill.sid fill.symbol))
    settle_fill fill key

  -- `apply_fill`
  unfoldable pub apply_fill : Fill F → Method (Portfolio F) ⊤
  apply_fill fill = do
    assert_valid
    raise_if (leb_ℤ fill.quantity (pos 0)) account_error
    raise_if (has_bad_amount fill) account_error
    route_fill fill

  -- the first loop of `mark_to_market`
  abbrev pub conflicts : Option F → F → Bool
  conflicts none price = false
  conflicts (some other) price = not (other ≗ price)

  unfoldable pub normalize : Option History → Dict Text F → Dict Key F → Result (Dict Key F)
  normalize h [] prices = ok prices
  normalize h ((symbol, price) ∷ rest) prices = bind (identity h (code symbol)) (λ key.
      if conflicts (lookup key prices) price
      then raise data_error
      else normalize h rest (insert key price prices))

  -- the second loop: one held position
  abbrev pub marked : Option F → Position F → Result (Position F)
  marked none p =
      if is_some p.last_price then ok (record p { stale_price = true }) else raise data_error
  marked (some price) p =
      if not (is_finite price) || (price ⊴ zero_f)
      then raise data_error
      else ok (record p { last_price = some price; stale_price = false })

  unfoldable pub mark_positions :
      Dict Key F → Dict Key (Position F) → Result ⊤ × Dict Key (Position F)
  mark_positions prices [] = (ok tt, [])
  mark_positions prices ((k, p) ∷ ps) =
      then_rest k p (if eqb_ℤ p.quantity (pos 0) then ok p else marked (lookup k prices) p) ps
        (mark_positions prices ps)

  abbrev pub mark_all : Dict Key F → Method (Portfolio F) ⊤
  mark_all prices s =
      let (r, ps) = mark_positions prices s.positions in (r, record s { positions = ps })

  -- `mark_to_market`
  unfoldable pub mark_to_market : Dict Text F → Method (Portfolio F) ⊤
  mark_to_market prices = do
    normalized ← reads (λ s. normalize s.identities prices [])
    mark_all normalized
    assert_valid

  abbrev pub day_return : F → F → Result (Option F)
  day_return equity last =
      if zero_f ⊲ last then bind (divide equity last) (λ q. ok (some (q ⊖ one_f))) else ok none

  -- `equity_snapshot`
  unfoldable pub equity_snapshot : Date → Method (Portfolio F) (EquitySnapshot F)
  equity_snapshot session = do
    equity ← gets total_equity
    daily_return ← reads (λ s. day_return equity s.last_equity)
    modify (λ s. record s { last_equity = equity })
    gets (λ s.
        let active = filter (λ p. ltb_ℤ (pos 0) p.quantity) (map (λ e. e.1) s.positions) in
        record {
          session = session;
          cash = s.cash;
          dividend_receivable = dividend_receivable s;
          market_value = market_value s;
          total_equity = equity;
          daily_return = daily_return;
          holding_count = length active;
          stale_position_count = length (filter (λ p. p.stale_price) active);
        })
