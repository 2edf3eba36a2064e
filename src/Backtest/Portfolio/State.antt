-- ===== src/Backtest/Portfolio/State.antt =====
-- The state of a `Portfolio`, its views, its validity check and its sessions
-- (src/backtest/portfolio.py). `F` is the type of the floats.
use fpro_v.Base.{
  ℕ, ◌≡◌, refl, inl, inr, Bool-cases, ◌↔◌, Bool, true, false, ◌&&◌, ◌||◌, not, Option, none, some,
  [], map, foldl, filter, all, if◌then◌else◌, ◌==◌, Text, text_eq, text_beq, text_beq_iff, text_ltb,
  decimal_text, Eq, Dict, lookup, insert, sort, Date, Result, ok, raise, bind, ⊤, value_error,
  account_error, assertion_error, arith,
}
use fpro_v.Base.Int.{ℤ, pos, ◌+ℤ◌, ltb_ℤ}
use fpro_v.Base.Host.{Host, ◌⊕◌, ◌⊖◌, ◌⊗◌, ◌⊲◌, ◌⊴◌, of_ℤ, decimal, zero_f, is_finite}
use fpro_v.Base.Method.{Method, ◌>>=◌, ◌>>◌, pure, gets, reads, modify, raise_if}
use fpro_v.Backtest.Domain.{Holding, AccountSnapshot}
use fpro_v.MarketData.Identity.{History, sid_of, aliases, code_at, first_alias}

-- A key of the positions: a code (`str`), or a persistent identity (`int`).
pub data Key : Type 0 where
  code : Text → Key
  sid : ℕ → Key

unfoldable pub key_beq : Key → Key → Bool
key_beq (code a) (code b) = text_beq a b
key_beq (sid a) (sid b) = a == b
key_beq _ _ = false

pub key_beq_iff : (a b : Key) → (key_beq a b ≡ true) ↔ (a ≡ b)
unfolding key_beq
key_beq_iff (code a) (code b) = ground (arith, text_beq_iff a b)
key_beq_iff (code a) (sid b) = ground arith
key_beq_iff (sid a) (code b) = ground arith
key_beq_iff (sid a) (sid b) = ground arith

instance abbrev pub key_eq : Eq Key
key_eq = record { beq = key_beq; beq_iff = key_beq_iff }

pub record Position (F : Type 0) : Type 0 where
  pub symbol : Text
  pub quantity : ℤ
  pub sellable_quantity : ℤ
  pub pending_listing_quantity : ℤ
  pub last_price : Option F
  pub stale_price : Bool
  pub sid : Option ℕ

pub record Portfolio (F : Type 0) : Type 0 where
  pub cash : F
  pub identities : Option History
  pub session : Option Date
  pub positions : Dict Key (Position F)
  pub receivables : Dict Text F
  pub entitlements : Dict Text ℤ
  pub pending_stock : Dict Text (Key × ℤ)
  pub last_equity : F

-- `Position(symbol, sid=sid)`
abbrev pub new_position : {F : Type 0} → Text → Option ℕ → Position F
new_position symbol s = record {
  symbol = symbol;
  quantity = pos 0;
  sellable_quantity = pos 0;
  pending_listing_quantity = pos 0;
  last_price = none;
  stale_price = false;
  sid = s;
}

-- `Portfolio.identity`
abbrev pub identity_in : History → Key → Result Key
identity_in h (code c) = bind (sid_of h c) (λ s. ok (sid s))
identity_in h (sid s) = bind (aliases h s) (λ _. ok (sid s))

unfoldable pub identity : Option History → Key → Result Key
identity none symbol = ok symbol
identity (some h) symbol = identity_in h symbol

module _ {F : Type 0} ⦃host : Host F⦄ where
  -- `Position.market_value`
  abbrev pub price_value : ℤ → Option F → F
  price_value quantity none = zero_f
  price_value quantity (some price) = of_ℤ quantity ⊗ price

  unfoldable pub position_value : Position F → F
  position_value p = price_value p.quantity p.last_price

  -- the three sums of the account
  unfoldable pub dividend_receivable : Portfolio F → F
  dividend_receivable s = foldl (λ total e. total ⊕ e.1) zero_f s.receivables

  unfoldable pub market_value : Portfolio F → F
  market_value s = foldl (λ total e. total ⊕ position_value e.1) zero_f s.positions

  unfoldable pub total_equity : Portfolio F → F
  total_equity s = s.cash ⊕ dividend_receivable s ⊕ market_value s

  -- `_EPSILON`
  abbrev pub epsilon : F
  epsilon = decimal 1 6

  -- the test of a money value in `assert_valid`
  unfoldable pub is_amount : F → Bool
  is_amount value = is_finite value && not (value ⊲ (zero_f ⊖ epsilon))

-- the tests of a position in `assert_valid`
unfoldable pub is_position : {F : Type 0} → Position F → Bool
is_position p =
    not (
      ltb_ℤ p.quantity (pos 0)
      || ltb_ℤ p.sellable_quantity (pos 0)
      || ltb_ℤ p.pending_listing_quantity (pos 0))
    && not (ltb_ℤ p.quantity (p.sellable_quantity +ℤ p.pending_listing_quantity))

-- the code that a new position of a security shows
abbrev pub shown_code : History → ℕ → Option Date → Result Text
shown_code h s none = bind (aliases h s) first_alias
shown_code h s (some session) = bind (aliases h s) (λ _. code_at h s session)

-- `str(symbol)`
abbrev pub str_of : Key → Text
str_of (code c) = c
str_of (sid s) = decimal_text s

module _ {F : Type 0} ⦃host : Host F⦄ where
  -- `Portfolio(initial_cash, identities=…)`
  unfoldable pub create : F → Option History → Result (Portfolio F)
  create initial_cash identities =
      if not (is_finite initial_cash) || (initial_cash ⊴ zero_f)
      then raise value_error
      else ok (record {
        cash = initial_cash;
        identities = identities;
        session = none;
        positions = [];
        receivables = [];
        entitlements = [];
        pending_stock = [];
        last_equity = initial_cash;
      })

  -- the two tests of `assert_valid`, and the method
  unfoldable pub has_amounts : Portfolio F → Bool
  unfolding is_amount dividend_receivable market_value
  has_amounts s =
      is_amount s.cash && (is_amount (dividend_receivable s) && is_amount (market_value s))

  unfoldable pub has_positions : Portfolio F → Bool
  unfolding is_position
  has_positions s = all (λ e. is_position e.1) s.positions

  unfoldable pub is_valid : Portfolio F → Bool
  unfolding has_amounts has_positions
  is_valid s = has_amounts s && has_positions s

  unfoldable pub assert_valid : Method (Portfolio F) ⊤
  assert_valid s = raise_if (not (is_valid s)) account_error s

  -- the check changes nothing
  pub assert_valid_keeps : (s : Portfolio F) → (assert_valid s).1 ≡ s
  unfolding assert_valid
  assert_valid_keeps s = elim (Bool-cases (is_valid s)) [ inl e ↦ rw e refl | inr e ↦ rw e refl ]

  -- the position that the method `position` creates for a new key
  abbrev pub created : Portfolio F → Key → Option History → Result (Position F)
  created s key none = ok (new_position (str_of key) none)
  created s (code c) (some h) = raise assertion_error
  created s (sid n) (some h) = bind (shown_code h n s.session) (λ c. ok (new_position c (some n)))

  abbrev pub or_created : Option (Position F) → Key → Method (Portfolio F) (Position F)
  or_created (some p) key = pure p
  or_created none key = do
    p ← reads (λ s. created s key s.identities)
    modify (λ s. record s { positions = insert key p s.positions })
    pure p

  -- `Portfolio.position`: the key and the position
  unfoldable pub position : Key → Method (Portfolio F) (Key × Position F)
  position symbol = do
    key ← reads (λ s. identity s.identities symbol)
    found ← gets (λ s. lookup key s.positions)
    p ← or_created found key
    pure (key, p)

  -- `account_snapshot`
  abbrev pub holding_of : Position F → Holding F
  holding_of p = record {
    symbol = p.symbol;
    quantity = p.quantity;
    sellable_quantity = p.sellable_quantity;
    market_value = position_value p;
    sid = p.sid;
  }

  unfoldable pub account_snapshot : Portfolio F → AccountSnapshot F
  account_snapshot s = record {
    cash = s.cash;
    dividend_receivable = dividend_receivable s;
    market_value = market_value s;
    total_equity = total_equity s;
    holdings = map holding_of (
        filter (λ p. ltb_ℤ (pos 0) p.quantity)
          (sort (λ a b. text_ltb a.symbol b.symbol) (map (λ e. e.1) s.positions)));
  }
