-- ===== src/Backtest/Broker/State.antt =====
-- The state of a simulated broker and the operations on its pending orders
-- (src/backtest/broker.py).
pub mod Accounts
use fpro_v.Base.{
  ℕ, suc, ◌≡◌, Bool, true, false, ◌&&◌, ◌||◌, not, Option, none, some, List, [], ◌∷◌, ◌++◌, map,
  filter, if◌then◌else◌, ◌==◌, Text, text_eq, ◌=?◌, member, Date, Datetime, date_of, Result, ok,
  raise, bind, raise_when, ⊤, value_error, mapping_error, assertion_error, data_error,
}
use fpro_v.Base.Int.{ℤ, pos, ltb_ℤ, leb_ℤ}
use fpro_v.Base.Host.{Host}
use fpro_v.Base.Method.{Method, continue, ◌>>=◌, ◌>>◌, pure, gets, reads, modify, raise_if}
use fpro_v.Backtest.Domain.{Side, OrderStatus, OrderReason, OrderRequest, Order, OrderUpdate, Fill}
use fpro_v.Backtest.Config.{BacktestConfig}
use fpro_v.Backtest.TradingRules.{QuantityRule, valid, quantity_rule, OrderType}
use fpro_v.MarketData.Identity.{History, sid_of, code_at, symbols_at, each, sorted_set}
use fpro_v.Backtest.Portfolio.State.{Key, code, sid}
use fpro_v.Backtest.Broker.Execution.{is_buy}

pub record Broker (F : Type 0) : Type 0 where
  pub config : BacktestConfig F
  pub identities : Option History
  pub session : Date
  pub pending : List (Order F)
  pub orders : List (Order F)
  pub updates : List (OrderUpdate F)
  pub fills : List (Fill F)
  pub next_order_id : ℕ
  pub next_fill_id : ℕ

-- `identities.sid(symbol) if identities is not None else None`
abbrev pub find_sid : Option History → Text → Result (Option ℕ)
find_sid none symbol = ok none
find_sid (some h) symbol = bind (sid_of h symbol) (λ n. ok (some n))

-- the test of the `sid` that a request carries
abbrev pub agrees : Option ℕ → Option ℕ → Bool
agrees none found = true
agrees (some n) none = false
agrees (some n) (some m) = n == m

-- the code of the day of the submission
abbrev pub code_on : Option History → Option ℕ → Text → Date → Result Text
code_on (some h) (some n) symbol day = code_at h n day
code_on _ _ symbol day = ok symbol

-- the universe of the day, and the test that a code is in it
abbrev pub allowed_on : Option History → Option (List Text) → Date → Result (Option (List Text))
allowed_on (some h) (some symbols) day = bind (symbols_at h symbols day) (λ l. ok (some l))
allowed_on _ symbols day = ok symbols

abbrev pub is_allowed : Option (List Text) → Text → Bool
is_allowed none symbol = true
is_allowed (some l) symbol = member symbol l

-- the code of an identity at a session, asserted to be there
abbrev traded_code : History → Option ℕ → Date → Result Text
traded_code h none session = raise assertion_error
traded_code h (some n) session = code_at h n session

-- the identity that `cancel_symbol` cancels
abbrev pub sid_named : Option History → Key → Result (Option ℕ)
sid_named none symbol = ok none
sid_named (some h) (code c) = bind (sid_of h c) (λ n. ok (some n))
sid_named (some h) (sid n) = ok (some n)

-- `Order(...)` of a request, an update of an order, and the state with a new order
module _ {F : Type 0} where
  unfoldable pub order_of : OrderRequest F → ℕ → Text → Option ℕ → Datetime → Order F
  order_of request n symbol found at = record {
    order_id = n;
    symbol = symbol;
    side = request.side;
    quantity = request.quantity;
    submitted_at = at;
    target_weight = request.target_weight;
    sid = found;
  }

  abbrev pub update_of : OrderStatus → Datetime → ℤ → OrderReason → Order F → OrderUpdate F
  update_of status at quantity reason order = record {
    order = order;
    status = status;
    updated_at = at;
    filled_quantity = quantity;
    reason = reason;
  }

  unfoldable pub enqueue : Order F → Datetime → Broker F → Broker F
  enqueue order at b = record b {
    next_order_id = suc b.next_order_id;
    orders = b.orders ++ (order ∷ []);
    pending = b.pending ++ (order ∷ []);
    updates =
        b.updates ++ (update_of OrderStatus.submitted at (pos 0) OrderReason.blank order ∷ []);
  }

  -- `SimulatedBroker(config, identities=…)`
  unfoldable pub create : BacktestConfig F → Option History → Broker F
  create config identities = record {
    config = config;
    identities = identities;
    session = config.start_date;
    pending = [];
    orders = [];
    updates = [];
    fills = [];
    next_order_id = 1;
    next_fill_id = 1;
  }

  -- `set_session`
  unfoldable pub set_session : Date → Broker F → Broker F
  set_session session b = record b { session = session }

  -- `_trading_symbol`
  unfoldable pub trading_symbol : Option History → Order F → Date → Result Text
  trading_symbol none order session = ok order.symbol
  trading_symbol (some h) order session = traded_code h order.sid session

  -- a set comprehension of trading symbols, sorted
  unfoldable pub symbols_of : Option History → Date → List (Order F) → Result (List Text)
  symbols_of identities session [] = ok []
  symbols_of identities session (order ∷ orders) =
      bind (trading_symbol identities order session)
        (λ c. bind (symbols_of identities session orders) (λ cs. ok (c ∷ cs)))

  -- `pending_symbols`
  unfoldable pub pending_symbols : Broker F → Result (List Text)
  pending_symbols b = bind (symbols_of b.identities b.session b.pending) (λ cs. ok (sorted_set cs))

  -- the first order with an id, and the list without it
  unfoldable pub take_out : ℕ → List (Order F) → Option (Order F × List (Order F))
  take_out n [] = none
  take_out n (order ∷ orders) =
      if order.order_id == n then some (order, orders) else elim (take_out n orders) [
        | none ↦ none
        | some (found, rest) ↦ some (found, order ∷ rest)
      ]

  abbrev pub cancel_found :
      Datetime → Option (Order F × List (Order F)) → Broker F → Bool × Broker F
  cancel_found at none b = (false, b)
  cancel_found at (some (order, rest)) b = (
    true,
    record b {
      pending = rest;
      updates =
          b.updates ++ (update_of OrderStatus.canceled at (pos 0) OrderReason.strategy order ∷ []);
    },
  )

  -- `cancel`
  unfoldable pub cancel : ℕ → Datetime → Broker F → Bool × Broker F
  cancel order_id at b = cancel_found at (take_out order_id b.pending) b

  -- `cancel_symbol`
  abbrev pub has_sid : Option ℕ → Order F → Bool
  has_sid none order = false
  has_sid (some n) order = elim order.sid [ none ↦ false | some m ↦ m == n ]

  abbrev pub has_code : Key → Order F → Bool
  has_code (code c) order = order.symbol =? c
  has_code (sid n) order = false

  abbrev pub is_named : Option ℕ → Key → Order F → Bool
  is_named found symbol order = has_sid found order || has_code symbol order

  unfoldable pub cancel_symbol : Key → OrderReason → Datetime → Method (Broker F) ⊤
  cancel_symbol symbol reason at = do
    found ← reads (λ b. sid_named b.identities symbol)
    modify (λ b. record b {
      updates =
          b.updates
          ++ map (update_of OrderStatus.canceled at (pos 0) reason)
              (filter (is_named found symbol) b.pending);
      pending = filter (λ o. not (is_named found symbol o)) b.pending;
    })

  -- `expire_all`
  unfoldable pub expire_all : Datetime → Broker F → Broker F
  expire_all at b = record b {
    updates =
        b.updates
        ++ map (update_of OrderStatus.expired at (pos 0) OrderReason.end_of_backtest) b.pending;
    pending = [];
  }

module _ {F : Type 0} ⦃host : Host F⦄ where
  -- the tests of `submit`: the code and the `sid` of the new order
  unfoldable pub admit : Broker F → OrderRequest F → Datetime → Result (Text × Option ℕ)
  admit b request at =
      if request.symbol =? []
      then raise value_error
      else bind (find_sid b.identities request.symbol) (λ found.
        if not (agrees request.sid found)
        then raise mapping_error
        else bind (code_on b.identities found request.symbol (date_of at)) (λ symbol.
          bind (allowed_on b.identities b.config.symbols (date_of at)) (λ allowed.
            if not (is_allowed allowed symbol) || leb_ℤ request.quantity (pos 0)
            then raise value_error
            else bind (quantity_rule host.digit symbol (date_of at) OrderType.market) (λ rule.
              if ltb_ℤ (pos rule.maximum) request.quantity
                || (is_buy request.side && not (valid rule request.quantity false))
              then raise value_error
              else ok (symbol, found)))))

  -- `submit`
  unfoldable pub submit : OrderRequest F → Datetime → Method (Broker F) (Order F)
  submit request at = do
    (symbol, found) ← reads (λ b. admit b request at)
    order ← gets (λ b. order_of request b.next_order_id symbol found at)
    modify (enqueue order at)
    pure order
