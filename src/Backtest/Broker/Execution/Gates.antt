-- ===== src/Backtest/Broker/Execution/Gates.antt =====
-- What `_executable_quantity` promises of its answer (src/backtest/broker.py).
use fpro_v.Base.{
  ◌≡◌, ◌≢◌, ◌⊎◌, inl, inr, true, false, not, ◌&&◌, Option, none, some, Bool-cases, Option-cases,
  Date, ok, bind-eq-ok, ok-injective, sym, ap, arith,
}
use fpro_v.Base.Int.{ℤ, pos, ◌≤ℤ◌, ◌<ℤ◌, leb_ℤ, eqb_ℤ, max_ℤ}
use fpro_v.Base.Host.{Host}
use fpro_v.Backtest.Domain.{Side, OrderReason, Order, Bar, MarketStatus}
use fpro_v.Backtest.Config.{BacktestConfig}
use fpro_v.Backtest.TradingRules.{QuantityRule, valid, quantity_rule, OrderType}
use fpro_v.Backtest.Broker.Pricing.{
  valid_price, known_price_limits, reaches_limit, below_limit, above_limit, slipped, legal_price,
  affordable_quantity, volume_capacity,
}
use fpro_v.Backtest.Broker.Pricing.Affordable.{affordable_quantity_greatest}
use fpro_v.Backtest.Broker.Execution.{
  Execution, is_buy, refused, open_of, capped, held_back, blocked, funded, sized, priced, opened,
  executable_quantity,
}

-- The bounds of an executed quantity: the order, the volume's capacity and the sellable shares.
pub IsUnder : Option ℤ → ℤ → Type 0
IsUnder none n = Unit
IsUnder (some c) n = (n ≡ pos 0) ⊎ (n ≤ℤ c)

unfoldable pub IsWithin : Side → ℤ → ℤ → ℤ → Type 0
IsWithin Side.buy quantity sellable n = (pos 0 ≤ℤ n) × (n ≤ℤ quantity)
IsWithin Side.sell quantity sellable n =
    (pos 0 ≤ℤ n) × (n ≤ℤ quantity) × ((n ≡ pos 0) ⊎ (n ≤ℤ sellable))

-- both bounds hold of the cut, and of anything smaller
held_back-capped :
    (side : Side) (capacity : Option ℤ) (quantity sellable n : ℤ)
    → pos 0 <ℤ quantity
    → pos 0 ≤ℤ n
    → n ≤ℤ max_ℤ (held_back side sellable (capped capacity quantity)).0 (pos 0)
    → IsWithin side quantity sellable n × IsUnder capacity n
unfolding IsWithin IsUnder
held_back-capped Side.buy none quantity sellable n h k l = ground arith
held_back-capped Side.buy (some c) quantity sellable n h k l = ground arith
held_back-capped Side.sell none quantity sellable n h k l = ground arith
held_back-capped Side.sell (some c) quantity sellable n h k l = ground arith

no_shares :
    {F : Type 0} (reason : OrderReason) (e : Execution F)
    → ok (refused reason) ≡ ok e
    → e.quantity ≡ pos 0
no_shares reason e h = sym (ap (λ x. x.quantity) (ok-injective h))

module _ {F : Type 0} ⦃host : Host F⦄ where
  -- the cash only cuts further down
  funded_le :
      (config : BacktestConfig F) (side : Side) (price cash : F) (day : Date) (q : ℤ)
      (r : OrderReason) (e : Execution F)
      → funded config side price cash day (q, r) ≡ ok e
      → (pos 0 ≤ℤ e.quantity) × (e.quantity ≤ℤ max_ℤ q (pos 0))
  unfolding funded
  funded_le config Side.buy price cash day q r e h =
      let (n, found, done) = bind-eq-ok (affordable_quantity config q price cash day) _ h in
      let (_, bound, m, _, _, is_m, small, _, _) =
        affordable_quantity_greatest config q n price cash day found in
      ground (arith, done, is_m, small)
  funded_le config Side.sell price cash day q r e h = ground (arith, h)

  funded_price :
      (config : BacktestConfig F) (side : Side) (price cash : F) (day : Date) (q : ℤ)
      (r : OrderReason) (e : Execution F)
      → funded config side price cash day (q, r) ≡ ok e
      → e.quantity ≢ pos 0
      → e.price ≡ some price
  unfolding funded
  funded_price config Side.buy price cash day q r e h some_shares =
      let (n, found, done) = bind-eq-ok (affordable_quantity config q price cash day) _ h in
      ground (arith, done)
  funded_price config Side.sell price cash day q r e h some_shares = ground (arith, h)

  -- where an execution with a quantity comes from
  sized_lem :
      (config : BacktestConfig F) (order : Order F) (volume : Option F) (cash : F) (sellable : ℤ)
      (day : Date) (price : F) (e : Execution F)
      → pos 0 <ℤ order.quantity
      → sized config order volume cash sellable day price ≡ ok e
      → e.quantity ≢ pos 0
      → (rule : QuantityRule) × (capacity : Option ℤ) × (quantity_rule host.digit order.symbol day
            OrderType.market
          ≡ ok rule)
        × (valid rule order.quantity (not (is_buy order.side) && eqb_ℤ order.quantity sellable)
            ≡ true)
        × (volume_capacity config volume ≡ ok capacity)
        × IsWithin order.side order.quantity sellable e.quantity
        × IsUnder capacity e.quantity
        × (e.price ≡ some price)
  unfolding sized
  sized_lem config order volume cash sellable day price e p h some_shares =
      let (rule, ruled, h') =
        bind-eq-ok (quantity_rule host.digit order.symbol day OrderType.market) _ h in
      elim (Bool-cases
        (valid rule order.quantity (not (is_buy order.side) && eqb_ℤ order.quantity sellable))) [
          | inr bad ↦ absurd (some_shares (no_shares _ e (rw bad at h')))
          | inl good ↦
              let (capacity, limit, done) =
                bind-eq-ok (volume_capacity config volume) _ (rw good at h') in
              let (q, r) = held_back order.side sellable (capped capacity order.quantity) in
              let (low, high) = funded_le config order.side price cash day q r e done in
              let (w, u) =
                held_back-capped order.side capacity order.quantity sellable e.quantity p low
                  high in
              (
                rule,
                capacity,
                ruled,
                good,
                limit,
                w,
                u,
                funded_price config order.side price cash day q r e done some_shares,
              )
        ]

  -- the limit that a side of the market must not touch
  abbrev pub limit_of : Side → MarketStatus F → Option F
  limit_of Side.buy status = status.up_limit
  limit_of Side.sell status = status.down_limit

  -- what no reason to refuse the open price means
  blocked-eq-none :
      (side : Side) (status : MarketStatus F) (open_price : F)
      → blocked side status open_price ≡ none
      → (status.suspended ≡ some false)
        × (known_price_limits status ≡ true)
        × (below_limit open_price status.down_limit ≡ false)
        × (above_limit open_price status.up_limit ≡ false)
        × (reaches_limit open_price (limit_of side status) side ≡ false)
  unfolding blocked
  blocked-eq-none Side.buy status open_price h = ground arith
  blocked-eq-none Side.sell status open_price h = ground arith

  -- What stands behind an execution: the open price, the market's status, the rule, the bounds.
  pub record IsExecutable (config : BacktestConfig F) (order : Order F) (bar : Option (Bar F))
      (status : MarketStatus F) (volume : Option F) (sellable : ℤ) (day : Date) (e : Execution F)
      : Type 0 where
    pub open_price : F
    pub rule : QuantityRule
    pub capacity : Option ℤ
    pub opens : open_of bar ≡ some open_price
    pub is_price : valid_price (some open_price) ≡ true
    pub trading : status.suspended ≡ some false
    pub limits_known : known_price_limits status ≡ true
    pub above_down : below_limit open_price status.down_limit ≡ false
    pub below_up : above_limit open_price status.up_limit ≡ false
    pub not_at_limit : reaches_limit open_price (limit_of order.side status) order.side ≡ false
    pub ruled : quantity_rule host.digit order.symbol day OrderType.market ≡ ok rule
    pub is_valid :
        valid rule order.quantity (not (is_buy order.side) && eqb_ℤ order.quantity sellable) ≡ true
    pub limited : volume_capacity config volume ≡ ok capacity
    pub within : IsWithin order.side order.quantity sellable e.quantity
    pub under : IsUnder capacity e.quantity
    pub price : e.price ≡ some (legal_price status (slipped config order.side open_price))

  -- If `_executable_quantity` answers a quantity that is not 0, the bar has a valid open price, the
  -- market is known to trade and its limits are known, the open price is within them and away from
  -- the limit of the order's side, and the board's rule takes the quantity of the order. The
  -- quantity answered is at least 0 and at most the order's, at most the share of the last volume
  -- and, for a sale, at most the sellable shares; the price is the slipped open price cut off at
  -- the limits.
  pub executable_quantity-IsExecutable :
      (config : BacktestConfig F) (order : Order F) (bar : Option (Bar F)) (status : MarketStatus F)
      (volume : Option F) (cash : F) (sellable : ℤ) (day : Date) (e : Execution F)
      → executable_quantity config order bar status volume cash sellable day ≡ ok e
      → e.quantity ≢ pos 0
      → IsExecutable config order bar status volume sellable day e
  unfolding executable_quantity opened priced
  executable_quantity-IsExecutable config order bar status volume cash sellable day e h shares =
      elim (Bool-cases (leb_ℤ order.quantity (pos 0))) [
        | inl empty ↦ absurd (shares (no_shares _ e (rw empty at h)))
        | inr some_order ↦ elim (Option-cases (open_of bar)) [
          | inl missing ↦ absurd (shares (no_shares _ e (rw (some_order, missing) at h)))
          | inr (p, opens) ↦ elim (Bool-cases (valid_price (some p))) [
            | inr bad ↦ absurd (shares (no_shares _ e (rw (some_order, opens, bad) at h)))
            | inl good ↦ elim (Option-cases (blocked order.side status p)) [
              | inr (r, why) ↦
                  absurd (shares (no_shares _ e (rw (some_order, opens, good, why) at h)))
              | inl clear ↦
                  let (trading, known, low, high, away) =
                    blocked-eq-none order.side status p clear in
                  let (rule, capacity, ruled, fits, limit, w, u, priced_at) =
                    sized_lem config order volume cash sellable day
                      (legal_price status (slipped config order.side p)) e (ground arith)
                      (rw (some_order, opens, good, clear) at h) shares in
                  record {
                    open_price = p;
                    rule = rule;
                    capacity = capacity;
                    opens = opens;
                    is_price = good;
                    trading = trading;
                    limits_known = known;
                    above_down = low;
                    below_up = high;
                    not_at_limit = away;
                    ruled = ruled;
                    is_valid = fits;
                    limited = limit;
                    within = w;
                    under = u;
                    price = priced_at;
                  }
            ]
          ]
        ]
      ]
