-- ===== src/Backtest/Engine/History.antt =====
-- A run of the engine is a history of its broker (src/backtest/engine.py).
pub mod Actions
pub mod Sessions
pub mod Times
pub mod Runs
use fpro_v.Base.{
  ℕ, ◌≡◌, ◌≤◌, refl, sym, ap, subst, ◌∙◌, Bool, true, false, Option, none, some, List, [], ◌∷◌,
  Text, Dict, Date, Datetime, Result, ok, raise, ⊤, arith, count, if◌then◌else◌, Error, Bool-cases,
  inl, inr,
}
use fpro_v.Base.Int.{ℤ}
use fpro_v.Base.Host.{Host}
use fpro_v.Base.Method.{
  Method, continue, ◌>>=◌, ◌>>◌, pure, gets, reads, modify, raise_if, continue-eq-ok,
}
use fpro_v.MarketData.Identity.{History as Identities}
use fpro_v.Backtest.Clock.{Event, EventKind}
use fpro_v.Backtest.Config.{BacktestConfig}
use fpro_v.Backtest.Domain.{OrderReason, CorporateAction, Fill, Bar, OrderRequest, AccountSnapshot}
use fpro_v.Backtest.Portfolio.State.{Portfolio, Key}
use fpro_v.Backtest.Broker.State.{Broker, submit, cancel, cancel_symbol, set_session, expire_all}
use fpro_v.Backtest.Broker.Market.{DataView}
use fpro_v.Backtest.Broker.Matching.{match_bar}
use fpro_v.Backtest.Broker.Lifecycle.{Step, Run}
use fpro_v.Backtest.CorporateActions.Sessions.{
  World, on_portfolio, on_broker, for_each, capture, validate_if, recognize_amount, recognize_cash,
  recognize_stock, when_entitled, ex_action, without_ex, pay_action, listing_action,
  on_session_start, on_session_end,
}
use fpro_v.Backtest.Engine.{Engine, Reader, Strategy, Plan, on_world}
use fpro_v.Backtest.Engine.Sessions.{
  start_session, end_session, settle_each, settle_missing, check_managed, check_lifecycles,
}
use fpro_v.Backtest.Engine.Bars.{process_bar, apply_fills, match_event, match_pending}
use fpro_v.Backtest.Engine.Calls.{
  run_strategy, plain_request, call_strategy, carry_out, submit_each, rebalance,
}
use fpro_v.Backtest.Engine.Replay.{step, replay, run, handle, move_clock, expired}

module _ {F : Type 0} ⦃host : Host F⦄ where
  -- some calls of the broker in order
  pub data Steps (b : Broker F) : Broker F → Type 0 where
    start : Steps b b
    next : {c d : Broker F} → Steps b c → Step c d → Steps b d

  pub Steps-trans : {b c d : Broker F} → Steps b c → Steps c d → Steps b d
  Steps-trans s start = s
  Steps-trans s (next t call) = next (Steps-trans s t) call

  -- A method on a state with a broker: if it returns, it has called the broker some times.
  unfoldable pub Tracks : {S A : Type 0} → (S → Broker F) → Method S A → Type 0
  Tracks {S} {A} broker m = (s t : S) (a : A) → m s ≡ (ok a, t) → Steps (broker s) (broker t)

  module _ {S : Type 0} (broker : S → Broker F) where
    pub Tracks-bind :
        {A B : Type 0} (m : Method S A) (f : A → Method S B)
        → Tracks broker m
        → ((a : A) → Tracks broker (f a))
        → Tracks broker (m >>= f)
    unfolding Tracks
    Tracks-bind m f k g s t b h =
        let (a, returned, rest) = continue-eq-ok (m s).0 f (m s).1 h in
        Steps-trans (k s (m s).1 a (ap (λ r. (r, (m s).1)) returned)) (g a (m s).1 t b rest)

    -- what leaves the broker alone
    pub Tracks-keeps :
        {A : Type 0} (m : Method S A) → ((s : S) → broker (m s).1 ≡ broker s) → Tracks broker m
    unfolding Tracks
    Tracks-keeps m k s t a h = subst (Steps (broker s)) (sym (k s) ∙ ap (λ x. broker x.1) h) start

    pub Tracks-pure : {A : Type 0} (a : A) → Tracks broker (pure a)
    Tracks-pure a = Tracks-keeps (pure a) (λ s. refl)

    pub Tracks-gets : {A : Type 0} (f : S → A) → Tracks broker (gets f)
    Tracks-gets f = Tracks-keeps (gets f) (λ s. refl)

    pub Tracks-reads : {A : Type 0} (f : S → Result A) → Tracks broker (reads f)
    Tracks-reads f = Tracks-keeps (reads f) (λ s. refl)

  -- the broker of a world
  abbrev pub its_broker : World F → Broker F
  its_broker w = w.broker

  pub Tracks-on_portfolio :
      {A : Type 0} (m : Method (Portfolio F) A) → Tracks its_broker (on_portfolio m)
  Tracks-on_portfolio m = Tracks-keeps its_broker (on_portfolio m) (λ s. refl)

  Tracks-one :
      {A : Type 0} (m : Method (Broker F) A)
      → ((b c : Broker F) (a : A) → m b ≡ (ok a, c) → Step b c)
      → Tracks its_broker (on_broker m)
  unfolding Tracks
  Tracks-one m k s t a h = next start (k s.broker t.broker a (ap (λ x. (x.0, x.1.broker)) h))

  pub Tracks-submit :
      (request : OrderRequest F) (at : Datetime) → Tracks its_broker (on_broker (submit request at))
  Tracks-submit request at =
      Tracks-one (submit request at)
        (λ b c a h. subst (Step b) (ap (λ x. x.1) h) (Step.submits request at))

  pub Tracks-match_bar :
      (event : Event) (bars : Dict Text (Bar F)) (account : AccountSnapshot F) (view : DataView F)
      → Tracks its_broker (on_broker (match_bar event bars account view))
  Tracks-match_bar event bars account view =
      Tracks-one (match_bar event bars account view)
        (λ b c a h. Step.matches event bars account view a h)

  pub Tracks-if :
      (b : Bool) {A : Type 0} (m n : Method (World F) A)
      → Tracks its_broker m
      → Tracks its_broker n
      → Tracks its_broker (if b then m else n)
  Tracks-if true m n h k = h
  Tracks-if false m n h k = k

  pub Tracks-for_each :
      (body : CorporateAction F → Method (World F) ⊤) (actions : List (CorporateAction F))
      → ((action : CorporateAction F) → Tracks its_broker (body action))
      → Tracks its_broker (for_each body actions)
  unfolding for_each
  Tracks-for_each body [] k = Tracks-pure its_broker tt
  Tracks-for_each body (action ∷ actions) k =
      Tracks-bind its_broker _ _ (k action) (λ _. Tracks-for_each body actions k)

module _ (F : Type 0) ⦃host : Host F⦄ where
  pub Tracks-cancel_symbol :
      (key : Key) (reason : OrderReason) (at : Datetime)
      → Tracks (its_broker {F = F}) (on_broker (cancel_symbol key reason at))
  Tracks-cancel_symbol key reason at =
      Tracks-one {F = F} (cancel_symbol key reason at)
        (λ b c a h. subst (Step b) (ap (λ x. x.1) h) (Step.cancels_symbol key reason at))

pub ruleset tracking = (
  Tracks-bind, Tracks-pure, Tracks-gets, Tracks-reads, Tracks-on_portfolio, Tracks-cancel_symbol,
  Tracks-submit, Tracks-match_bar, Tracks-if,
)
