-- ===== src/Backtest/Engine/History/Times.antt =====
-- The time of a run: once a backtest has had an event its clock is set (src/backtest/engine.py).
use fpro_v.Base.{
  ◌≡◌, refl, sym, ap, ◌∙◌, ◌⊎◌, inl, inr, some, List, [], ◌∷◌, ◌++◌, Result, ok, Bool-cases,
  Result-cases, Datetime, arith,
}
use fpro_v.Base.Host.{Host}
use fpro_v.Base.Method.{Method, ◌>>=◌, pure, gets, reads, modify, continue-eq-ok}
use fpro_v.Backtest.Clock.{Event, EventKind, move_to, is_back}
use fpro_v.Backtest.Config.{BacktestConfig}
use fpro_v.Backtest.Domain.{Bar, EquitySnapshot}
use fpro_v.Backtest.Portfolio.State.{Key}
use fpro_v.Backtest.CorporateActions.Sessions.{World}
use fpro_v.Backtest.Engine.{Engine, Reader, Strategy, on_world}
use fpro_v.Backtest.Engine.Sessions.{end_session}
use fpro_v.Backtest.Engine.Bars.{count_bars, process_bar}
use fpro_v.Backtest.Engine.Calls.{run_strategy, call_strategy}
use fpro_v.Backtest.Engine.Replay.{step, replay, handle, move_clock}

module _ {F S : Type 0} where
  -- a method that leaves the clock alone
  unfoldable Waits : {A : Type 0} → Method (Engine F S) A → Type 0
  Waits m = (s : Engine F S) → (m s).1.now ≡ s.now

  Waits-bind :
      {A B : Type 0} (m : Method (Engine F S) A) (f : A → Method (Engine F S) B)
      → Waits m
      → ((a : A) → Waits (f a))
      → Waits (m >>= f)
  unfolding Waits
  Waits-bind m f k g s = elim (Result-cases (m s).0) [
    | inl (e, raised) ↦ rw raised (k s)
    | inr (a, returned) ↦ rw returned (g a (m s).1 ∙ k s)
  ]

module _ (F S : Type 0) where
  Waits-pure : {A : Type 0} (a : A) → Waits {F = F} {S = S} (pure a)
  unfolding Waits
  Waits-pure a s = refl

  Waits-gets : {A : Type 0} (f : Engine F S → A) → Waits (gets f)
  unfolding Waits
  Waits-gets f s = refl

  Waits-reads : {A : Type 0} (f : Engine F S → Result A) → Waits (reads f)
  unfolding Waits
  Waits-reads f s = refl

  Waits-on_world : {A : Type 0} (m : Method (World F) A) → Waits {F = F} {S = S} (on_world m)
  unfolding Waits
  Waits-on_world m s = refl

module _ {F : Type 0} (S : Type 0) ⦃host : Host F⦄ where
  Waits-count_bars : (bars : List (Key × Bar F)) → Waits {F = F} {S = S} (modify (count_bars bars))
  unfolding Waits count_bars
  Waits-count_bars [] s = refl
  Waits-count_bars (_ ∷ _) s = refl

  Waits-snapshot :
      (snapshot : EquitySnapshot F)
      → Waits (modify (λ (e : Engine F S). record e { equity = e.equity ++ (snapshot ∷ []) }))
  unfolding Waits
  Waits-snapshot snapshot s = refl

  ruleset waiting = (Waits-bind, Waits-pure, Waits-gets, Waits-reads, Waits-on_world)

  module _ (config : BacktestConfig F) (reader : Reader F) (strategy : Strategy F S) where
    Waits-call_strategy : (event : Event) → Waits (call_strategy strategy event)
    unfolding Waits
    Waits-call_strategy event s = refl

    Waits-process_bar : (event : Event) → Waits {F = F} {S = S} (process_bar config reader event)
    unfolding process_bar
    Waits-process_bar event = search (waiting, Waits-count_bars) depth 14

    Waits-run_strategy : (event : Event) → Waits (run_strategy config reader strategy event)
    unfolding run_strategy
    Waits-run_strategy event = search (waiting, Waits-call_strategy) depth 14

    Waits-end_session : (event : Event) → Waits {F = F} {S = S} (end_session event)
    unfolding end_session
    Waits-end_session event = search (waiting, Waits-snapshot) depth 14

    Waits-handle :
        (kind : EventKind) (event : Event) → Waits (handle config reader strategy kind event)
    Waits-handle EventKind.session_start event = Waits-on_world F S _
    Waits-handle EventKind.bar event = Waits-process_bar event
    Waits-handle EventKind.auction event = Waits-process_bar event
    Waits-handle EventKind.strategy event = Waits-run_strategy event
    Waits-handle EventKind.session_end event = Waits-end_session event

    move_clock-now :
        (at : Datetime) (s : Engine F S)
        → (move_clock at s).0 ≡ ok tt
        → (move_clock at s).1.now ≡ some at
    unfolding move_to
    move_clock-now at s h = elim (Bool-cases (is_back at s.now)) [
      | inl back ↦ ground (arith, back, h)
      | inr on ↦ rw on refl
    ]

    step-now :
        (event : Event) (s t : Engine F S)
        → step config reader strategy event s ≡ (ok tt, t)
        → t.now ≡ some event.at
    unfolding step Waits
    step-now event s t h =
        let u = (move_clock event.at s).1 in
        let (_, moved, h₁) = continue-eq-ok (move_clock event.at s).0 _ u h in
        let (_, handled, h₂) =
          continue-eq-ok (handle config reader strategy event.kind event u).0 _
            (handle config reader strategy event.kind event u).1 h₁ in
        sym (ap (λ r. r.1.now) h₂)
        ∙ Waits-handle event.kind event u
        ∙ move_clock-now event.at s moved

    -- a replay without an event changes nothing, any other sets the clock
    pub replay-now :
        (events : List Event) (s t : Engine F S)
        → replay config reader strategy events s ≡ (ok tt, t)
        → (t ≡ s) ⊎ ((at : Datetime) × (t.now ≡ some at))
    unfolding replay
    replay-now [] s t h = inl (sym (ap (λ r. r.1) h))
    replay-now (event ∷ events) s t h =
        let u = (step config reader strategy event s).1 in
        let (_, stepped, h₁) = continue-eq-ok (step config reader strategy event s).0 _ u h in
        let now = step-now event s u (ap (λ r. (r, u)) stepped) in
        elim (replay-now events u t h₁) [
          | inl same ↦ inr (event.at, ap (λ x. x.now) same ∙ now)
          | inr (at, later) ↦ inr (at, later)
        ]
