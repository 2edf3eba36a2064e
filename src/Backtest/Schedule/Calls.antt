-- ===== src/Backtest/Schedule/Calls.antt =====
-- The calls of a strategy are at the times asked for (src/backtest/schedule.py).
use fpro_v.Base.{
  ◌≡◌, refl, ap₂, ◌∙◌, Option, none, some, List, [], ◌∷◌, map, foldl, arith, ltb, ◌==◌, ==_iff, All,
  sort, distinct, filter, nat_eq, Datetime, Dict, lookup, insert, ok, bind-eq-ok, ok-injective,
  subst, Bool-cases, Option-cases, inl, inr,
}
use fpro_v.Backtest.Clock.{Event, EventKind}
use fpro_v.Backtest.Schedule.{
  is_bar, add_boundary, add_boundaries, boundaries_of, strategy_event, strategy_events,
  build_strategy_events,
}

-- every boundary stands at the time of its event
IsTimed : Datetime × Event → Type 0
IsTimed entry = entry.1.at ≡ entry.0

IsTimed-insert :
    (at : Datetime) (event : Event) (d : Dict Datetime Event)
    → event.at ≡ at
    → All IsTimed d
    → All IsTimed (insert at event d)
unfolding IsTimed
IsTimed-insert at event [] e a = (e, tt)
IsTimed-insert at event ((k, old) ∷ d) e a = elim (Bool-cases (at == k)) [
  | inl same ↦ rw same (e ∙ (==_iff at k).0 same, a.1)
  | inr other ↦ rw other (a.0, IsTimed-insert at event d e a.1)
]

IsTimed-add :
    (at : Datetime) (event : Event) (d : Dict Datetime Event)
    → event.at ≡ at
    → All IsTimed d
    → All IsTimed (add_boundary at event d)
IsTimed-add at event d e a = elim (Option-cases (lookup at d)) [
  | inl new ↦ rw new (IsTimed-insert at event d e a)
  | inr (old, there) ↦ rw there a
]

IsTimed-fold :
    (events : List Event) (d : Dict Datetime Event)
    → All IsTimed d
    → All IsTimed (foldl add_boundaries d events)
IsTimed-fold [] d a = a
IsTimed-fold (event ∷ events) d a =
    IsTimed-fold events (add_boundaries d event) (elim (Bool-cases (is_bar event)) [
      | inl bar ↦
          rw bar (IsTimed-add event.interval_start _ _ refl (IsTimed-add event.at event d refl a))
      | inr other ↦ rw other (IsTimed-add event.at event d refl a)
    ])

IsTimed-bars :
    (events : List Event) (d : Dict Datetime Event)
    → All IsTimed d
    → All IsTimed (foldl (λ d event. insert event.at event d) d events)
IsTimed-bars [] d a = a
IsTimed-bars (event ∷ events) d a =
    IsTimed-bars events (insert event.at event d) (IsTimed-insert event.at event d refl a)

IsTimed-lookup :
    (at : Datetime) (d : Dict Datetime Event) (event : Event)
    → All IsTimed d
    → lookup at d ≡ some event
    → event.at ≡ at
unfolding IsTimed
IsTimed-lookup at [] event a h = cc
IsTimed-lookup at ((k, old) ∷ d) event a h = elim (Bool-cases (at == k)) [
  | inl same ↦ ground (arith, a.0, h, same)
  | inr other ↦ IsTimed-lookup at d event a.1 (rw other at h)
]

strategy_event-eq-ok :
    (found : Option Event) (event : Event)
    → strategy_event found ≡ ok event
    → (there : (there : Event) × (found ≡ some there)) × (event
        ≡ record there.0 { kind = EventKind.strategy })
strategy_event-eq-ok none event h = cc
strategy_event-eq-ok (some there) event h = ((there, refl), cc)

strategy_events-eq-ok :
    (d : Dict Datetime Event) (times : List Datetime) (events : List Event)
    → All IsTimed d
    → strategy_events d times ≡ ok events
    → (map (λ event. event.at) events ≡ times)
      × All (λ event. event.kind ≡ EventKind.strategy) events
unfolding strategy_events
strategy_events-eq-ok d [] [] a h = (refl, tt)
strategy_events-eq-ok d [] (event ∷ events) a h = cc
strategy_events-eq-ok d (at ∷ times) events a h =
    let (event, found, h₁) = bind-eq-ok (strategy_event (lookup at d)) _ h in
    let (rest, built, h₂) = bind-eq-ok (strategy_events d times) _ h₁ in
    let (same_times, kinds) = strategy_events-eq-ok d times rest a built in
    let (there, e) = strategy_event-eq-ok (lookup at d) event found in
    let is_events : event ∷ rest ≡ events = ok-injective h₂ in
    subst (λ l. (map (λ x. x.at) l ≡ at ∷ times) × All (λ x. x.kind ≡ EventKind.strategy) l)
      is_events
      (ap₂ ◌∷◌ (rw e (IsTimed-lookup at d there.0 a there.1)) same_times, (rw e refl, kinds))

-- If `_build_strategy_events` returns, the strategy is called exactly at the times asked for, each
-- once and in order, and every event is a call of the strategy.
pub build_strategy_events-eq-ok :
    (times : List Datetime) (market events : List Event)
    → build_strategy_events times market ≡ ok events
    → (map (λ event. event.at) events ≡ sort ltb (distinct times))
      × All (λ event. event.kind ≡ EventKind.strategy) events
unfolding build_strategy_events boundaries_of
build_strategy_events-eq-ok times market events h =
    strategy_events-eq-ok (boundaries_of market) (sort ltb (distinct times)) events
      (IsTimed-fold market _ (IsTimed-bars (filter is_bar market) [] tt)) h
