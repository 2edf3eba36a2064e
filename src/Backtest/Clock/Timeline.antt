-- ===== src/Backtest/Clock/Timeline.antt =====
-- The bars tile the trading hours, and the clock follows the timeline (src/backtest/clock.py).
use native.Mathlib.Nat.{div-add-mod'}
use fpro_v.Base.{
  ℕ, zero, suc, ◌+◌, ◌-◌, ◌*◌, ◌/◌, ◌%◌, ◌≡◌, ◌≤◌, ◌<◌, refl, subst, true, List, [], ◌∷◌, ◌++◌,
  ◌==◌, ltb, Bool-cases, inl, inr, Text, Date, Datetime, at_time, ok, bind-eq-ok, ok-injective,
  arith,
}
use fpro_v.Backtest.Clock.{
  EventKind, Event, check_segments, bars_from, segment_bars, intraday_events,
}

-- Bars that follow each other without a gap, each visible at its end.
unfoldable pub IsTiling : Datetime → Datetime → List Event → Type 0
IsTiling start end [] = start ≡ end
IsTiling start end (e ∷ es) =
    (e.interval_start ≡ start) × (start < e.at) × (e.kind ≡ EventKind.bar) × IsTiling e.at end es

suc-mul : (n step : ℕ) → suc n * step ≡ step + n * step
suc-mul n step = ground arith

bars_from-IsTiling :
    (session : Date) (frequency : Text) (step rounds start end : ℕ)
    → 0 < step
    → end ≡ start + rounds * step
    → IsTiling start end (bars_from session frequency step rounds start end)
unfolding bars_from IsTiling
bars_from-IsTiling session frequency step zero start end pos e = ground (arith, e)
bars_from-IsTiling session frequency step (suc n) start end pos e =
    let before : ltb start end ≡ true = ground (arith, e, suc-mul n step) in
    rw before (
      refl,
      omega arith,
      refl,
      bars_from-IsTiling session frequency step n (start + step) end pos
          (omega (arith, e, suc-mul n step)),
    )

-- events at times that never go back, from one time to another
unfoldable pub IsRising : Datetime → Datetime → List Event → Type 0
IsRising lo hi [] = lo ≤ hi
IsRising lo hi (e ∷ es) = (lo ≤ e.at) × IsRising e.at hi es

pub IsRising-from :
    (lo lo' hi : ℕ) (es : List Event) → lo' ≤ lo → IsRising lo hi es → IsRising lo' hi es
unfolding IsRising
IsRising-from lo lo' hi [] h r = omega arith
IsRising-from lo lo' hi (e ∷ es) h r = (omega arith, r.1)

pub IsRising-to :
    (lo hi hi' : ℕ) (es : List Event) → hi ≤ hi' → IsRising lo hi es → IsRising lo hi' es
unfolding IsRising
IsRising-to lo hi hi' [] h r = omega arith
IsRising-to lo hi hi' (e ∷ es) h r = (r.0, IsRising-to e.at hi hi' es h r.1)

pub IsRising-nil : (lo hi : ℕ) → lo ≤ hi → IsRising lo hi []
unfolding IsRising
IsRising-nil lo hi h = h

pub IsRising-cons :
    (lo hi : ℕ) (e : Event) (es : List Event)
    → lo ≤ e.at
    → IsRising e.at hi es
    → IsRising lo hi (e ∷ es)
unfolding IsRising
IsRising-cons lo hi e es h r = (h, r)

pub IsRising-append :
    (lo mid hi : ℕ) (xs ys : List Event)
    → IsRising lo mid xs
    → IsRising mid hi ys
    → IsRising lo hi (xs ++ ys)
unfolding IsRising
IsRising-append lo mid hi [] ys r q = IsRising-from mid lo hi ys r q
IsRising-append lo mid hi (x ∷ xs) ys r q = (r.0, IsRising-append x.at mid hi xs ys r.1 q)

IsTiling-IsRising :
    (start end : ℕ) (es : List Event) → IsTiling start end es → IsRising start end es
unfolding IsTiling IsRising
IsTiling-IsRising start end [] t = omega arith
IsTiling-IsRising start end (e ∷ es) (_, lt, _, rest) =
    (omega arith, IsTiling-IsRising e.at end es rest)

-- The bars of a segment of the trading hours tile it: the first begins with the segment, each
-- begins where the one before ended, and the last ends with the segment.
pub segment_bars-IsTiling :
    (session : Date) (frequency : Text) (step start end : ℕ) (es : List Event)
    → 0 < step
    → start ≤ end
    → segment_bars session frequency step start end ≡ ok es
    → IsTiling start end es
unfolding segment_bars
segment_bars-IsTiling session frequency step start end es pos le h =
    elim (Bool-cases ((end - start) % step == 0)) [
      | inr bad ↦ ground (arith, rw bad at h)
      | inl whole ↦ subst (IsTiling start end) (ok-injective (rw whole at h)) (
          bars_from-IsTiling session frequency step ((end - start) / step) start end pos
            (ground (arith, div-add-mod' (end - start) step)))
    ]

pub check_segments_step :
    (previous start end last : ℕ) (segments : List (ℕ × ℕ))
    → check_segments previous ((start, end) ∷ segments) ≡ ok last
    → (previous ≤ start) × (start < end) × (check_segments end segments ≡ ok last)
unfolding check_segments
check_segments_step previous start end last segments h = ground arith

pub check_segments_le :
    (previous last : ℕ) (segments : List (ℕ × ℕ))
    → check_segments previous segments ≡ ok last
    → previous ≤ last
unfolding check_segments
check_segments_le previous last [] h = ground arith
check_segments_le previous last ((start, end) ∷ segments) h =
    let (le, lt, rest) = check_segments_step previous start end last segments h in
    omega (arith, check_segments_le end last segments rest)

pub intraday_events-IsRising :
    (session : Date) (frequency : Text) (step previous last : ℕ) (segments : List (ℕ × ℕ))
    (es : List Event)
    → 0 < step
    → check_segments previous segments ≡ ok last
    → intraday_events session frequency step segments ≡ ok es
    → IsRising (at_time session previous) (at_time session last) es
unfolding intraday_events
intraday_events-IsRising session frequency step previous last [] es pos c h =
    subst (IsRising (at_time session previous) (at_time session last)) (ok-injective h)
      (IsRising-nil _ _ (omega (arith, check_segments_le previous last [] c)))
intraday_events-IsRising session frequency step previous last ((start, end) ∷ segments) es pos c h =
    let (le, lt, c') = check_segments_step previous start end last segments c in
    let (bars, hb, h') =
      bind-eq-ok (segment_bars session frequency step (at_time session start) (at_time session end))
        _ h in
    let (rest, hr, done) = bind-eq-ok (intraday_events session frequency step segments) _ h' in
    let tiles =
      segment_bars-IsTiling session frequency step (at_time session start) (at_time session end)
        bars pos (omega arith) hb in
    subst (IsRising (at_time session previous) (at_time session last)) (ok-injective done) (
      IsRising-from (at_time session start) (at_time session previous) (at_time session last)
        (bars ++ rest) (omega arith)
        (IsRising-append (at_time session start) (at_time session end) (at_time session last) bars
          rest (IsTiling-IsRising (at_time session start) (at_time session end) bars tiles)
          (intraday_events-IsRising session frequency step end last segments rest pos c' hr)))
