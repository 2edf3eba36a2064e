-- ===== src/Backtest/Clock/Replay.antt =====
-- The timeline of a replay and the clock that follows it (src/backtest/clock.py).
use fpro_v.Base.{
  ℕ, ◌≡◌, ◌≤◌, ◌<◌, refl, subst, Option, none, some, List, [], ◌∷◌, ◌++◌, Bool-cases, inl, inr,
  Text, Date, Datetime, at_time, day_us, ok, bind-eq-ok, ok-injective, ⊤, arith,
}
use fpro_v.Base.Method.{Method, ◌>>◌, pure}
use fpro_v.Backtest.Clock.{
  Event, MarketHours, check_segments, check_auction, is_empty, validate, intraday_events,
  auction_events, daily_event, middle_events, session_events, all_events, frequency_step,
  market_timeline, move_to,
}
use fpro_v.Backtest.Clock.Timeline.{
  IsRising, IsRising-from, IsRising-nil, IsRising-cons, IsRising-append, IsRising-to,
  check_segments_step, check_segments_le, intraday_events-IsRising,
}

-- What the checks of the market hours leave.
record Hours (hours : MarketHours) : Type 0 where
  last : ℕ
  checked : check_segments hours.opens_at hours.segments ≡ ok last
  from_last : last ≤ hours.daily_bar_at
  in_session : hours.daily_bar_at ≤ hours.closes_at
  auction_checked : check_auction hours hours.opening_auction hours.segments ≡ ok tt

validate-Hours : (hours : MarketHours) → validate hours ≡ ok tt → Hours hours
unfolding validate
validate-Hours hours h = elim (Bool-cases (is_empty hours.segments)) [
  | inl none_left ↦ ground (arith, rw none_left at h)
  | inr some_left ↦
      let (last, c, h') =
        bind-eq-ok (check_segments hours.opens_at hours.segments) _ (rw some_left at h) in
      record {
        last = last;
        checked = c;
        from_last = ground (arith, h');
        in_session = ground (arith, h');
        auction_checked = ground (arith, h');
      }
]

from_first :
    (first end last : ℕ) (segments : List (ℕ × ℕ))
    → first < end
    → check_segments end segments ≡ ok last
    → check_segments first ((first, end) ∷ segments) ≡ ok last
unfolding check_segments
from_first first end last segments lt c = ground arith

-- the bars after an auction
auctioned-IsRising :
    (session : Date) (frequency : Text) (step last : ℕ) (hours : MarketHours)
    (auction_hours : Option (ℕ × ℕ)) (segments : List (ℕ × ℕ)) (bars : List Event)
    → 0 < step
    → check_segments hours.opens_at segments ≡ ok last
    → check_auction hours auction_hours segments ≡ ok tt
    → intraday_events session frequency step segments ≡ ok bars
    → IsRising
        (at_time session hours.opens_at)
        (at_time session last)
        (auction_events session frequency auction_hours ++ bars)
auctioned-IsRising session frequency step last hours none segments bars pos c a h =
    intraday_events-IsRising session frequency step hours.opens_at last segments bars pos c h
auctioned-IsRising session frequency step last hours (some (s, e)) [] bars pos c a h = cc
auctioned-IsRising session frequency step last hours (some (s, e)) ((first, end) ∷ segments) bars
      pos c a h =
    let (le, lt, rest) = check_segments_step hours.opens_at first end last segments c in
    IsRising-cons (at_time session hours.opens_at) (at_time session last) _ bars (ground arith) (
      IsRising-from (at_time session first) (at_time session e) (at_time session last) bars
        (ground arith)
        (intraday_events-IsRising session frequency step first last ((first, end) ∷ segments) bars
          pos (from_first first end last segments lt rest) h))

daily-IsRising :
    (session : Date) (frequency : Text) (hours : MarketHours) (segments : List (ℕ × ℕ))
    → hours.opens_at ≤ hours.daily_bar_at
    → IsRising
        (at_time session hours.opens_at)
        (at_time session hours.daily_bar_at)
        (daily_event session frequency hours segments)
daily-IsRising session frequency hours [] le = IsRising-nil _ _ (omega arith)
daily-IsRising session frequency hours ((first, end) ∷ segments) le =
    IsRising-cons _ _ _ [] (omega arith) (IsRising-nil _ _ (omega arith))

-- a frequency of minutes has bars of some length
IsStep : Option ℕ → Type 0
IsStep none = Unit
IsStep (some step) = 0 < step

middle_events-IsRising :
    (session : Date) (frequency : Text) (hours : MarketHours) (step : Option ℕ) (es : List Event)
    → IsStep step
    → Hours hours
    → middle_events session frequency hours step ≡ ok es
    → IsRising (at_time session hours.opens_at) (at_time session hours.daily_bar_at) es
unfolding middle_events IsStep
middle_events-IsRising session frequency hours none es pos v h =
    subst (IsRising (at_time session hours.opens_at) (at_time session hours.daily_bar_at))
      (ok-injective h)
      (daily-IsRising session frequency hours hours.segments (
        omega
          (arith, check_segments_le hours.opens_at v.last hours.segments v.checked, v.from_last)))
middle_events-IsRising session frequency hours (some step) es pos v h =
    let (bars, hb, done) = bind-eq-ok (intraday_events session frequency step hours.segments) _ h in
    subst (IsRising (at_time session hours.opens_at) (at_time session hours.daily_bar_at))
      (ok-injective done)
      (IsRising-to (at_time session hours.opens_at) (at_time session v.last)
        (at_time session hours.daily_bar_at) _ (omega (arith, v.from_last))
        (auctioned-IsRising session frequency step v.last hours hours.opening_auction hours.segments
          bars pos v.checked v.auction_checked hb))

session_events-IsRising :
    (session : Date) (frequency : Text) (hours : MarketHours) (step : Option ℕ) (es : List Event)
    → IsStep step
    → Hours hours
    → session_events session frequency hours step ≡ ok es
    → IsRising (at_time session hours.opens_at) (at_time session hours.closes_at) es
unfolding session_events
session_events-IsRising session frequency hours step es pos v h =
    let (middle, hm, done) = bind-eq-ok (middle_events session frequency hours step) _ h in
    let lo = at_time session hours.opens_at in
    let mid = at_time session hours.daily_bar_at in
    let hi = at_time session hours.closes_at in
    subst (IsRising lo hi) (ok-injective done) (
      IsRising-cons lo hi _ _ (omega arith) (
        IsRising-append lo mid hi middle _
          (middle_events-IsRising session frequency hours step middle pos v hm)
          (IsRising-cons mid hi _ [] (omega (arith, v.in_session))
            (IsRising-nil hi hi (omega arith)))))

-- sessions in order, after a day
unfoldable pub AreLater : Date → List Date → Type 0
AreLater day [] = Unit
AreLater day (session ∷ sessions) = (day < session) × AreLater session sessions

-- the clock moved along events
abbrev pub follow : List Event → Method (Option Datetime) ⊤
follow [] = pure tt
follow (e ∷ es) = move_to e.at >> follow es

-- a clock that is not past a time
abbrev IsBefore : Option Datetime → Datetime → Type 0
IsBefore none at = Unit
IsBefore (some now) at = now ≤ at

IsBefore-trans : (now : Option Datetime) (a b : Datetime) → IsBefore now a → a ≤ b → IsBefore now b
IsBefore-trans none a b h k = tt
IsBefore-trans (some now) a b h k = omega arith

move_to_lem :
    (now : Option Datetime) (at : Datetime) → IsBefore now at → move_to at now ≡ (ok tt, some at)
unfolding move_to
move_to_lem none at h = refl
move_to_lem (some now) at h = ground arith

follow-IsRising :
    (lo hi : ℕ) (es : List Event) (now : Option Datetime)
    → IsRising lo hi es
    → IsBefore now lo
    → (follow es now).0 ≡ ok tt
unfolding IsRising
follow-IsRising lo hi [] now r b = refl
follow-IsRising lo hi (e ∷ es) now r b =
    rw (move_to_lem now e.at (IsBefore-trans now lo e.at b r.0))
      (follow-IsRising e.at hi es (some e.at) r.1 (omega arith))

last_day : Date → List Date → Date
last_day day [] = day
last_day day (session ∷ sessions) = last_day session sessions

all_events-IsRising :
    (day : Date) (sessions : List Date) (frequency : Text) (hours : MarketHours) (step : Option ℕ)
    (es : List Event)
    → IsStep step
    → Hours hours
    → hours.closes_at < day_us
    → AreLater day sessions
    → all_events sessions frequency hours step ≡ ok es
    → IsRising (at_time day hours.closes_at) (at_time (last_day day sessions) hours.closes_at) es
unfolding all_events AreLater last_day
all_events-IsRising day [] frequency hours step es pos v night later h =
    subst (IsRising (at_time day hours.closes_at) (at_time day hours.closes_at)) (ok-injective h)
      (IsRising-nil _ _ (omega arith))
all_events-IsRising day (session ∷ sessions) frequency hours step es pos v night later h =
    let (events, he, h') = bind-eq-ok (session_events session frequency hours step) _ h in
    let (rest, hr, done) = bind-eq-ok (all_events sessions frequency hours step) _ h' in
    let lo = at_time day hours.closes_at in
    let mid = at_time session hours.closes_at in
    let hi = at_time (last_day session sessions) hours.closes_at in
    subst (IsRising lo hi) (ok-injective done) (
      IsRising-append lo mid hi events rest
        (IsRising-from (at_time session hours.opens_at) lo mid events (omega arith)
          (session_events-IsRising session frequency hours step events pos v he))
        (all_events-IsRising session sessions frequency hours step rest pos v night later.1 hr))

frequency_step-IsStep :
    (frequency : Text) (step : Option ℕ) → frequency_step frequency ≡ ok step → IsStep step
unfolding frequency_step IsStep
frequency_step-IsStep frequency none h = tt
frequency_step-IsStep frequency (some step) h = ground (arith, h)

-- With market hours that pass their checks and end before midnight, and sessions in order, the clock
-- follows the whole timeline: no event is before the one in front of it.
pub market_timeline-follow :
    (day : Date) (sessions : List Date) (frequency : Text) (hours : MarketHours) (es : List Event)
    → validate hours ≡ ok tt
    → hours.closes_at < day_us
    → AreLater day sessions
    → market_timeline sessions frequency hours ≡ ok es
    → (follow es none).0 ≡ ok tt
unfolding market_timeline
market_timeline-follow day sessions frequency hours es valid night later h =
    let (step, hs, made) = bind-eq-ok (frequency_step frequency) _ h in
    follow-IsRising (at_time day hours.closes_at) _ es none
      (all_events-IsRising day sessions frequency hours step es
        (frequency_step-IsStep frequency step hs) (validate-Hours hours valid) night later made)
      tt
