-- ===== src/Backtest/Clock/Tests.antt =====
-- Runs of the clock at the default market hours (src/backtest/clock.py).
use fpro_v.Base.{
  ℕ, ◌+◌, ◌*◌, ◌≡◌, ◌≤◌, ◌<◌, refl, Option, none, some, List, [], ◌∷◌, length, map, Text, codes,
  text_eq, Date, Datetime, date, at_time, day_us, Result, ok, raise, bind, ⊤, arith, value_error,
}
use fpro_v.Backtest.Clock.{
  EventKind, Event, MarketHours, validate, segment_bars, bars_from, market_timeline, move_to,
  event_at, check_segments, frequency_step, all_events, session_events, middle_events,
}
use fpro_v.Backtest.Clock.Timeline.{IsTiling, segment_bars-IsTiling}
use fpro_v.Backtest.Clock.Replay.{AreLater, follow, market_timeline-follow}

-- a time of the day
abbrev clock_time : ℕ → ℕ → ℕ
clock_time hour minute = (hour * 60 + minute) * 60_000_000

abbrev hours : MarketHours
hours = record {
  exchange = codes "SSE";
  timezone = codes "Asia/Shanghai";
  opens_at = clock_time 9 25;
  closes_at = clock_time 16 5;
  segments = (clock_time 9 30, clock_time 11 30) ∷ (clock_time 13 0, clock_time 15 0) ∷ [];
  daily_bar_at = clock_time 16 5;
  opening_auction = some (clock_time 9 15, clock_time 9 30);
}

hours-validate : validate hours ≡ ok tt
unfolding validate check_segments
hours-validate = refl

abbrev sessions : List Date
sessions = date 2024 1 2 ∷ date 2024 1 3 ∷ []

abbrev events_of : Result (List Event) → List Event
events_of (ok es) = es
events_of (raise _) = []

abbrev timeline : List Event
timeline = events_of (market_timeline sessions (codes "60m") hours)

hours-market_timeline : market_timeline sessions (codes "60m") hours ≡ ok timeline
unfolding market_timeline frequency_step fpro_v.Base.text_beq all_events session_events
    middle_events fpro_v.Backtest.Clock.intraday_events segment_bars
hours-market_timeline = refl

-- two days of a start, an auction, four bars and an end
timeline-length : length timeline ≡ 14
unfolding market_timeline frequency_step fpro_v.Base.text_beq all_events session_events
    middle_events fpro_v.Backtest.Clock.intraday_events segment_bars bars_from
timeline-length = refl

abbrev morning : List Event
morning = events_of (
    segment_bars (date 2024 1 2) (codes "60m") (clock_time 1 0) (clock_time 9 30)
      (clock_time 11 30))

morning-segment_bars :
    segment_bars (date 2024 1 2) (codes "60m") (clock_time 1 0) (clock_time 9 30) (clock_time 11 30)
    ≡ ok morning
unfolding segment_bars
morning-segment_bars = refl

segment_bars-IsTiling_example : IsTiling (clock_time 9 30) (clock_time 11 30) morning
segment_bars-IsTiling_example =
    segment_bars-IsTiling (date 2024 1 2) (codes "60m") (clock_time 1 0) (clock_time 9 30)
      (clock_time 11 30) morning (omega arith) (omega arith) morning-segment_bars

sessions-AreLater : AreLater (date 2024 1 1) sessions
unfolding AreLater
sessions-AreLater = (omega arith, (omega arith, tt))

market_timeline-follow_example : (follow timeline none).0 ≡ ok tt
market_timeline-follow_example =
    market_timeline-follow (date 2024 1 1) sessions (codes "60m") hours timeline hours-validate
      (omega arith) sessions-AreLater hours-market_timeline
