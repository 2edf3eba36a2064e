-- ===== src/Backtest/Schedule/Tests.antt =====
-- Runs of the schedule on the events of three days (src/backtest/schedule.py).
use fpro_v.Base.{
  ◌≡◌, refl, none, List, [], ◌∷◌, map, All, Text, codes, date, at_time, Date, ok, raise, sort,
  distinct, ltb, value_error, data_error, nat_eq, text_beq, nat_eq,
}
use fpro_v.Backtest.Clock.{Event, EventKind, MarketHours}
use fpro_v.Backtest.Schedule.{
  Schedule, validate, minutes_from, trigger_times, rule_times, next_session, year_of, year_from,
  last_at, segment_steps, steps_from, boundaries_of, strategy_events, build_strategy_events,
}
use fpro_v.Backtest.Schedule.Calls.{build_strategy_events-eq-ok}

abbrev hours : MarketHours
hours = record {
  exchange = codes "SSE";
  timezone = codes "Asia/Shanghai";
  opens_at = 33_900_000_000;
  closes_at = 57_900_000_000;
  segments = (34_200_000_000, 34_920_000_000) ∷ [];
  daily_bar_at = 57_900_000_000;
  opening_auction = none;
}

-- the bar of a day
abbrev day_bar : Date → Event
day_bar day = record {
  at = at_time day 57_900_000_000;
  session = day;
  interval_start = at_time day 34_200_000_000;
  frequency = codes "1d";
  kind = EventKind.bar;
}

-- Thursday, Friday and Monday
abbrev market : List Event
market = day_bar (date 2024 2 29) ∷ day_bar (date 2024 3 1) ∷ day_bar (date 2024 3 4) ∷ []

abbrev calendar : List Date
calendar = date 2024 2 29 ∷ date 2024 3 1 ∷ date 2024 3 4 ∷ date 2024 3 5 ∷ []

abbrev rule : Text → Schedule
rule every = record { every = every; at = none; times = none }

bad_rule : validate (rule (codes "0m")) ≡ raise value_error
unfolding validate minutes_from trigger_times rule_times next_session year_of year_from last_at
    segment_steps steps_from text_beq
bad_rule = refl

weekly :
    trigger_times (rule (codes "week")) market calendar hours
    ≡ ok (at_time (date 2024 3 1) 57_900_000_000 ∷ [])
unfolding validate minutes_from trigger_times rule_times next_session year_of year_from last_at
    segment_steps steps_from text_beq
weekly = refl

monthly :
    trigger_times (rule (codes "month")) market calendar hours
    ≡ ok (at_time (date 2024 2 29) 57_900_000_000 ∷ [])
unfolding validate minutes_from trigger_times rule_times next_session year_of year_from last_at
    segment_steps steps_from text_beq
monthly = refl

-- Without the day after the last one, the end of the week is not known.
no_calendar :
    trigger_times (rule (codes "week")) market (date 2024 2 29 ∷ []) hours ≡ raise data_error
unfolding validate minutes_from trigger_times rule_times next_session year_of year_from last_at
    segment_steps steps_from text_beq
no_calendar = refl

-- A segment of twelve minutes has one step of seven minutes.
seven :
    trigger_times (rule (codes "7m")) (day_bar (date 2024 3 1) ∷ []) [] hours
    ≡ ok (at_time (date 2024 3 1) 34_620_000_000 ∷ [])
unfolding validate minutes_from trigger_times rule_times next_session year_of year_from last_at
    segment_steps steps_from text_beq
seven = refl

abbrev called : Event
called = record (day_bar (date 2024 3 1)) { kind = EventKind.strategy }

calls : build_strategy_events (called.at ∷ called.at ∷ []) market ≡ ok (called ∷ [])
unfolding boundaries_of strategy_events build_strategy_events sort distinct
calls = refl

build_strategy_events-eq-ok_example :
    (map (λ (event : Event). event.at) (called ∷ [])
      ≡ sort ltb (distinct (called.at ∷ called.at ∷ [])))
    × All (λ (event : Event). event.kind ≡ EventKind.strategy) (called ∷ [])
build_strategy_events-eq-ok_example =
    build_strategy_events-eq-ok (called.at ∷ called.at ∷ []) market (called ∷ []) calls
