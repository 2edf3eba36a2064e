-- ===== src/Backtest/Schedule.antt =====
-- When a strategy is called, and the events of its calls (src/backtest/schedule.py). Of the
-- digits of a minute rule only the decimal ones of ASCII are known.
pub mod Calls
mod Tests
use fpro_v.Base.{
  ℕ, zero, suc, ◌+◌, ◌-◌, ◌*◌, ◌/◌, ◌%◌, Bool, true, false, not, ◌&&◌, ◌||◌, Option, none, some,
  List, [], ◌∷◌, ◌++◌, map, foldl, if◌then◌else◌, ltb, leb, ◌==◌, is_some, member, sort, distinct,
  filter, Text, codes, text_eq, ◌=?◌, nat_eq, Date, Datetime, at_time, date, Dict, lookup, insert,
  Result, ok, raise, bind, raise_when, ⊤, value_error, data_error,
}
use fpro_v.Backtest.Clock.{Event, EventKind, MarketHours, minute_us, is_empty}

pub record Schedule : Type 0 where
  pub every : Text
  pub at : Option ℕ
  pub times : Option (List Datetime)

-- the number before a final `m`, if the text is a number and `m`
unfoldable pub minutes_from : ℕ → Bool → Text → Option ℕ
minutes_from n seen [] = none
minutes_from n seen (c ∷ cs) =
    let rest = minutes_from (n * 10 + (c - b'0')) true cs in
    if (c == b'm') && is_empty cs
    then (if seen then some n else none)
    else if leb b'0' c && leb c b'9'
    then rest
    else none

abbrev pub is_positive : Option ℕ → Bool
is_positive none = false
is_positive (some n) = ltb 0 n

abbrev pub day_rules : List Text
day_rules = codes "day" ∷ codes "week" ∷ codes "month" ∷ []

-- `__post_init__`
unfoldable pub validate : Schedule → Result ⊤
validate s =
    bind
      (raise_when
        (not (member s.every (codes "bar" ∷ day_rules))
          && not (is_positive (minutes_from 0 false s.every)))
        value_error)
      λ _. bind (raise_when (is_some s.at && not (member s.every day_rules)) value_error) λ _.
        raise_when (is_some s.times && (not (s.every =? codes "bar") || is_some s.at)) value_error

-- `date.isocalendar()[:2]` of two days is the same if they are in one week from Monday to Sunday
abbrev pub same_week : Date → Date → Bool
same_week a b = (a - 1) / 7 == (b - 1) / 7

-- the first day of a year: `_days_before_year(year) + 1`
abbrev pub year_start : ℕ → Date
year_start year = let y = year - 1 in y * 365 + y / 4 - y / 100 + y / 400 + 1

-- the year of a day, from a year that does not start after it
unfoldable pub year_from : ℕ → ℕ → Date → ℕ
year_from zero year day = year
year_from (suc rounds) year day =
    let rest = year_from rounds (suc year) day in
    if ltb day (year_start (suc year)) then year else rest

-- `date.year`: in the years 1 to 9999 the count of years of 366 days is at most 22 too small
unfoldable pub year_of : Date → ℕ
year_of day = year_from 30 (day / 366) day

-- `date.month`: how many months of its year have started
abbrev pub month_of : Date → ℕ
month_of day =
    let year = year_of day in
    foldl (λ n month. if leb (date year month 1) day then n + 1 else n) 0
      (1 ∷ 2 ∷ 3 ∷ 4 ∷ 5 ∷ 6 ∷ 7 ∷ 8 ∷ 9 ∷ 10 ∷ 11 ∷ 12 ∷ [])

abbrev pub same_month : Date → Date → Bool
same_month a b = (year_of a == year_of b) && (month_of a == month_of b)

-- `calendar[bisect_right(calendar, session)]` of a sorted calendar, if there is one
unfoldable pub next_session : List Date → Date → Option Date
next_session [] session = none
next_session (day ∷ days) session =
    let rest = next_session days session in if ltb session day then some day else rest

-- whether the next session is in the same week or month, if the rule asks for it
abbrev pub in_same_period : Text → Date → Option Date → Result Bool
in_same_period every session none = raise data_error
in_same_period every session (some following) =
    ok (if every =? codes "week" then same_week session following else same_month session following)

abbrev pub same_period : Text → List Date → Date → Result Bool
same_period every calendar session =
    if (every =? codes "week") || (every =? codes "month")
    then in_same_period every session (next_session calendar session)
    else ok false

abbrev pub is_bar_kind : EventKind → Bool
is_bar_kind EventKind.bar = true
is_bar_kind _ = false

abbrev pub is_bar : Event → Bool
is_bar event = is_bar_kind event.kind

abbrev pub bars_of : Option (List Event) → List Event
bars_of none = []
bars_of (some bars) = bars

-- `bars[event.session].append(event)` for each bar
abbrev pub bars_by_session : List Event → Dict Date (List Event)
bars_by_session events =
    foldl (λ d event. insert event.session (bars_of (lookup event.session d) ++ (event ∷ [])) d) []
      (filter is_bar events)

-- `day_bars[-1].at`
unfoldable pub last_at : Datetime → List Event → Datetime
last_at at [] = at
last_at at (event ∷ events) = last_at event.at events

-- the `while` loop of a minute rule, with a round for each step of the segment
unfoldable pub steps_from : ℕ → ℕ → Datetime → Datetime → List Datetime
steps_from zero step at end = []
steps_from (suc rounds) step at end =
    let rest = steps_from rounds step (at + step) end in if leb at end then at ∷ rest else []

unfoldable pub segment_steps : Date → ℕ → List (ℕ × ℕ) → List Datetime
segment_steps session step [] = []
segment_steps session step ((start, end) ∷ segments) =
    let first = at_time session start in
    let last = at_time session end in
    steps_from ((last - first) / step) step (first + step) last
    ++ segment_steps session step segments

abbrev pub minutes_or_zero : Option ℕ → ℕ
minutes_or_zero none = 0
minutes_or_zero (some n) = n

abbrev pub day_time : Option ℕ → Date → List Event → Datetime
day_time (some at) session bars = at_time session at
day_time none session bars = last_at 0 bars

-- the times that a session adds
abbrev pub session_times : Schedule → MarketHours → Date → List Event → List Datetime
session_times s market session bars =
    if s.every =? codes "bar"
    then map (λ event. event.at) bars
    else if member s.every day_rules
    then day_time s.at session bars ∷ []
    else segment_steps session (minutes_or_zero (minutes_from 0 false s.every) * minute_us)
        market.segments

-- the loop of `_trigger_times`
unfoldable pub rule_times :
    Schedule → List Date → MarketHours → Dict Date (List Event) → Result (List Datetime)
rule_times s calendar market [] = ok []
rule_times s calendar market ((session, bars) ∷ days) =
    bind (same_period s.every calendar session) λ skip.
      bind (rule_times s calendar market days)
        λ rest. ok (if skip then rest else session_times s market session bars ++ rest)

-- `_trigger_times`
abbrev pub times_or_rule :
    Option (List Datetime)
    → Schedule
    → List Event
    → List Date
    → MarketHours
    → Result (List Datetime)
times_or_rule (some times) s events calendar market = ok times
times_or_rule none s events calendar market = rule_times s calendar market (bars_by_session events)

unfoldable pub trigger_times :
    Schedule → List Event → List Date → MarketHours → Result (List Datetime)
trigger_times s events calendar market = times_or_rule s.times s events calendar market

-- `boundaries.setdefault(at, event)`
abbrev pub set_boundary :
    Datetime → Event → Option Event → Dict Datetime Event → Dict Datetime Event
set_boundary at event none boundaries = insert at event boundaries
set_boundary at event (some _) boundaries = boundaries

abbrev pub add_boundary : Datetime → Event → Dict Datetime Event → Dict Datetime Event
add_boundary at event boundaries = set_boundary at event (lookup at boundaries) boundaries

-- the loop of `_build_strategy_events`: an event at its time, a bar also at its start
abbrev pub add_boundaries : Dict Datetime Event → Event → Dict Datetime Event
add_boundaries boundaries event =
    let ended = add_boundary event.at event boundaries in
    if is_bar event
    then add_boundary event.interval_start (record event { at = event.interval_start }) ended
    else ended

unfoldable pub boundaries_of : List Event → Dict Datetime Event
boundaries_of events =
    foldl add_boundaries (foldl (λ d event. insert event.at event d) [] (filter is_bar events))
      events

abbrev pub strategy_event : Option Event → Result Event
strategy_event none = raise data_error
strategy_event (some event) = ok (record event { kind = EventKind.strategy })

unfoldable pub strategy_events : Dict Datetime Event → List Datetime → Result (List Event)
strategy_events boundaries [] = ok []
strategy_events boundaries (at ∷ times) =
    bind (strategy_event (lookup at boundaries))
      λ event. bind (strategy_events boundaries times) λ events. ok (event ∷ events)

-- `_build_strategy_events`; `times` is a set
unfoldable pub build_strategy_events : List Datetime → List Event → Result (List Event)
build_strategy_events times events =
    strategy_events (boundaries_of events) (sort ltb (distinct times))

-- `events`
unfoldable pub schedule_events :
    Schedule → List Event → List Date → MarketHours → Result (List Event)
schedule_events s events calendar market =
    bind (trigger_times s events calendar market) λ times. build_strategy_events times events
