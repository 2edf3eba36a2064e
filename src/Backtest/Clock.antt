-- ===== src/Backtest/Clock.antt =====
-- The market hours, the events of a replay and the clock (src/backtest/clock.py). A time of the day
-- is its microseconds since midnight.
pub mod Timeline
pub mod Replay
mod Tests
use fpro_v.Base.{
  ℕ, zero, suc, ◌+◌, ◌-◌, ◌*◌, ◌/◌, ◌%◌, ◌≡◌, Bool, true, false, ◌&&◌, ◌||◌, not, Option, none,
  some, List, [], ◌∷◌, ◌++◌, if◌then◌else◌, ◌==◌, ltb, leb, Text, codes, text_eq, ◌=?◌, Date,
  Datetime, at_time, Dict, lookup, Result, ok, raise, bind, ⊤, value_error,
}
use fpro_v.Base.Method.{Method}

pub data EventKind : Type 0 where
  session_start auction bar strategy session_end : EventKind

pub record Event : Type 0 where
  pub at : Datetime
  pub session : Date
  pub interval_start : Datetime
  pub frequency : Text
  pub kind : EventKind

pub record MarketHours : Type 0 where
  pub exchange : Text
  pub timezone : Text
  pub opens_at : ℕ
  pub closes_at : ℕ
  pub segments : List (ℕ × ℕ)
  pub daily_bar_at : ℕ
  pub opening_auction : Option (ℕ × ℕ)

-- `_FREQUENCY_MINUTES`, and the microseconds of a minute
abbrev frequency_minutes : Dict Text ℕ
frequency_minutes =
    (codes "1m", 1)
    ∷ (codes "5m", 5)
    ∷ (codes "15m", 15)
    ∷ (codes "30m", 30)
    ∷ (codes "60m", 60)
    ∷ []

abbrev pub minute_us : ℕ
minute_us = 60_000_000

-- the loop of `__post_init__`: the end of the last segment
unfoldable pub check_segments : ℕ → List (ℕ × ℕ) → Result ℕ
check_segments previous_end [] = ok previous_end
check_segments previous_end ((start, end) ∷ segments) =
    let rest = check_segments end segments in
    if not (leb previous_end start && ltb start end) then raise value_error else rest

-- the test of the opening auction against the first segment
abbrev pub check_auction : MarketHours → Option (ℕ × ℕ) → List (ℕ × ℕ) → Result ⊤
check_auction hours none segments = ok tt
check_auction hours (some _) [] = raise value_error
check_auction hours (some (start, end)) ((first, _) ∷ _) =
    if not (ltb start end && leb end first) || ltb end hours.opens_at
    then raise value_error
    else ok tt

abbrev pub is_empty {ℓ} : {A : Type ℓ} → List A → Bool
is_empty [] = true
is_empty (_ ∷ _) = false

-- `__post_init__`, for a known time zone
unfoldable pub validate : MarketHours → Result ⊤
validate hours =
    if is_empty hours.segments
    then raise value_error
    else bind (check_segments hours.opens_at hours.segments) (λ last.
      if not (leb last hours.daily_bar_at && leb hours.daily_bar_at hours.closes_at)
      then raise value_error
      else check_auction hours hours.opening_auction hours.segments)

abbrev pub event_at : Date → Text → EventKind → Datetime → Datetime → Event
event_at session frequency kind at interval_start = record {
  at = at;
  session = session;
  interval_start = interval_start;
  frequency = frequency;
  kind = kind;
}

-- The `while` loop of `_intraday_events`. It has a round for each step between the two times.
unfoldable pub bars_from : Date → Text → ℕ → ℕ → Datetime → Datetime → List Event
bars_from session frequency step zero start end = []
bars_from session frequency step (suc rounds) start end =
    let rest = bars_from session frequency step rounds (start + step) end in
    if ltb start end
    then event_at session frequency EventKind.bar (start + step) start ∷ rest
    else []

-- the bars of one segment
unfoldable pub segment_bars : Date → Text → ℕ → Datetime → Datetime → Result (List Event)
segment_bars session frequency step start end =
    if not ((end - start) % step == 0)
    then raise value_error
    else ok (bars_from session frequency step ((end - start) / step) start end)

-- `_intraday_events`
unfoldable pub intraday_events : Date → Text → ℕ → List (ℕ × ℕ) → Result (List Event)
intraday_events session frequency step [] = ok []
intraday_events session frequency step ((start, end) ∷ segments) =
    bind (segment_bars session frequency step (at_time session start) (at_time session end))
      (λ bars. bind (intraday_events session frequency step segments) (λ rest. ok (bars ++ rest)))

abbrev pub auction_events : Date → Text → Option (ℕ × ℕ) → List Event
auction_events session frequency none = []
auction_events session frequency (some (start, end)) =
    event_at session frequency EventKind.auction (at_time session end) (at_time session start) ∷ []

abbrev pub daily_event : Date → Text → MarketHours → List (ℕ × ℕ) → List Event
daily_event session frequency hours [] = []
daily_event session frequency hours ((first, _) ∷ _) =
    event_at session frequency EventKind.bar (at_time session hours.daily_bar_at)
      (at_time session first)
    ∷ []

-- the events between the start and the end of a session: of a day's bar, or of the bars of `step`
unfoldable pub middle_events : Date → Text → MarketHours → Option ℕ → Result (List Event)
middle_events session frequency hours none = ok (daily_event session frequency hours hours.segments)
middle_events session frequency hours (some step) =
    bind (intraday_events session frequency step hours.segments)
      (λ bars. ok (auction_events session frequency hours.opening_auction ++ bars))

unfoldable pub session_events : Date → Text → MarketHours → Option ℕ → Result (List Event)
session_events session frequency hours step =
    let start = at_time session hours.opens_at in
    let end = at_time session hours.closes_at in
    bind (middle_events session frequency hours step) (λ middle. ok (
      event_at session frequency EventKind.session_start start start
      ∷ (middle ++ (event_at session frequency EventKind.session_end end end ∷ []))))

unfoldable pub all_events : List Date → Text → MarketHours → Option ℕ → Result (List Event)
all_events [] frequency hours step = ok []
all_events (session ∷ sessions) frequency hours step =
    bind (session_events session frequency hours step)
      (λ events. bind (all_events sessions frequency hours step) (λ rest. ok (events ++ rest)))

-- the step of a frequency: none for a day
abbrev pub step_of : Option ℕ → Result (Option ℕ)
step_of none = raise value_error
step_of (some minutes) = ok (some (minutes * minute_us))

unfoldable pub frequency_step : Text → Result (Option ℕ)
frequency_step frequency =
    if frequency =? codes "1d" then ok none else step_of (lookup frequency frequency_minutes)

-- `market_timeline`
unfoldable pub market_timeline : List Date → Text → MarketHours → Result (List Event)
market_timeline sessions frequency hours =
    bind (frequency_step frequency) (λ step. all_events sessions frequency hours step)

-- `Clock.move_to`: the state is `now`
abbrev pub is_back : Datetime → Option Datetime → Bool
is_back at none = false
is_back at (some now) = ltb at now

unfoldable pub move_to : Datetime → Method (Option Datetime) ⊤
move_to at now = if is_back at now then (raise value_error, now) else (ok tt, some at)
