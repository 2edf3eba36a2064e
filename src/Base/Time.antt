-- ===== src/Base/Time.antt =====
-- Dates as proleptic Gregorian ordinals and wall-clock times in microseconds, all in the one time
-- zone of the market.
use Prim.Native.Nat.{ℕ, ◌+◌, ◌-◌, ◌*◌, ◌/◌, ◌%◌}
use mathlib.Core.Bool.{Bool, not, ◌&&◌, ◌||◌}
use fpro_v.Base.Tests.{◌==◌, ltb, if◌then◌else◌}

abbrev pub Date : Type 0
Date = ℕ

abbrev pub Datetime : Type 0
Datetime = ℕ

abbrev leap : ℕ → Bool
leap year = (year % 4 == 0) && (not (year % 100 == 0) || (year % 400 == 0))

abbrev before_month : ℕ → ℕ
before_month month =
    if ltb month 7
    then (if ltb month 4
        then (if month == 1 then 0 else if month == 2 then 31 else 59)
        else if month == 4
        then 90
        else if month == 5
        then 120
        else 151)
    else if ltb month 10
    then (if month == 7 then 181 else if month == 8 then 212 else 243)
    else if month == 10
    then 273
    else if month == 11
    then 304
    else 334

-- `date(year, month, day).toordinal()`
abbrev pub date : ℕ → ℕ → ℕ → Date
date year month day =
    let y = year - 1 in
    y * 365
    + y / 4
    - y / 100
    + y / 400
    + before_month month
    + (if leap year && ltb 2 month then 1 else 0)
    + day

abbrev pub day_us : ℕ
day_us = 86_400_000_000

-- `datetime.combine(session, value)`, and `at.date()`
abbrev pub at_time : Date → ℕ → Datetime
at_time session value = session * day_us + value

abbrev pub date_of : Datetime → Date
date_of at = at / day_us
