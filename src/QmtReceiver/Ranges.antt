-- ===== src/QmtReceiver/Ranges.antt =====
-- Closed ranges of dates: what is merged to one, and what is missing of a request
-- (src/qmt_receiver/storage.py, src/qmt_receiver/sync.py).
pub mod Merge
pub mod Missing
use fpro_v.Base.{
  ℕ, ◌+◌, ◌-◌, ◌≤◌, min, Bool, ◌&&◌, ◌||◌, List, [], ◌∷◌, if◌then◌else◌, ltb, leb, ◌==◌, any, sort,
  Date,
}

-- `tuple[date, date]`
pub record Range : Type 0 where
  pub first : Date
  pub last : Date

-- the order of tuples
abbrev pub range_before : Range → Range → Bool
range_before a b = ltb a.first b.first || ((a.first == b.first) && ltb a.last b.last)

-- `max` of two dates
abbrev pub later : Date → Date → Date
later a b = if ltb a b then b else a

-- The loop of `_merge_date_ranges` from a range on, where `previous` is `merged[-1]`.
unfoldable pub merge_on : Range → List Range → List Range
merge_on previous [] = previous ∷ []
merge_on previous (r ∷ rs) =
    let apart = merge_on r rs in
    let joined =
      merge_on (record { first = previous.first; last = later previous.last r.last }) rs in
    if ltb (previous.last + 1) r.first then previous ∷ apart else joined

abbrev pub merge_sorted : List Range → List Range
merge_sorted [] = []
merge_sorted (r ∷ rs) = merge_on r rs

-- `_merge_date_ranges`
unfoldable pub merge_date_ranges : List Range → List Range
merge_date_ranges ranges = merge_sorted (sort range_before ranges)

-- what the end of `_missing_date_ranges` adds
abbrev pub rest_missing : Date → Date → List Range
rest_missing requested_end cursor =
    if leb cursor requested_end then record { first = cursor; last = requested_end } ∷ [] else []

-- the range added before a completed one
abbrev pub gap_before : Date → Date → Date → List Range → List Range
gap_before requested_end cursor completed_start missing =
    if ltb cursor completed_start
    then record { first = cursor; last = min requested_end (completed_start - 1) } ∷ missing
    else missing

-- the loop of `_missing_date_ranges` from a cursor on
unfoldable pub missing_from : Date → Date → List Range → List Range
missing_from requested_end cursor [] = rest_missing requested_end cursor
missing_from requested_end cursor (c ∷ cs) =
    let skipped = missing_from requested_end cursor cs in
    let cursor' = later cursor (c.last + 1) in
    let rest = missing_from requested_end cursor' cs in
    if ltb c.last cursor
    then skipped
    else if ltb requested_end c.first
    then rest_missing requested_end cursor
    else gap_before requested_end cursor c.first
        (if ltb requested_end cursor' then rest_missing requested_end cursor' else rest)

-- `_missing_date_ranges`
unfoldable pub missing_date_ranges : Date → Date → List Range → List Range
missing_date_ranges requested_start requested_end completed =
    missing_from requested_end requested_start completed

-- whether a day is in a range, and in one of several
abbrev pub within : Date → Range → Bool
within day r = leb r.first day && leb day r.last

abbrev pub covers : Date → List Range → Bool
covers day ranges = any (within day) ranges
