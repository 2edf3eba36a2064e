-- ===== src/QmtReceiver/Ranges/Missing.antt =====
-- What is missing of a request (src/qmt_receiver/sync.py).
use fpro_v.Base.{
  ◌+◌, ◌≡◌, ap, ◌∙◌, false, not, ◌&&◌, List, [], ◌∷◌, arith, if◌then◌else◌, ltb, leb, Date, All,
  Bool-cases, inl, inr,
}
use fpro_v.QmtReceiver.Ranges.{
  Range, later, rest_missing, gap_before, missing_from, missing_date_ranges, merge_date_ranges,
  covers,
}
use fpro_v.QmtReceiver.Ranges.Merge.{
  IsRange, Apart, covers_early, covers-merge_date_ranges, merge_date_ranges-Apart,
}

-- the days of a gap and of what is missing after the completed range
covers-gap_before :
    (day cursor requested_end from : Date) (c : Range) (cs : List Range) (rest : List Range)
    → Apart from (c ∷ cs)
    → ltb c.last cursor ≡ false
    → ltb requested_end c.first ≡ false
    → covers day rest
      ≡ (leb (later cursor (c.last + 1)) day && leb day requested_end && not (covers day cs))
    → covers day (
        gap_before requested_end cursor c.first (
          if ltb requested_end (later cursor (c.last + 1))
          then rest_missing requested_end (later cursor (c.last + 1))
          else rest))
      ≡ (leb cursor day && leb day requested_end && not (covers day (c ∷ cs)))
covers-gap_before day cursor requested_end from c cs rest s on here e =
    ground (arith, s.0, s.1, covers_early (c.last + 2) day cs s.2)

covers-missing_from :
    (day cursor requested_end from : Date) (cs : List Range)
    → Apart from cs
    → covers day (missing_from requested_end cursor cs)
      ≡ (leb cursor day && leb day requested_end && not (covers day cs))
unfolding missing_from
covers-missing_from day cursor requested_end from [] s = ground arith
covers-missing_from day cursor requested_end from (c ∷ cs) s =
    elim (Bool-cases (ltb c.last cursor)) [
      | inl skip ↦ rw skip (
          ground
            (arith, s.0, s.1, covers-missing_from day cursor requested_end (c.last + 2) cs s.2))
      | inr on ↦ rw on (elim (Bool-cases (ltb requested_end c.first)) [
        | inl beyond ↦ rw beyond (ground (arith, s.0, s.1, covers_early (c.last + 2) day cs s.2))
        | inr here ↦ rw here (
            covers-gap_before day cursor requested_end from c cs _ s on here (
              covers-missing_from day (later cursor (c.last + 1)) requested_end (c.last + 2) cs
                s.2))
      ])
    ]

-- A day is missing if and only if it is in the request and in none of the completed ranges, if
-- these are merged ones.
pub covers-missing_date_ranges :
    (day requested_start requested_end : Date) (ranges : List Range)
    → All IsRange ranges
    → covers day (missing_date_ranges requested_start requested_end (merge_date_ranges ranges))
      ≡ (leb requested_start day && leb day requested_end && not (covers day ranges))
unfolding missing_date_ranges
covers-missing_date_ranges day requested_start requested_end ranges a =
    covers-missing_from day requested_start requested_end 0 (merge_date_ranges ranges)
      (merge_date_ranges-Apart ranges a)
    ∙ ap (λ b. leb requested_start day && leb day requested_end && not b)
        (covers-merge_date_ranges day ranges a)
