-- ===== src/MarketData/Identity/Tests.antt =====
-- Runs of the code history (src/market_data/identity.py).
use fpro_v.Base.{
  ℕ, ◌≡◌, refl, true, Option, none, some, List, [], ◌∷◌, All, Text, codes, text_eq, nat_eq, lookup,
  sort, date, Result, ok, raise, mapping_error,
}
use fpro_v.Base.Host.{micro_host}
use fpro_v.MarketData.Identity.{
  CodeInterval, History, create, collect_rows, sort_histories, is_padded, ends_in_space, is_gapless,
  sid_of, code_in, code_at, group, covers,
}
use fpro_v.MarketData.Identity.Consistency.{sid_of-code_at}
use fpro_v.MarketData.Identity.Timeline.{code_at_unique}

-- One security under two codes, and one under a third.
abbrev first : CodeInterval
first = record {
  sid = 7;
  code = codes "000001.SZ";
  valid_from = date 2020 1 1;
  valid_to = some (date 2022 1 1);
}

abbrev second : CodeInterval
second = record { sid = 7; code = codes "000009.SZ"; valid_from = date 2022 1 1; valid_to = none }

abbrev other : CodeInterval
other = record { sid = 8; code = codes "600000.SH"; valid_from = date 2000 1 1; valid_to = none }

abbrev rows : List CodeInterval
rows = second ∷ other ∷ first ∷ []

abbrev history : History
history = record {
  by_code = (codes "000009.SZ", 7) ∷ (codes "600000.SH", 8) ∷ (codes "000001.SZ", 7) ∷ [];
  by_sid = (7, first ∷ second ∷ []) ∷ (8, other ∷ []) ∷ [];
}

history-create : create micro_host.space rows ≡ ok history
unfolding create collect_rows sort_histories is_padded ends_in_space is_gapless sort
    fpro_v.Base.text_beq
history-create = refl

code_before : code_at history 7 (date 2021 6 1) ≡ ok (codes "000001.SZ")
unfolding code_at code_in
code_before = refl

code_on_the_day : code_at history 7 (date 2022 1 1) ≡ ok (codes "000009.SZ")
unfolding code_at code_in
code_on_the_day = refl

-- A code that two securities share is refused.
shared_code : create micro_host.space (other ∷ record other { sid = 9 } ∷ []) ≡ raise mapping_error
unfolding create collect_rows sort_histories is_padded ends_in_space is_gapless sort
    fpro_v.Base.text_beq
shared_code = refl

sid_of-code_at_example : sid_of history (codes "000001.SZ") ≡ ok 7
sid_of-code_at_example =
    sid_of-code_at micro_host.space rows history 7 (date 2021 6 1) (codes "000001.SZ")
      history-create code_before

code_at_unique_example :
    All
      (λ item.
        covers (date 2021 6 1) item ≡ true → code_at history 7 (date 2021 6 1) ≡ ok item.code)
      (group (lookup 7 history.by_sid))
code_at_unique_example =
    code_at_unique micro_host.space rows history 7 (date 2021 6 1) history-create
