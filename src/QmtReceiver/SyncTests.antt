-- ===== src/QmtReceiver/SyncTests.antt =====
-- Tests of the synchronisation on small documents, and the theorems at them.
use fpro_v.Base.{
  ℕ, ◌≡◌, refl, true, false, not, ◌&&◌, ◌||◌, none, some, List, [], ◌∷◌, arith, leb, Date, Text,
  codes, ok, sort, distinct, text_beq, text_ltb, text_eq, ◌=?◌, map, ◌+◌, ⊤, if◌then◌else◌,
}
use fpro_v.Base.Method.{pure}
use fpro_v.QmtReceiver.Ranges.{
  Range, merge_on, merge_date_ranges, missing_from, missing_date_ranges, covers,
}
use fpro_v.QmtReceiver.Ranges.Merge.{merge_date_ranges_canonical}
use fpro_v.QmtReceiver.Ranges.Missing.{covers-missing_date_ranges}
use fpro_v.QmtReceiver.SyncMeta.{
  Key, key_eq, SyncMeta, daily_table, merged, validate_sync_key, check_entries, load_sync_ranges,
  sync_completed_ranges, mark_sync_completed,
}
use fpro_v.QmtReceiver.SyncMeta.Completed.{mark_sync_completed_adds}
use fpro_v.QmtReceiver.Sync.{
  Texts, SyncPlatform, Synced, add_pending, pending_batches, requested_dates, sync_daily, sync_all,
}
use fpro_v.QmtReceiver.Sync.Keeps.{sync_all_keeps}

abbrev days : ℕ → ℕ → Range
days first last = record { first = first; last = last }

abbrev parts : List Range
parts = days 5 6 ∷ days 1 3 ∷ days 4 4 ∷ []

merge_parts : merge_date_ranges parts ≡ days 1 6 ∷ []
unfolding merge_date_ranges merge_on sort
merge_parts = refl

missing_parts : missing_date_ranges 2 9 (days 1 3 ∷ days 5 6 ∷ []) ≡ days 4 4 ∷ days 7 9 ∷ []
unfolding missing_date_ranges missing_from
missing_parts = refl

same_days : (day : Date) → covers day parts ≡ covers day (days 1 6 ∷ [])
same_days day = ground arith

merge_date_ranges_canonical_example : merge_date_ranges parts ≡ merge_date_ranges (days 1 6 ∷ [])
merge_date_ranges_canonical_example =
    merge_date_ranges_canonical parts (days 1 6 ∷ [])
      (omega arith, (omega arith, (omega arith, tt))) (omega arith, tt) same_days

covers-missing_date_ranges_example :
    covers 7 (missing_date_ranges 2 9 (merge_date_ranges parts))
    ≡ (leb 2 7 && leb 7 9 && not (covers 7 parts))
covers-missing_date_ranges_example =
    covers-missing_date_ranges 7 2 9 parts (omega arith, (omega arith, (omega arith, tt)))

abbrev bank : Key
bank = record { code = codes "600000.SH"; period = none }

abbrev same : Text → Text
same text = text

abbrev stored : List (ℕ × ℕ) → SyncMeta
stored ranges = (daily_table, map (λ r. record { key = bank; range = days r.0 r.1 }) ranges) ∷ []

mark_twice :
    mark_sync_completed same daily_table bank 4 6 (stored ((1, 3) ∷ (9, 9) ∷ []))
    ≡ ok (stored ((1, 6) ∷ (9, 9) ∷ []))
unfolding mark_sync_completed sync_completed_ranges load_sync_ranges check_entries merged
    merge_date_ranges merge_on sort text_beq text_ltb
mark_twice = refl

completed : sync_completed_ranges same daily_table bank (stored ((1, 6) ∷ [])) ≡ ok (days 1 6 ∷ [])
unfolding sync_completed_ranges load_sync_ranges check_entries merged merge_date_ranges merge_on
    sort text_beq text_ltb
completed = refl

valid_bank : validate_sync_key same daily_table bank ≡ ok tt
unfolding text_beq
valid_bank = refl

completed_three :
    sync_completed_ranges same daily_table bank (stored ((1, 3) ∷ [])) ≡ ok (days 1 3 ∷ [])
unfolding sync_completed_ranges load_sync_ranges check_entries merged merge_date_ranges merge_on
    sort text_beq text_ltb
completed_three = refl

mark_sync_completed_adds_example :
    (before after : List Range) × (sync_completed_ranges same daily_table bank
        (stored ((1, 3) ∷ (9, 9) ∷ []))
      ≡ ok before)
    × (sync_completed_ranges same daily_table bank (stored ((1, 6) ∷ (9, 9) ∷ [])) ≡ ok after)
    × ((day : Date)
        → covers day after ≡ (covers day before || ((bank =? bank) && (leb 4 day && leb day 6))))
mark_sync_completed_adds_example =
    mark_sync_completed_adds same daily_table bank bank 4 6 (stored ((1, 3) ∷ (9, 9) ∷ []))
      (stored ((1, 6) ∷ (9, 9) ∷ [])) mark_twice valid_bank

-- The first text is day 2, all others are day 9.
abbrev texts : Texts
texts = record {
  strip_upper = same;
  strptime = λ text. if text =? codes "19700102" then some 2 else some 9;
  strftime = λ date. codes "";
}

-- The world counts the downloads. Every response has every code.
abbrev agent : SyncPlatform ℕ ⊤ ⊤ ⊤
agent = record {
  today = λ w. (ok 8, w);
  download_history = λ stocks period start end force w. (ok tt, w + 1);
  query_history = λ stocks period start end. pure tt;
  has_code = λ code response. true;
  download_financial = λ stocks tables. pure tt;
  query_financial = λ stocks tables start end. pure tt;
  query_dividend_factors = λ stocks start end. pure tt;
  write_daily = λ response. pure 5;
  write_intraday = λ response period. pure 7;
  write_financial = λ response. pure 11;
  write_dividend_factors = λ response. pure 13;
}

abbrev start : Synced ℕ
start = record { meta = stored ((1, 3) ∷ []); outside = 0 }

-- Days 4 to 7 are missing, since day 8 is today.
sync_bank :
    sync_daily texts agent (bank.code ∷ []) (codes "19700102") (codes "19700109") false start
    ≡ (ok 5, record { meta = stored ((1, 7) ∷ []); outside = 1 })
unfolding sync_daily pending_batches add_pending requested_dates missing_date_ranges missing_from
    distinct mark_sync_completed sync_completed_ranges load_sync_ranges check_entries merged
    merge_date_ranges merge_on sort text_beq text_ltb
sync_bank = refl

sync_all_keeps_example :
    let left =
      (sync_all texts agent (bank.code ∷ []) (codes "19700102") (codes "19700109") false start).1 in
    (after : List Range) × (sync_completed_ranges same daily_table bank left.meta ≡ ok after)
    × (covers 2 after ≡ true)
sync_all_keeps_example =
    sync_all_keeps texts agent (bank.code ∷ []) (codes "19700102") (codes "19700109") false start
      daily_table bank (days 1 3 ∷ []) 2 completed_three refl
