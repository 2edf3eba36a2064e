-- ===== src/QmtReceiver/SyncMeta.antt =====
-- What is synchronised to its end, by dataset, code and period: the documents under `_meta/sync`
-- (src/qmt_receiver/storage.py). A document is the list of its entries; its JSON and the dates'
-- ISO format are left out. `strip_upper` stands for `str.strip` and `str.upper`.
pub mod Groups
pub mod Completed
use fpro_v.Base.{
  ℕ, ◌+◌, ◌≡◌, refl, ap, ap₂, Bool, true, false, not, ◌&&◌, ◌||◌, Option, none, some, List, [], ◌∷◌,
  ◌++◌, map, foldl, arith, if◌then◌else◌, ltb, filter, sort, member, Date, Text, codes, text_ltb,
  text_beq_iff, text_eq, Eq, ◌=?◌, Dict, lookup, insert, Result, ok, raise, bind, raise_when,
  value_error, ⊤, ◌↔◌,
}
use fpro_v.QmtReceiver.Ranges.{Range, merge_date_ranges}

-- `schemas.DAILY_TABLE`, `schemas.INTRADAY_TABLE` and `schemas.DIVIDEND_FACTOR_TABLE`
abbrev pub daily_table : Text
daily_table = codes "daily"

abbrev pub intraday_table : Text
intraday_table = codes "intraday"

abbrev pub dividend_factor_table : Text
dividend_factor_table = codes "dividend_factors"

-- `_SYNC_META_DATASETS`
abbrev pub sync_meta_datasets : List Text
sync_meta_datasets = daily_table ∷ intraday_table ∷ dividend_factor_table ∷ []

abbrev pub intraday_periods : List Text
intraday_periods = codes "1m" ∷ codes "5m" ∷ codes "15m" ∷ codes "30m" ∷ codes "1h" ∷ []

-- the key `(code, period)` of the groups
pub record Key : Type 0 where
  pub code : Text
  pub period : Option Text

abbrev pub period_beq : Option Text → Option Text → Bool
period_beq none none = true
period_beq (some p) (some q) = p =? q
period_beq _ _ = false

abbrev pub key_beq : Key → Key → Bool
key_beq a b = (a.code =? b.code) && period_beq a.period b.period

period_beq_iff : (p q : Option Text) → (period_beq p q ≡ true) ↔ (p ≡ q)
period_beq_iff none none = (λ h. refl, λ h. refl)
period_beq_iff none (some q) = (λ h. (cc), λ h. (cc))
period_beq_iff (some p) none = (λ h. (cc), λ h. (cc))
period_beq_iff (some p) (some q) =
    (λ h. ap some ((text_beq_iff p q).0 h), λ h. (text_beq_iff p q).1 (cc))

pub key_beq_iff : (a b : Key) → (key_beq a b ≡ true) ↔ (a ≡ b)
key_beq_iff a b = (
  λ h.
      ap₂ (λ c p. record { code = c; period = p }) ((text_beq_iff a.code b.code).0 (ground arith))
        ((period_beq_iff a.period b.period).0 (ground arith)),
  λ e. rw (e, (text_beq_iff b.code b.code).1 refl, (period_beq_iff b.period b.period).1 refl) refl,
)

instance abbrev pub key_eq : Eq Key
key_eq = record { beq = key_beq; beq_iff = key_beq_iff }

-- `QmtSyncRange` without its dataset, which is the document's
pub record SyncRange : Type 0 where
  pub key : Key
  pub range : Range

-- the documents by dataset; a file that does not exist is one without entries
abbrev pub SyncMeta : Type 0
SyncMeta = Dict Text (List SyncRange)

-- `item[0][1] or ""`
abbrev pub or_empty : Option Text → Text
or_empty none = []
or_empty (some p) = p

-- the order of the groups
abbrev pub group_before : Key × List Range → Key × List Range → Bool
group_before (a, _) (b, _) =
    text_ltb a.code b.code
    || ((a.code =? b.code) && text_ltb (or_empty a.period) (or_empty b.period))

abbrev pub values : Option (List Range) → List Range
values none = []
values (some ranges) = ranges

-- `grouped.setdefault(key, []).append(range)`
abbrev pub add_range : Dict Key (List Range) → SyncRange → Dict Key (List Range)
add_range grouped item =
    insert item.key (values (lookup item.key grouped) ++ (item.range ∷ [])) grouped

abbrev pub group : List SyncRange → Dict Key (List Range)
group items = foldl add_range [] items

-- the entries of merged groups
unfoldable pub merged : List (Key × List Range) → List SyncRange
merged [] = []
merged ((key, ranges) ∷ groups) =
    map (λ range. record { key = key; range = range }) (merge_date_ranges ranges) ++ merged groups

abbrev pub flatten : Dict Key (List Range) → List SyncRange
flatten grouped = merged (sort group_before grouped)

-- the entries of a file, if it exists
abbrev pub document : Option (List SyncRange) → List SyncRange
document none = []
document (some items) = items

module _ (strip_upper : Text → Text) where
  abbrev pub bad_period : Text → Option Text → Bool
  bad_period dataset none = dataset =? intraday_table
  bad_period dataset (some period) =
      not ((dataset =? intraday_table) && member period intraday_periods)

  -- `_validate_sync_key`
  abbrev pub validate_sync_key : Text → Key → Result ⊤
  validate_sync_key dataset key =
      raise_when
        (not (member dataset sync_meta_datasets)
          || (key.code =? [])
          || not (key.code =? strip_upper key.code)
          || bad_period dataset key.period)
        value_error

  -- the checks of `load_sync_ranges` on the entries
  unfoldable pub check_entries : Text → List SyncRange → Result (List SyncRange)
  check_entries dataset [] = ok []
  check_entries dataset (item ∷ items) = bind (validate_sync_key dataset item.key) λ _.
      bind (raise_when (ltb item.range.last item.range.first) value_error)
        λ _. bind (check_entries dataset items) λ rest. ok (item ∷ rest)

  -- `load_sync_ranges` of one dataset
  unfoldable pub load_sync_ranges : Text → SyncMeta → Result (List SyncRange)
  load_sync_ranges dataset meta =
      bind (check_entries dataset (document (lookup dataset meta)))
        λ items. ok (flatten (group items))

  unfoldable pub sync_completed_ranges : Text → Key → SyncMeta → Result (List Range)
  sync_completed_ranges dataset key meta = bind (validate_sync_key dataset key) λ _.
      bind (load_sync_ranges dataset meta)
        λ items. ok (map (λ item. item.range) (filter (λ item. item.key =? key) items))

  -- `mark_sync_completed`: the document is replaced as a whole
  unfoldable pub mark_sync_completed : Text → Key → Date → Date → SyncMeta → Result SyncMeta
  mark_sync_completed dataset key start_date end_date meta =
      bind (validate_sync_key dataset key) λ _.
        bind (raise_when (ltb end_date start_date) value_error) λ _.
          bind (load_sync_ranges dataset meta) λ current. ok (
            insert dataset
              (flatten (
                add_range (group current)
                  (record { key = key; range = record { first = start_date; last = end_date } })))
              meta)
