-- ===== src/QmtReceiver/Sync.antt =====
-- Synchronising history: what is asked of the agent, written and marked as completed
-- (src/qmt_receiver/sync.py).
pub mod Keeps
use fpro_v.Base.{
  ℕ, ◌+◌, ◌-◌, min, Bool, true, false, not, ◌||◌, Option, none, some, List, [], ◌∷◌, ◌++◌, map,
  if◌then◌else◌, ltb, ◌==◌, ◌&&◌, ◌↔◌, ◌≡◌, refl, ap₂, arith, any, filter, sort, distinct, member,
  Date, Text, codes, length, text_eq, Eq, ◌=?◌, Dict, lookup, insert, Result, ok, raise, bind,
  value_error, ⊤, ==_iff,
}
use fpro_v.Base.Method.{Method, continue, ◌>>=◌, ◌>>◌, pure, reads, raise_if}
use fpro_v.QmtReceiver.Ranges.{Range, range_before, missing_date_ranges}
use fpro_v.QmtReceiver.SyncMeta.{
  Key, SyncMeta, daily_table, intraday_table, dividend_factor_table, intraday_periods,
  sync_completed_ranges, mark_sync_completed,
}

-- Of the Python library: `strip().upper()`, `strptime(…, "%Y%m%d")`, which may raise, and
-- `strftime("%Y%m%d")`.
pub record Texts : Type 0 where
  pub strip_upper : Text → Text
  pub strptime : Text → Option Date
  pub strftime : Date → Text

-- `_SyncClient`, and the writes of the store. `H`, `F` and `D` are the data of the responses.
pub record SyncPlatform (W H F D : Type 0) : Type 0 where
  -- the day that the clock tells in Shanghai
  pub today : Method W Date
  pub download_history : List Text → Text → Text → Text → Bool → Method W ⊤
  pub query_history : List Text → Text → Text → Text → Method W H
  -- `code in response.data`
  pub has_code : Text → H → Bool
  pub download_financial : List Text → List Text → Method W ⊤
  pub query_financial : List Text → List Text → Text → Text → Method W F
  pub query_dividend_factors : List Text → Text → Text → Method W D
  pub write_daily : H → Method W ℕ
  pub write_intraday : H → Text → Method W ℕ
  pub write_financial : F → Method W ℕ
  pub write_dividend_factors : D → Method W ℕ

-- `_FINANCIAL_TABLES`
abbrev pub financial_tables : List Text
financial_tables = codes "Balance" ∷ codes "Income" ∷ codes "CashFlow" ∷ codes "Pershareindex" ∷ []

pub record SyncResult : Type 0 where
  pub daily_rows : ℕ
  pub intraday_rows : ℕ
  pub financial_rows : ℕ
  pub dividend_factor_rows : ℕ

-- the documents of the store, and the world outside
pub record Synced (W : Type 0) : Type 0 where
  pub meta : SyncMeta
  pub outside : W

abbrev pub range_beq : Range → Range → Bool
range_beq a b = (a.first == b.first) && (a.last == b.last)

pub range_beq_iff : (a b : Range) → (range_beq a b ≡ true) ↔ (a ≡ b)
range_beq_iff a b = (
  λ h.
      ap₂ (λ first last. record { first = first; last = last })
        ((==_iff a.first b.first).0 (ground arith)) ((==_iff a.last b.last).0 (ground arith)),
  λ e. rw (e, (==_iff b.first b.first).1 refl, (==_iff b.last b.last).1 refl) refl,
)

instance abbrev pub range_eq : Eq Range
range_eq = record { beq = range_beq; beq_iff = range_beq_iff }

abbrev pub stocks_of : Option (List Text) → List Text
stocks_of none = []
stocks_of (some stocks) = stocks

-- `grouped.setdefault(missing, []).append(stock)` for each missing range
abbrev pub add_missing : Text → List Range → Dict Range (List Text) → Dict Range (List Text)
add_missing stock [] grouped = grouped
add_missing stock (missing ∷ rest) grouped =
    add_missing stock rest
      (insert missing (stocks_of (lookup missing grouped) ++ (stock ∷ [])) grouped)

module _ (texts : Texts) where
  abbrev pub completed_unless : Bool → Text → Key → SyncMeta → Result (List Range)
  completed_unless true dataset key meta = ok []
  completed_unless false dataset key meta = sync_completed_ranges texts.strip_upper dataset key meta

  -- the loop of `_pending_batches`
  unfoldable pub add_pending :
      Text
      → Date
      → Date
      → Option Text
      → Bool
      → SyncMeta
      → List Text
      → Dict Range (List Text)
      → Result (Dict Range (List Text))
  add_pending dataset start end period force meta [] grouped = ok grouped
  add_pending dataset start end period force meta (stock ∷ stocks) grouped =
      bind (completed_unless force dataset (record { code = stock; period = period }) meta)
        λ completed.
          add_pending dataset start end period force meta stocks
            (add_missing stock (missing_date_ranges start end completed) grouped)

  -- `_pending_batches`
  unfoldable pub pending_batches :
      Text
      → List Text
      → Date
      → Date
      → Option Text
      → Bool
      → SyncMeta
      → Result (List (Range × List Text))
  pending_batches dataset stocks start end period force meta =
      let normalized = distinct (map texts.strip_upper stocks) in
      if (length normalized == 0) || any (λ stock. length stock == 0) normalized
      then raise value_error
      else bind (add_pending dataset start end period force meta normalized [])
          λ grouped. ok (sort (λ a b. range_before a.0 b.0) grouped)

  abbrev pub dates_of : Option Date → Option Date → Result (Date × Date)
  dates_of (some start) (some end) = if ltb end start then raise value_error else ok (start, end)
  dates_of _ _ = raise value_error

  -- `_requested_dates`
  unfoldable pub requested_dates : Text → Text → Result (Date × Date)
  requested_dates start_time end_time =
      if not (length start_time == 8) || not (length end_time == 8)
      then raise value_error
      else dates_of (texts.strptime start_time) (texts.strptime end_time)

  module _ {W H F D : Type 0} (p : SyncPlatform W H F D) where
    abbrev outside : {A : Type 0} → Method W A → Method (Synced W) A
    outside m s = let (answer, w) = m s.outside in (answer, record s { outside = w })

    -- `_history_dates`
    abbrev history_dates : Text → Text → Method (Synced W) (Date × Date)
    history_dates start_time end_time = do
      dates ← reads (λ s. requested_dates start_time end_time)
      today ← outside p.today
      pure (dates.0, min dates.1 (today - 1))

    abbrev marked : Result SyncMeta → Method (Synced W) ⊤
    marked (ok meta) s = (ok tt, record s { meta = meta })
    marked (raise e) s = (raise e, s)

    abbrev mark : Text → Key → Range → Method (Synced W) ⊤
    mark dataset key range s =
        marked (mark_sync_completed texts.strip_upper dataset key range.first range.last s.meta) s

    abbrev mark_if : Bool → Text → Key → Range → Method (Synced W) ⊤
    mark_if true dataset key range = mark dataset key range
    mark_if false dataset key range = pure tt

    -- the `for` loop over the codes of a batch that the test accepts
    abbrev mark_each : (Text → Bool) → Text → Option Text → Range → List Text → Method (Synced W) ⊤
    mark_each test dataset period range [] = pure tt
    mark_each test dataset period range (code ∷ batch) =
        mark_if (test code) dataset (record { code = code; period = period }) range
        >> mark_each test dataset period range batch

    -- the `for` loop over the batches, and its total
    abbrev sync_each :
        (Range → List Text → Method (Synced W) ℕ) → List (Range × List Text) → Method (Synced W) ℕ
    sync_each step [] = pure 0
    sync_each step ((range, batch) ∷ batches) = do
      rows ← step range batch
      total ← sync_each step batches
      pure (rows + total)

    -- the body of the loops of `sync_daily` and `sync_intraday`
    abbrev history_batch :
        (H → Method W ℕ)
        → Text
        → Text
        → Option Text
        → Bool
        → Range
        → List Text
        → Method (Synced W) ℕ
    history_batch write dataset period key_period force range batch = do
      _ ← outside (
          p.download_history batch period (texts.strftime range.first) (texts.strftime range.last)
            force)
      response ←
          outside
            (p.query_history batch period (texts.strftime range.first) (texts.strftime range.last))
      rows ← outside (write response)
      _ ← mark_each (λ code. p.has_code code response) dataset key_period range batch
      pure rows

    -- `sync_daily`
    unfoldable pub sync_daily : List Text → Text → Text → Bool → Method (Synced W) ℕ
    sync_daily stocks start_time end_time force = do
      dates ← history_dates start_time end_time
      batches ← reads (λ s. pending_batches daily_table stocks dates.0 dates.1 none force s.meta)
      sync_each (history_batch p.write_daily daily_table (codes "1d") none force) batches

    -- `sync_intraday`
    unfoldable pub sync_intraday : List Text → Text → Text → Text → Bool → Method (Synced W) ℕ
    sync_intraday stocks start_time end_time period force = do
      _ ← raise_if (not (member period intraday_periods)) value_error
      dates ← history_dates start_time end_time
      batches ←
          reads
            (λ s. pending_batches intraday_table stocks dates.0 dates.1 (some period) force s.meta)
      sync_each
          (history_batch (λ response. p.write_intraday response period) intraday_table period
            (some period) force)
          batches

    -- `sync_financial`
    unfoldable pub sync_financial : List Text → Text → Text → List Text → Method (Synced W) ℕ
    sync_financial stocks start_time end_time tables = do
      _ ← outside (p.download_financial stocks tables)
      response ← outside (p.query_financial stocks tables start_time end_time)
      outside (p.write_financial response)

    abbrev factor_batch : Range → List Text → Method (Synced W) ℕ
    factor_batch range batch = do
      response ←
          outside (
            p.query_dividend_factors batch (texts.strftime range.first) (texts.strftime range.last))
      rows ← outside (p.write_dividend_factors response)
      _ ← mark_each (λ code. true) dividend_factor_table none range batch
      pure rows

    -- `sync_dividend_factors`
    unfoldable pub sync_dividend_factors : List Text → Text → Text → Bool → Method (Synced W) ℕ
    sync_dividend_factors stocks start_time end_time force = do
      dates ← reads (λ s. requested_dates start_time end_time)
      batches ←
          reads
            (λ s. pending_batches dividend_factor_table stocks dates.0 dates.1 none force s.meta)
      sync_each factor_batch batches

    -- `sync_all`
    unfoldable pub sync_all : List Text → Text → Text → Bool → Method (Synced W) SyncResult
    sync_all stocks start_time end_time force = do
      daily ← sync_daily stocks start_time end_time force
      intraday ← sync_intraday stocks start_time end_time (codes "1m") force
      financial ← sync_financial stocks start_time end_time financial_tables
      factors ← sync_dividend_factors stocks start_time end_time force
      pure (record {
        daily_rows = daily;
        intraday_rows = intraday;
        financial_rows = financial;
        dividend_factor_rows = factors;
      })
