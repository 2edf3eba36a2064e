-- ===== src/QmtReceiver/Sync/Keeps.antt =====
-- What is completed stays completed (src/qmt_receiver/sync.py).
use fpro_v.Base.{
  ℕ, ◌≡◌, refl, sym, subst, ◌∙◌, Bool, true, false, Option, List, [], ◌∷◌, Date, Text, text_eq,
  text_beq_iff, ◌=?◌, lookup, Result, ok, ok-injective, bind-eq-ok, Error, Result-cases, Bool-cases,
  inl, inr,
}
use fpro_v.Base.Method.{Method, ◌>>=◌, pure, reads, raise_if}
use fpro_v.QmtReceiver.Ranges.{Range, covers}
use fpro_v.QmtReceiver.SyncMeta.{
  Key, SyncMeta, validate_sync_key, load_sync_ranges, sync_completed_ranges, mark_sync_completed,
}
use fpro_v.QmtReceiver.SyncMeta.Completed.{mark_sync_completed_adds, mark_sync_completed_others}
use fpro_v.QmtReceiver.Sync.{
  Texts, SyncPlatform, Synced, mark_each, mark_if, sync_each, history_batch, factor_batch,
  sync_daily, sync_intraday, sync_financial, sync_dividend_factors, sync_all, outside, mark,
}

-- What is read of the one document is read of the other, with at least its days.
pub Grows : (Text → Text) → SyncMeta → SyncMeta → Type 0
Grows strip_upper meta meta' =
    (dataset : Text) (key : Key) (before : List Range)
    → sync_completed_ranges strip_upper dataset key meta ≡ ok before
    → (after : List Range) × (sync_completed_ranges strip_upper dataset key meta' ≡ ok after)
      × ((day : Date) → covers day before ≡ true → covers day after ≡ true)

module _ (strip_upper : Text → Text) where
  Grows-refl : (meta : SyncMeta) → Grows strip_upper meta meta
  unfolding Grows
  Grows-refl meta dataset key before h = (before, h, λ day c. c)

  Grows-trans :
      (a b c : SyncMeta) → Grows strip_upper a b → Grows strip_upper b c → Grows strip_upper a c
  unfolding Grows
  Grows-trans a b c f g dataset key before h =
      let (middle, h', f') = f dataset key before h in
      let (after, h'', g') = g dataset key middle h' in (after, h'', λ day e. g' day (f' day e))

  same-ranges :
      (dataset : Text) (key : Key) (a b : SyncMeta)
      → lookup dataset b ≡ lookup dataset a
      → sync_completed_ranges strip_upper dataset key b
        ≡ sync_completed_ranges strip_upper dataset key a
  unfolding sync_completed_ranges load_sync_ranges
  same-ranges dataset key a b e = rw e refl

  -- the days of the ranges read after a mark, in the dataset of the call
  Grows-mark_self :
      (dataset : Text) (key k : Key) (start end : Date) (meta meta' : SyncMeta)
      (before : List Range)
      → mark_sync_completed strip_upper dataset key start end meta ≡ ok meta'
      → sync_completed_ranges strip_upper dataset k meta ≡ ok before
      → (after : List Range) × (sync_completed_ranges strip_upper dataset k meta' ≡ ok after)
        × ((day : Date) → covers day before ≡ true → covers day after ≡ true)
  unfolding sync_completed_ranges
  Grows-mark_self dataset key k start end meta meta' before h e =
      let (_, valid, _) = bind-eq-ok (validate_sync_key strip_upper dataset k) _ e in
      let (found, after, reads_before, reads_after, days) =
        mark_sync_completed_adds strip_upper dataset key k start end meta meta' h valid in
      let is_before : found ≡ before = ok-injective (sym reads_before ∙ e) in
      (after, reads_after, λ day c. days day ∙ rw (is_before, c) refl)

  Grows-mark :
      (dataset : Text) (key : Key) (start end : Date) (meta meta' : SyncMeta)
      → mark_sync_completed strip_upper dataset key start end meta ≡ ok meta'
      → Grows strip_upper meta meta'
  unfolding Grows
  Grows-mark dataset key start end meta meta' h d k before e = elim (Bool-cases (d =? dataset)) [
    | inl same ↦
        let is_same : d ≡ dataset = (text_beq_iff d dataset).0 same in
        subst
          (λ x.
            sync_completed_ranges strip_upper x k meta ≡ ok before
            → (after : List Range) × (sync_completed_ranges strip_upper x k meta' ≡ ok after)
              × ((day : Date) → covers day before ≡ true → covers day after ≡ true))
          (sym is_same) (λ e'. Grows-mark_self dataset key k start end meta meta' before h e') e
    | inr other ↦ (
      before,
      same-ranges d k meta meta'
            (mark_sync_completed_others strip_upper dataset key start end meta meta' d h other)
          ∙ e,
      λ day c. c,
    )
  ]

module _ (texts : Texts) {W H F D : Type 0} (p : SyncPlatform W H F D) where
  -- A method of the store after which nothing that was completed is missing, even if it raises.
  Keeps : {A : Type 0} → Method (Synced W) A → Type 0
  Keeps m = (s : Synced W) → Grows texts.strip_upper s.meta (m s).1.meta

  Keeps-bind :
      {A B : Type 0} (m : Method (Synced W) A) (f : A → Method (Synced W) B)
      → Keeps m
      → ((a : A) → Keeps (f a))
      → Keeps (m >>= f)
  unfolding Keeps
  Keeps-bind m f k g s = elim (Result-cases (m s).0) [
    | inl (e, raised) ↦ rw raised (k s)
    | inr (a, returned) ↦ rw returned (Grows-trans texts.strip_upper _ _ _ (k s) (g a (m s).1))
  ]

  Keeps-pure : {A : Type 0} (a : A) → Keeps (pure a)
  unfolding Keeps
  Keeps-pure a s = Grows-refl texts.strip_upper s.meta

  Keeps-outside : {A : Type 0} (m : Method W A) → Keeps (outside texts p m)
  unfolding Keeps
  Keeps-outside m s = Grows-refl texts.strip_upper s.meta

  Keeps-mark : (dataset : Text) (key : Key) (range : Range) → Keeps (mark texts p dataset key range)
  unfolding Keeps
  Keeps-mark dataset key range s =
      elim (Result-cases
        (mark_sync_completed texts.strip_upper dataset key range.first range.last s.meta)) [
          | inl (e, raised) ↦ rw raised (Grows-refl texts.strip_upper s.meta)
          | inr (meta, returned) ↦
              rw returned (
                Grows-mark texts.strip_upper dataset key range.first range.last s.meta meta
                  returned)
        ]

  Keeps-mark_if :
      (b : Bool) (dataset : Text) (key : Key) (range : Range)
      → Keeps (mark_if texts p b dataset key range)
  Keeps-mark_if true dataset key range = Keeps-mark dataset key range
  Keeps-mark_if false dataset key range = Keeps-pure tt

  Keeps-mark_each :
      (test : Text → Bool) (dataset : Text) (period : Option Text) (range : Range)
      (batch : List Text)
      → Keeps (mark_each texts p test dataset period range batch)
  Keeps-mark_each test dataset period range [] = Keeps-pure tt
  Keeps-mark_each test dataset period range (code ∷ batch) =
      Keeps-bind _ _
        (Keeps-mark_if (test code) dataset (record { code = code; period = period }) range)
        (λ _. Keeps-mark_each test dataset period range batch)

  Keeps-sync_each :
      (step : Range → List Text → Method (Synced W) ℕ) (batches : List (Range × List Text))
      → ((range : Range) (batch : List Text) → Keeps (step range batch))
      → Keeps (sync_each texts p step batches)
  Keeps-sync_each step [] k = Keeps-pure 0
  Keeps-sync_each step ((range, batch) ∷ batches) k =
      Keeps-bind _ _ (k range batch)
        (λ rows. Keeps-bind _ _ (Keeps-sync_each step batches k) (λ total. Keeps-pure _))

  Keeps-reads : {A : Type 0} (f : Synced W → Result A) → Keeps (reads f)
  unfolding Keeps
  Keeps-reads f s = Grows-refl texts.strip_upper s.meta

  Keeps-raise_if : (b : Bool) (e : Error) → Keeps (raise_if b e)
  unfolding Keeps
  Keeps-raise_if true e s = Grows-refl texts.strip_upper s.meta
  Keeps-raise_if false e s = Grows-refl texts.strip_upper s.meta

  ruleset keeping = (Keeps-bind, Keeps-pure, Keeps-outside, Keeps-reads, Keeps-raise_if)

  Keeps-history_batch :
      (write : H → Method W ℕ) (dataset period : Text) (key_period : Option Text) (force : Bool)
      (range : Range) (batch : List Text)
      → Keeps (history_batch texts p write dataset period key_period force range batch)
  Keeps-history_batch write dataset period key_period force range batch =
      search (keeping, Keeps-mark_each) depth 12

  Keeps-factor_batch :
      (range : Range) (batch : List Text) → Keeps (factor_batch texts p range batch)
  Keeps-factor_batch range batch = search (keeping, Keeps-mark_each) depth 12

  module _ (stocks : List Text) (start_time end_time : Text) (force : Bool) where
    Keeps-sync_daily : Keeps (sync_daily texts p stocks start_time end_time force)
    unfolding sync_daily
    Keeps-sync_daily = search (keeping, Keeps-sync_each, Keeps-history_batch) depth 12

    Keeps-sync_intraday :
        (period : Text) → Keeps (sync_intraday texts p stocks start_time end_time period force)
    unfolding sync_intraday
    Keeps-sync_intraday period = search (keeping, Keeps-sync_each, Keeps-history_batch) depth 12

    Keeps-sync_financial :
        (tables : List Text) → Keeps (sync_financial texts p stocks start_time end_time tables)
    unfolding sync_financial
    Keeps-sync_financial tables = search keeping depth 12

    Keeps-sync_dividend_factors :
        Keeps (sync_dividend_factors texts p stocks start_time end_time force)
    unfolding sync_dividend_factors
    Keeps-sync_dividend_factors = search (keeping, Keeps-sync_each, Keeps-factor_batch) depth 12

    Keeps-sync_all : Keeps (sync_all texts p stocks start_time end_time force)
    unfolding sync_all
    Keeps-sync_all =
        search
          (
            keeping, Keeps-sync_daily, Keeps-sync_intraday, Keeps-sync_financial,
            Keeps-sync_dividend_factors,
          )
          depth 12

    -- A day that was completed for a key stays so through `sync_all`, whatever the agent and the
    -- store answer and also if it raises, forced or not: if the completed ranges of the key are
    -- read before it, they are read after it, and a day that they had they still have.
    pub sync_all_keeps :
        (s : Synced W) (dataset : Text) (key : Key) (before : List Range) (day : Date)
        → sync_completed_ranges texts.strip_upper dataset key s.meta ≡ ok before
        → covers day before ≡ true
        → let left = (sync_all texts p stocks start_time end_time force s).1 in
          (after : List Range) × (sync_completed_ranges texts.strip_upper dataset key left.meta
            ≡ ok after)
          × (covers day after ≡ true)
    unfolding Keeps Grows
    sync_all_keeps s dataset key before day h c =
        let (after, reads_after, days) = Keeps-sync_all s dataset key before h in
        (after, reads_after, days day c)
