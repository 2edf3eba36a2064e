-- ===== src/QmtReceiver/SyncMeta/Completed.antt =====
-- Which days the documents know as completed (src/qmt_receiver/storage.py).
use fpro_v.Base.{
  ◌≡◌, leb, refl, sym, ap, ◌∙◌, false, ◌&&◌, ◌||◌, some, List, [], ◌∷◌, arith, ltb, All, Date, Text,
  text_eq, ◌=?◌, lookup, insert, ok, bind-eq-ok, ok-injective, raise_when, value_error,
  lookup-insert, lookup-insert_self,
}
use fpro_v.QmtReceiver.SyncMeta.Groups.{
  covered, covers-filter, covered-add_range, IsEntry, covered-flatten, IsEntry-flatten,
  IsGroup-add_range, IsGroup-grouped, grouped_covers-group,
}
use fpro_v.QmtReceiver.Ranges.{Range, covers}
use fpro_v.QmtReceiver.SyncMeta.{
  Key, key_eq, SyncRange, SyncMeta, add_range, group, flatten, validate_sync_key, check_entries,
  document, load_sync_ranges, sync_completed_ranges, mark_sync_completed,
}

module _ (strip_upper : Text → Text) (dataset : Text) where
  -- a key that `_validate_sync_key` accepts
  abbrev IsKey : Key → Type 0
  IsKey key = validate_sync_key strip_upper dataset key ≡ ok tt

  check_entries-eq-ok :
      (items checked : List SyncRange)
      → check_entries strip_upper dataset items ≡ ok checked
      → (checked ≡ items) × All (IsEntry IsKey) items
  unfolding check_entries
  check_entries-eq-ok [] checked h = ((cc), tt)
  check_entries-eq-ok (item ∷ items) checked h =
      let (_, valid, h₁) = bind-eq-ok (validate_sync_key strip_upper dataset item.key) _ h in
      let (_, is_ordered, h₂) =
        bind-eq-ok (raise_when (ltb item.range.last item.range.first) value_error) _ h₁ in
      let (rest, e, h₃) = bind-eq-ok (check_entries strip_upper dataset items) _ h₂ in
      let (same, all_valid) = check_entries-eq-ok items rest e in
      (ground (arith, same), ((valid, ground arith), all_valid))

  check_entries-eq :
      (items : List SyncRange)
      → All (IsEntry IsKey) items
      → check_entries strip_upper dataset items ≡ ok items
  unfolding check_entries
  check_entries-eq [] a = refl
  check_entries-eq (item ∷ items) a =
      let is_ordered : ltb item.range.last item.range.first ≡ false = ground (arith, a.0.1) in
      rw (a.0.0, is_ordered, check_entries-eq items a.1) refl

  -- a document whose entries pass the checks is loaded, and covers what its entries do
  load_sync_ranges-covered :
      (meta : SyncMeta)
      → All (IsEntry IsKey) (document (lookup dataset meta))
      → (items : List SyncRange) × (load_sync_ranges strip_upper dataset meta ≡ ok items)
        × All (IsEntry IsKey) items
        × ((key : Key) (day : Date)
            → covered key day items ≡ covered key day (document (lookup dataset meta)))
  unfolding load_sync_ranges
  load_sync_ranges-covered meta a = (
    flatten (group stored),
    rw (check_entries-eq stored a) refl,
    IsEntry-flatten IsKey (group stored) (IsGroup-grouped IsKey stored [] a tt),
    λ key day.
        covered-flatten IsKey key day (group stored) (IsGroup-grouped IsKey stored [] a tt)
        ∙ grouped_covers-group key day stored [],
  )
    where
      stored : List SyncRange
      stored = document (lookup dataset meta)

  -- what is read of a document whose entries pass the checks
  sync_completed_ranges-covered :
      (meta : SyncMeta) (key : Key)
      → All (IsEntry IsKey) (document (lookup dataset meta))
      → IsKey key
      → (ranges : List Range) × (sync_completed_ranges strip_upper dataset key meta ≡ ok ranges)
        × ((day : Date) → covers day ranges ≡ covered key day (document (lookup dataset meta)))
  unfolding sync_completed_ranges
  sync_completed_ranges-covered meta key a valid =
      let (items, loads, _, same) = load_sync_ranges-covered meta a in
      (_, rw (valid, loads) refl, λ day. covers-filter key day items ∙ same key day)

  -- what `mark_sync_completed` writes
  mark-eq-ok :
      (key : Key) (start_date end_date : Date) (meta meta' : SyncMeta)
      → mark_sync_completed strip_upper dataset key start_date end_date meta ≡ ok meta'
      → (items : List SyncRange) × All (IsEntry IsKey) (document (lookup dataset meta))
        × All (IsEntry IsKey) items
        × (meta' ≡ insert dataset items meta)
        × ((k : Key) (day : Date)
            → covered k day items ≡ (
                covered k day (document (lookup dataset meta))
                || ((key =? k) && (leb start_date day && leb day end_date))))
  unfolding mark_sync_completed load_sync_ranges
  mark-eq-ok key start_date end_date meta meta' h =
      let (_, valid, h₁) = bind-eq-ok (validate_sync_key strip_upper dataset key) _ h in
      let (_, is_ordered, h₂) =
        bind-eq-ok (raise_when (ltb end_date start_date) value_error) _ h₁ in
      let (current, loads, h₃) = bind-eq-ok (load_sync_ranges strip_upper dataset meta) _ h₂ in
      let (checked, checks, _) =
        bind-eq-ok (check_entries strip_upper dataset (document (lookup dataset meta))) _ loads in
      let (_, entries) = check_entries-eq-ok (document (lookup dataset meta)) checked checks in
      let (items, loads', kept, same) = load_sync_ranges-covered meta entries in
      let is_current : items ≡ current = cc in
      let item : SyncRange = record {
        key = key;
        range = record { first = start_date; last = end_date };
      } in
      let old = IsGroup-grouped IsKey items [] kept tt in
      let new = IsGroup-add_range IsKey item (group items) (valid, ground arith) old in
      (
        flatten (add_range (group items) item),
        entries,
        IsEntry-flatten IsKey (add_range (group items) item) new,
        sym (ok-injective h₃)
            ∙ ap (λ c. insert dataset (flatten (add_range (group c) item)) meta) (sym is_current),
        λ k day.
            covered-add_range IsKey k day item items (valid, ground arith) kept
            ∙ ap (λ b. b || ((key =? k) && (leb start_date day && leb day end_date))) (same k day),
      )

  -- A call of `mark_sync_completed` that returns, and a key that `_validate_sync_key` accepts for
  -- the dataset. The completed ranges of the key are read before and after the call without an error,
  -- and after it they have the days that they had before, and if the key is the call's also
  -- the days of its range, and no others.
  pub mark_sync_completed_adds :
      (key k : Key) (start_date end_date : Date) (meta meta' : SyncMeta)
      → mark_sync_completed strip_upper dataset key start_date end_date meta ≡ ok meta'
      → validate_sync_key strip_upper dataset k ≡ ok tt
      → (before after : List Range) × (sync_completed_ranges strip_upper dataset k meta ≡ ok before)
        × (sync_completed_ranges strip_upper dataset k meta' ≡ ok after)
        × ((day : Date)
            → covers day after
              ≡ (covers day before || ((key =? k) && (leb start_date day && leb day end_date))))
  mark_sync_completed_adds key k start_date end_date meta meta' h valid =
      let (items, entries, new, written, same) = mark-eq-ok key start_date end_date meta meta' h in
      let found : lookup dataset meta' ≡ some items =
        rw (written, lookup-insert_self dataset items meta) refl in
      let (before, reads, is_before) = sync_completed_ranges-covered meta k entries valid in
      let (after, reads', is_after) = sync_completed_ranges-covered meta' k (rw found new) valid in
      (
        before,
        after,
        reads,
        reads',
        λ day.
            is_after day
            ∙ rw found (same k day)
            ∙ ap (λ b. b || ((key =? k) && (leb start_date day && leb day end_date)))
                (sym (is_before day)),
      )

  -- the documents of other datasets stay
  pub mark_sync_completed_others :
      (key : Key) (start_date end_date : Date) (meta meta' : SyncMeta) (other : Text)
      → mark_sync_completed strip_upper dataset key start_date end_date meta ≡ ok meta'
      → (other =? dataset) ≡ false
      → lookup other meta' ≡ lookup other meta
  mark_sync_completed_others key start_date end_date meta meta' other h ne =
      let (items, _, _, written, _) = mark-eq-ok key start_date end_date meta meta' h in
      rw (written, lookup-insert dataset other items meta, ne) refl
