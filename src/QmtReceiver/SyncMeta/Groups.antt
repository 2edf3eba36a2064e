-- ===== src/QmtReceiver/SyncMeta/Groups.antt =====
-- The days of entries, of their groups and of the merged groups (src/qmt_receiver/storage.py).
use fpro_v.Base.{
  ◌+◌, ◌≡◌, refl, ap, ap₂, ◌∙◌, Bool, ◌&&◌, ◌||◌, Option, List, [], ◌∷◌, ◌++◌, map, foldl, arith,
  filter, any, sort, All, All-sort, All-append, Date, text_eq, ◌=?◌, Dict, lookup, insert,
  Bool-cases, inl, inr,
}
use fpro_v.QmtReceiver.Ranges.{Range, merge_date_ranges, within, covers}
use fpro_v.QmtReceiver.Ranges.Merge.{
  IsRange, any-sort, Apart, covers-merge_date_ranges, merge_date_ranges-Apart,
}
use fpro_v.QmtReceiver.SyncMeta.{
  Key, key_eq, SyncRange, group_before, values, add_range, group, merged, flatten,
}

-- whether a day is in an entry of the key
abbrev pub covered : Key → Date → List SyncRange → Bool
covered key day items = any (λ item. (item.key =? key) && within day item.range) items

-- whether a day is in a group of the key
abbrev pub grouped_covers : Key → Date → Dict Key (List Range) → Bool
grouped_covers key day groups = any (λ group. (group.0 =? key) && covers day group.1) groups

any-append {ℓ} :
    {A : Type ℓ} (test : A → Bool) (xs ys : List A)
    → any test (xs ++ ys) ≡ (any test xs || any test ys)
any-append test [] ys = refl
any-append test (x ∷ xs) ys = ground (arith, any-append test xs ys)

pub covers-filter :
    (key : Key) (day : Date) (items : List SyncRange)
    → covers day (map (λ item. item.range) (filter (λ item. item.key =? key) items))
      ≡ covered key day items
covers-filter key day [] = refl
covers-filter key day (item ∷ items) = ground (arith, covers-filter key day items)

covered-one :
    (key k : Key) (day : Date) (ranges : List Range)
    → covered key day (map (λ range. record { key = k; range = range }) ranges)
      ≡ ((k =? key) && covers day ranges)
covered-one key k day [] = ground arith
covered-one key k day (r ∷ rs) = ground (arith, covered-one key k day rs)

-- the entries that pass the checks of `load_sync_ranges`, and their groups; `P` is what the checks
-- say of a key
module _ (P : Key → Type 0) where
  abbrev pub IsEntry : SyncRange → Type 0
  IsEntry item = P item.key × IsRange item.range

  abbrev pub IsGroup : Key × List Range → Type 0
  IsGroup group = P group.0 × All IsRange group.1

  covered-merged :
      (key : Key) (day : Date) (groups : List (Key × List Range))
      → All IsGroup groups
      → covered key day (merged groups) ≡ grouped_covers key day groups
  unfolding merged
  covered-merged key day [] a = refl
  covered-merged key day ((k, ranges) ∷ groups) a =
      any-append _ (map (λ range. record { key = k; range = range }) (merge_date_ranges ranges))
        (merged groups)
      ∙ ap₂ ◌||◌
          (covered-one key k day (merge_date_ranges ranges)
            ∙ ap (λ b. (k =? key) && b) (covers-merge_date_ranges day ranges a.0.1))
          (covered-merged key day groups a.1)

  pub covered-flatten :
      (key : Key) (day : Date) (grouped : Dict Key (List Range))
      → All IsGroup grouped
      → covered key day (flatten grouped) ≡ grouped_covers key day grouped
  covered-flatten key day grouped a =
      covered-merged key day (sort group_before grouped) (All-sort IsGroup group_before grouped a)
      ∙ any-sort _ group_before grouped

  IsEntry-one :
      (k : Key) (ranges : List Range) (from : Date)
      → P k
      → Apart from ranges
      → All IsEntry (map (λ range. record { key = k; range = range }) ranges)
  IsEntry-one k [] from p a = tt
  IsEntry-one k (r ∷ rs) from p a = ((p, a.1), IsEntry-one k rs (r.last + 2) p a.2)

  IsEntry-merged :
      (groups : List (Key × List Range)) → All IsGroup groups → All IsEntry (merged groups)
  unfolding merged
  IsEntry-merged [] a = tt
  IsEntry-merged ((k, ranges) ∷ groups) a =
      All-append IsEntry _ (merged groups)
        (IsEntry-one k (merge_date_ranges ranges) 0 a.0.0 (merge_date_ranges-Apart ranges a.0.1))
        (IsEntry-merged groups a.1)

  pub IsEntry-flatten :
      (grouped : Dict Key (List Range)) → All IsGroup grouped → All IsEntry (flatten grouped)
  IsEntry-flatten grouped a =
      IsEntry-merged (sort group_before grouped) (All-sort IsGroup group_before grouped a)

  IsGroup-insert :
      (k : Key) (r : Range) (ranges : Option (List Range)) (grouped : Dict Key (List Range))
      → P k
      → All IsRange (values ranges)
      → IsRange r
      → All IsGroup grouped
      → All IsGroup (insert k (values ranges ++ (r ∷ [])) grouped)
  IsGroup-insert k r ranges [] p vs h a =
      ((p, All-append IsRange (values ranges) (r ∷ []) vs (h, tt)), tt)
  IsGroup-insert k r ranges ((j, w) ∷ grouped) p vs h a = elim (Bool-cases (k =? j)) [
    | inl e ↦ rw e ((a.0.0, All-append IsRange (values ranges) (r ∷ []) vs (h, tt)), a.1)
    | inr e ↦ rw e (a.0, IsGroup-insert k r ranges grouped p vs h a.1)
  ]

  IsGroup-lookup :
      (k : Key) (grouped : Dict Key (List Range))
      → All IsGroup grouped
      → All IsRange (values (lookup k grouped))
  IsGroup-lookup k [] a = tt
  IsGroup-lookup k ((j, w) ∷ grouped) a = elim (Bool-cases (k =? j)) [
    | inl e ↦ rw e a.0.1
    | inr e ↦ rw e (IsGroup-lookup k grouped a.1)
  ]

  pub IsGroup-add_range :
      (item : SyncRange) (grouped : Dict Key (List Range))
      → IsEntry item
      → All IsGroup grouped
      → All IsGroup (add_range grouped item)
  IsGroup-add_range item grouped a g =
      IsGroup-insert item.key item.range (lookup item.key grouped) grouped a.0
        (IsGroup-lookup item.key grouped g) a.1 g

  pub IsGroup-grouped :
      (items : List SyncRange) (grouped : Dict Key (List Range))
      → All IsEntry items
      → All IsGroup grouped
      → All IsGroup (foldl add_range grouped items)
  IsGroup-grouped [] grouped a g = g
  IsGroup-grouped (item ∷ items) grouped a g =
      IsGroup-grouped items (add_range grouped item) a.1 (IsGroup-add_range item grouped a.0 g)

pub grouped_covers-insert :
    (key : Key) (day : Date) (item : SyncRange) (grouped : Dict Key (List Range))
    → grouped_covers key day (add_range grouped item)
      ≡ (grouped_covers key day grouped || ((item.key =? key) && within day item.range))
grouped_covers-insert key day item [] = ground arith
grouped_covers-insert key day item ((k, ranges) ∷ groups) = elim (Bool-cases (item.key =? k)) [
  | inl e ↦
      let same : item.key ≡ k = (key_eq.beq_iff item.key k).0 e in
      rw e (rw (any-append (within day) ranges (item.range ∷ []), same) (ground arith))
  | inr e ↦ ground (arith, e, grouped_covers-insert key day item groups)
]

pub grouped_covers-group :
    (key : Key) (day : Date) (items : List SyncRange) (grouped : Dict Key (List Range))
    → grouped_covers key day (foldl add_range grouped items)
      ≡ (grouped_covers key day grouped || covered key day items)
grouped_covers-group key day [] grouped = ground arith
grouped_covers-group key day (item ∷ items) grouped =
    grouped_covers-group key day items (add_range grouped item)
    ∙ rw (grouped_covers-insert key day item grouped) (ground arith)

-- the entries written with one more
pub covered-add_range :
    (P : Key → Type 0) (k : Key) (day : Date) (item : SyncRange) (items : List SyncRange)
    → IsEntry P item
    → All (IsEntry P) items
    → covered k day (flatten (add_range (group items) item))
      ≡ (covered k day items || ((item.key =? k) && within day item.range))
covered-add_range P k day item items a all =
    covered-flatten P k day (add_range (group items) item)
      (IsGroup-add_range P item (group items) a (IsGroup-grouped P items [] all tt))
    ∙ grouped_covers-insert k day item (group items)
    ∙ ap (λ b. b || ((item.key =? k) && within day item.range))
        (grouped_covers-group k day items [])
