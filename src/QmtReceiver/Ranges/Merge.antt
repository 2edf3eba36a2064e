-- ===== src/QmtReceiver/Ranges/Merge.antt =====
-- Merging keeps the days and leaves gaps (src/qmt_receiver/storage.py).
use fpro_v.Base.{
  ◌+◌, ◌≤◌, ◌<◌, ◌≡◌, refl, sym, ap, ap₂, ◌∙◌, Bool, true, false, ◌||◌, List, [], ◌∷◌, arith, ltb,
  any, sort, insert_sorted, All, All-sort, Date, Bool-cases, inl, inr,
}
use fpro_v.QmtReceiver.Ranges.{
  Range, range_before, later, merge_on, merge_sorted, merge_date_ranges, within, covers,
}

-- a range that is not empty
abbrev pub IsRange : Range → Type 0
IsRange r = r.first ≤ r.last

-- sorted by their first day
abbrev Ascending : Date → List Range → Type 0
Ascending from [] = Unit
Ascending from (r ∷ rs) = (from ≤ r.first) × Ascending r.first rs

-- from `from` on, in order, with at least a day between two of them
abbrev pub Apart : Date → List Range → Type 0
Apart from [] = Unit
Apart from (r ∷ rs) = (from ≤ r.first) × (r.first ≤ r.last) × Apart (r.last + 2) rs

any-insert_sorted {ℓ} :
    {A : Type ℓ} (test : A → Bool) (before : A → A → Bool) (x : A) (xs : List A)
    → any test (insert_sorted before x xs) ≡ (test x || any test xs)
any-insert_sorted test before x [] = refl
any-insert_sorted test before x (y ∷ ys) = ground (arith, any-insert_sorted test before x ys)

pub any-sort {ℓ} :
    {A : Type ℓ} (test : A → Bool) (before : A → A → Bool) (xs : List A)
    → any test (sort before xs) ≡ any test xs
unfolding sort
any-sort test before [] = refl
any-sort test before (x ∷ xs) =
    any-insert_sorted test before x (sort before xs)
    ∙ ap (λ b. test x || b) (any-sort test before xs)

Ascending-insert_sorted :
    (from : Date) (r : Range) (rs : List Range)
    → from ≤ r.first
    → Ascending from rs
    → Ascending from (insert_sorted range_before r rs)
Ascending-insert_sorted from r [] h s = (h, tt)
Ascending-insert_sorted from r (q ∷ qs) h s = elim (Bool-cases (range_before q r)) [
  | inl e ↦ rw e (s.0, Ascending-insert_sorted q.first r qs (ground arith) s.1)
  | inr e ↦ rw e (h, (ground arith, s.1))
]

Ascending-sort : (rs : List Range) → Ascending 0 (sort range_before rs)
unfolding sort
Ascending-sort [] = tt
Ascending-sort (r ∷ rs) = Ascending-insert_sorted 0 r _ (omega arith) (Ascending-sort rs)

Ascending-earlier : (a b : Date) (rs : List Range) → a ≤ b → Ascending b rs → Ascending a rs
Ascending-earlier a b [] h s = tt
Ascending-earlier a b (r ∷ rs) h s = (omega (arith, s.0), s.1)

-- two ranges that touch, as one
abbrev join : Range → Range → Range
join previous r = record { first = previous.first; last = later previous.last r.last }

join-IsRange : (previous r : Range) → IsRange previous → IsRange (join previous r)
join-IsRange previous r p = ground arith

covers-merge_on :
    (day : Date) (previous : Range) (rs : List Range)
    → IsRange previous
    → All IsRange rs
    → Ascending previous.first rs
    → covers day (merge_on previous rs) ≡ (within day previous || covers day rs)
unfolding merge_on
covers-merge_on day previous [] p a s = refl
covers-merge_on day previous (r ∷ rs) p a s = ground (
  arith,
  a.0,
  s.0,
  covers-merge_on day r rs a.0 a.1 s.1,
  covers-merge_on day (join previous r) rs (join-IsRange previous r p) a.1
      (Ascending-earlier previous.first r.first rs s.0 s.1),
)

Apart-merge_on :
    (from : Date) (previous : Range) (rs : List Range)
    → from ≤ previous.first
    → IsRange previous
    → All IsRange rs
    → Ascending previous.first rs
    → Apart from (merge_on previous rs)
unfolding merge_on
Apart-merge_on from previous [] h p a s = (h, p, tt)
Apart-merge_on from previous (r ∷ rs) h p a s =
    elim (Bool-cases (ltb (previous.last + 1) r.first)) [
      | inl gap ↦ rw gap (h, p, Apart-merge_on (previous.last + 2) r rs (ground arith) a.0 a.1 s.1)
      | inr touch ↦ rw touch (
          Apart-merge_on from (join previous r) rs h (join-IsRange previous r p) a.1
            (Ascending-earlier previous.first r.first rs s.0 s.1))
    ]

-- Merging ranges that are not empty keeps the days: a day is in one of the merged ranges if and
-- only if it is in one of the given ones.
pub covers-merge_date_ranges :
    (day : Date) (ranges : List Range)
    → All IsRange ranges
    → covers day (merge_date_ranges ranges) ≡ covers day ranges
unfolding merge_date_ranges
covers-merge_date_ranges day ranges a =
    merged (sort range_before ranges) (All-sort IsRange range_before ranges a)
      (Ascending-sort ranges)
    ∙ any-sort (within day) range_before ranges
  where
    merged :
        (rs : List Range)
        → All IsRange rs
        → Ascending 0 rs
        → covers day (merge_sorted rs) ≡ covers day rs
    merged [] a s = refl
    merged (r ∷ rs) a s = covers-merge_on day r rs a.0 a.1 s.1

-- Of ranges that are not empty, the merged ones are in order, with a day between any two that is in
-- neither.
pub merge_date_ranges-Apart :
    (ranges : List Range) → All IsRange ranges → Apart 0 (merge_date_ranges ranges)
unfolding merge_date_ranges
merge_date_ranges-Apart ranges a =
    merged (sort range_before ranges) (All-sort IsRange range_before ranges a)
      (Ascending-sort ranges)
  where
    merged : (rs : List Range) → All IsRange rs → Ascending 0 rs → Apart 0 (merge_sorted rs)
    merged [] a s = tt
    merged (r ∷ rs) a s = Apart-merge_on 0 r rs s.0 a.0 a.1 s.1

-- the first day that ranges in order cover
pub covers_early :
    (from day : Date) (rs : List Range) → Apart from rs → day < from → covers day rs ≡ false
covers_early from day [] s h = refl
covers_early from day (r ∷ rs) s h =
    ground (arith, s.0, s.1, covers_early (r.last + 2) day rs s.2 (omega (arith, s.0, s.1)))

-- the range that covers a day is the first one, or the day is late
covers_first :
    (day : Date) (r : Range) (rs : List Range)
    → covers day (r ∷ rs) ≡ true
    → Apart (r.last + 2) rs
    → r.first ≤ r.last
    → r.first ≤ day
covers_first day r rs h s p = elim (Bool-cases (ltb day r.first)) [
  | inl early ↦
      let out : covers day rs ≡ false = covers_early (r.last + 2) day rs s (ground arith) in
      ground arith
  | inr e ↦ ground arith
]

covers_ends :
    (from : Date) (r q : Range) (rs qs : List Range)
    → Apart from (r ∷ rs)
    → Apart from (q ∷ qs)
    → ((day : Date) → covers day (r ∷ rs) ≡ covers day (q ∷ qs))
    → (q.first ≤ r.first) × (q.first ≡ r.first → q.last ≤ r.last)
covers_ends from r q rs qs s t same = (
  covers_first r.first q qs (sym (same r.first) ∙ ground (arith, s.1)) t.2 t.1,
  λ e. elim (Bool-cases (ltb r.last q.last)) [
    | inl longer ↦
        let out : covers (r.last + 1) rs ≡ false =
          covers_early (r.last + 2) (r.last + 1) rs s.2 (omega arith) in
        absurd (ground (arith, same (r.last + 1), out, s.1, t.1, longer, e))
    | inr e ↦ ground arith
  ],
)

covers_tail :
    (day : Date) (r q : Range) (rs qs : List Range)
    → Apart (r.last + 2) rs
    → Apart (r.last + 2) qs
    → r.last ≡ q.last
    → covers day (r ∷ rs) ≡ covers day (q ∷ qs)
    → covers day rs ≡ covers day qs
covers_tail day r q rs qs s t last same = elim (Bool-cases (ltb day (r.last + 2))) [
  | inl early ↦
      covers_early (r.last + 2) day rs s (ground arith)
      ∙ sym (covers_early (r.last + 2) day qs t (ground arith))
  | inr late ↦ ground arith
]

-- Ranges that are in order and apart are known by the days that they cover.
Apart-unique :
    (from : Date) (xs ys : List Range)
    → Apart from xs
    → Apart from ys
    → ((day : Date) → covers day xs ≡ covers day ys)
    → xs ≡ ys
Apart-unique from [] [] s t same = refl
Apart-unique from [] (q ∷ qs) s t same = absurd (ground (arith, t.1, same q.first))
Apart-unique from (r ∷ rs) [] s t same = absurd (ground (arith, s.1, same r.first))
Apart-unique from (r ∷ rs) (q ∷ qs) s t same =
    let down = covers_ends from r q rs qs s t same in
    let up = covers_ends from q r qs rs t s (λ day. sym (same day)) in
    let first : r.first ≡ q.first = omega (arith, down.0, up.0) in
    let last : r.last ≡ q.last = omega (arith, down.1 (sym first), up.1 first) in
    let after : Apart (r.last + 2) qs = rw last t.2 in
    ap₂ ◌∷◌ (ap₂ (λ a b. record { first = a; last = b }) first last) (
      Apart-unique (r.last + 2) rs qs s.2 after
        (λ day. covers_tail day r q rs qs s.2 after last (same day)))

-- Merging depends only on the days: two lists of ranges that are not empty and that have the same
-- days are merged to the same ranges, whatever their order and overlaps.
pub merge_date_ranges_canonical :
    (xs ys : List Range)
    → All IsRange xs
    → All IsRange ys
    → ((day : Date) → covers day xs ≡ covers day ys)
    → merge_date_ranges xs ≡ merge_date_ranges ys
merge_date_ranges_canonical xs ys a b same =
    Apart-unique 0 (merge_date_ranges xs) (merge_date_ranges ys) (merge_date_ranges-Apart xs a)
      (merge_date_ranges-Apart ys b)
      (λ day.
        covers-merge_date_ranges day xs a ∙ same day ∙ sym (covers-merge_date_ranges day ys b))
