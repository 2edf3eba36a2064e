-- ===== src/MarketData/Identity/Timeline.antt =====
-- The codes of a security follow one another without overlap and without gap: on a day there is
-- exactly one (src/market_data/identity.py).
use fpro_v.Base.{
  ℕ, ◌≤◌, ◌≡◌, refl, sym, ◌∙◌, inl, inr, Bool, true, false, ◌&&◌, Option, none, some, List, [], ◌∷◌,
  ◌++◌, leb, ◌==◌, Text, nat_eq, text_eq, Dict, lookup, insert, Date, ok, bind-eq-ok, ok-injective,
  subst, arith, All, All-imp, All-append, All-sort, Bool-cases,
}
use fpro_v.MarketData.Identity.{
  CodeInterval, History, set_default, group, collect_rows, sort_histories, create, covers,
  before_end, code_in, code_at, is_gapless, ends_early, meets,
}
use fpro_v.MarketData.Identity.Consistency.{sort_histories_step}

&&-parts : (a b : Bool) → a && b ≡ true → (a ≡ true) × (b ≡ true)
&&-parts a b h = ground arith

tail_gapless :
    (x : CodeInterval) (items : List CodeInterval)
    → is_gapless (x ∷ items) ≡ true
    → is_gapless items ≡ true
unfolding is_gapless
tail_gapless x [] h = refl
tail_gapless x (y ∷ items) h = (&&-parts _ _ h).1

-- what holds of every list of a grouping, holds of the list of a key
group-of :
    (P : List CodeInterval → Type 0) (none_yet : P []) (sid : ℕ)
    (by_sid : Dict ℕ (List CodeInterval))
    → All (λ e. P e.1) by_sid
    → P (group (lookup sid by_sid))
group-of P none_yet sid [] p = none_yet
group-of P none_yet sid ((s, items) ∷ by_sid) p = elim (Bool-cases (sid == s)) [
  | inl e ↦ rw e p.0
  | inr e ↦ rw e (group-of P none_yet sid by_sid p.1)
]

insert-All :
    (P : CodeInterval → Type 0) (sid : ℕ) (items : List CodeInterval)
    (by_sid : Dict ℕ (List CodeInterval))
    → All P items
    → All (λ e. All P e.1) by_sid
    → All (λ e. All P e.1) (insert sid items by_sid)
insert-All P sid items [] q p = (q, tt)
insert-All P sid items ((s, old) ∷ by_sid) q p = elim (Bool-cases (sid == s)) [
  | inl e ↦ rw e (q, p.1)
  | inr e ↦ rw e (p.0, insert-All P sid items by_sid q p.1)
]

collect_rows_proper_step :
    (space : ℕ → Bool) (item : CodeInterval) (rows : List CodeInterval) (by_code : Dict Text ℕ)
    (by_sid : Dict ℕ (List CodeInterval)) (r : Dict Text ℕ × Dict ℕ (List CodeInterval))
    → collect_rows space (item ∷ rows) by_code by_sid ≡ ok r
    → (ends_early item item.valid_to ≡ false)
      × (collect_rows space rows
            (set_default (lookup item.code by_code) item.code item.sid by_code).1
            (insert item.sid (group (lookup item.sid by_sid) ++ (item ∷ [])) by_sid)
          ≡ ok r)
unfolding collect_rows
collect_rows_proper_step space item rows by_code by_sid r h = ground arith

-- an interval with at least one day
abbrev pub IsProper : CodeInterval → Type 0
IsProper item = ends_early item item.valid_to ≡ false

abbrev pub IsTimeline : List CodeInterval → Type 0
IsTimeline items = (is_gapless items ≡ true) × All IsProper items

-- the intervals after one that ends on `t` begin on `t` or later
abbrev StartsAt : Option Date → Date → Type 0
StartsAt none from = ⊥
StartsAt (some t) from = t ≤ from

abbrev is_early : Date → Option Date → Bool
is_early from none = false
is_early from (some t) = leb t from

meets-StartsAt : (to : Option Date) (from : Date) → meets to from ≡ true → StartsAt to from
meets-StartsAt none from h = cc
meets-StartsAt (some t) from h = ground arith

StartsAt-trans :
    (to next : Option Date) (from later : Date)
    → StartsAt to from
    → is_early from next ≡ false
    → StartsAt next later
    → StartsAt to later
StartsAt-trans none next from later h p k = h
StartsAt-trans (some t) none from later h p k = absurd k
StartsAt-trans (some t) (some u) from later h p k = ground arith

proper_start : (x : CodeInterval) (to : Option Date) → ends_early x to ≡ is_early x.valid_from to
proper_start x none = refl
proper_start x (some t) = refl

later-StartsAt :
    (x : CodeInterval) (items : List CodeInterval)
    → IsTimeline (x ∷ items)
    → All (λ y. StartsAt x.valid_to y.valid_from) items
unfolding is_gapless
later-StartsAt x [] h = tt
later-StartsAt x (y ∷ items) (gapless, (_, (proper, propers))) =
    let (meet, rest) = &&-parts (meets x.valid_to y.valid_from) (is_gapless (y ∷ items)) gapless in
    let at : StartsAt x.valid_to y.valid_from = meets-StartsAt x.valid_to y.valid_from meet in
    (
      at,
      All-imp items
          (λ z k.
            StartsAt-trans x.valid_to y.valid_to y.valid_from z.valid_from at
              (sym (proper_start y y.valid_to) ∙ proper) k)
          (later-StartsAt y items (rest, (proper, propers))),
    )

-- a day before an end is not after it
before_end_disjoint :
    (session from : Date) (to : Option Date)
    → StartsAt to from
    → before_end session to ≡ true
    → leb from session ≡ true
    → ⊥
before_end_disjoint session from none h p q = h
before_end_disjoint session from (some t) h p q = ground arith

-- The interval that covers a day is the one that `code_at` finds.
code_in_unique :
    (items : List CodeInterval) (session : Date)
    → IsTimeline items
    → All (λ item. covers session item ≡ true → code_in items session ≡ ok item.code) items
unfolding code_in
code_in_unique [] session h = tt
code_in_unique (x ∷ items) session (gapless, propers) = elim (Bool-cases (covers session x)) [
  | inl e ↦ rw e (
    λ _. refl,
    All-imp items
        (λ y at cov. absurd (
          before_end_disjoint session y.valid_from x.valid_to at (&&-parts _ _ e).1
            (&&-parts _ _ cov).0))
        (later-StartsAt x items (gapless, propers)),
  )
  | inr e ↦ (
    λ c. absurd (cc),
    All-imp items (λ y found cov. rw e (found cov))
        (code_in_unique items session (tail_gapless x items gapless, propers.1)),
  )
]

collect_rows-IsProper :
    (space : ℕ → Bool) (rows : List CodeInterval) (by_code : Dict Text ℕ)
    (by_sid : Dict ℕ (List CodeInterval)) (r : Dict Text ℕ × Dict ℕ (List CodeInterval))
    → All (λ e. All IsProper e.1) by_sid
    → collect_rows space rows by_code by_sid ≡ ok r
    → All (λ e. All IsProper e.1) r.1
unfolding collect_rows
collect_rows-IsProper space [] by_code by_sid r p h =
    subst (λ x. All (λ e. All IsProper e.1) x.1) (ok-injective h) p
collect_rows-IsProper space (item ∷ rows) by_code by_sid r p h =
    let (proper, rest) = collect_rows_proper_step space item rows by_code by_sid r h in
    collect_rows-IsProper space rows _ _ r
      (insert-All IsProper item.sid _ by_sid
        (All-append IsProper (group (lookup item.sid by_sid)) (item ∷ [])
          (group-of (All IsProper) tt item.sid by_sid p) (proper, tt))
        p)
      rest

sort_histories-IsTimeline :
    (by_sid sorted : Dict ℕ (List CodeInterval))
    → All (λ e. All IsProper e.1) by_sid
    → sort_histories by_sid ≡ ok sorted
    → All (λ e. IsTimeline e.1) sorted
unfolding sort_histories
sort_histories-IsTimeline [] sorted p h = subst (All (λ e. IsTimeline e.1)) (ok-injective h) tt
sort_histories-IsTimeline ((sid, items) ∷ by_sid) sorted p h =
    let (rest, done, e, gapless) = sort_histories_step sid items by_sid sorted h in
    rw e ((gapless, All-sort IsProper _ items p.0), sort_histories-IsTimeline by_sid rest p.1 done)

create-IsTimeline :
    (space : ℕ → Bool) (rows : List CodeInterval) (h : History)
    → create space rows ≡ ok h
    → All (λ e. IsTimeline e.1) h.by_sid
unfolding create
create-IsTimeline space [] h e = cc
create-IsTimeline space (item ∷ rows) h e =
    let (r, collected, e') = bind-eq-ok (collect_rows space (item ∷ rows) [] []) _ e in
    let (sorted, done, e'') = bind-eq-ok (sort_histories r.1) _ e' in
    subst (λ x. All (λ e. IsTimeline e.1) x.by_sid) (ok-injective e'')
      (sort_histories-IsTimeline r.1 sorted
        (collect_rows-IsProper space (item ∷ rows) [] [] r tt collected) done)

-- In a history that `create` accepts at most one of a security's codes is valid on a day: any interval that
-- covers the day, wherever it stands, has the code that `code_at` answers.
pub code_at_unique :
    (space : ℕ → Bool) (rows : List CodeInterval) (h : History) (sid : ℕ) (session : Date)
    → create space rows ≡ ok h
    → All
        (λ item. covers session item ≡ true → code_at h sid session ≡ ok item.code)
        (group (lookup sid h.by_sid))
unfolding code_at is_gapless
code_at_unique space rows h sid session e =
    code_in_unique (group (lookup sid h.by_sid)) session
      (group-of IsTimeline (refl, tt) sid h.by_sid (create-IsTimeline space rows h e))
