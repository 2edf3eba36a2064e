-- ===== src/MarketData/Identity/Consistency.antt =====
-- Codes and identities agree: the code that a security trades under leads back to the security
-- (src/market_data/identity.py).
use fpro_v.Base.{
  ℕ, ◌≡◌, inl, inr, Bool, true, some, List, [], ◌∷◌, ◌++◌, ◌==◌, Text, text_eq, nat_eq, Dict,
  lookup, insert, Date, ok, bind-eq-ok, ok-injective, subst, arith, All, All-imp, All-append,
  All-sort, lookup-insert, lookup-insert_self, Bool-cases, Option-cases, ==_iff, text_beq_iff,
}
use fpro_v.MarketData.Identity.{
  CodeInterval, History, set_default, group, collect_rows, sort_history, sort_histories, create,
  sid_of, code_in, code_at, is_gapless,
}

-- every interval of a security has a code that is mapped to it
abbrev pub Agrees : Dict Text ℕ → ℕ → CodeInterval → Type 0
Agrees by_code sid item = lookup item.code by_code ≡ some sid

abbrev pub IsConsistent : Dict Text ℕ → Dict ℕ (List CodeInterval) → Type 0
IsConsistent by_code by_sid = All (λ e. All (Agrees by_code e.0) e.1) by_sid

group-Agrees :
    (by_code : Dict Text ℕ) (sid : ℕ) (by_sid : Dict ℕ (List CodeInterval))
    → IsConsistent by_code by_sid
    → All (Agrees by_code sid) (group (lookup sid by_sid))
group-Agrees by_code sid [] c = tt
group-Agrees by_code sid ((s, items) ∷ by_sid) c = elim (Bool-cases (sid == s)) [
  | inl e ↦ rw (e, (==_iff sid s).0 e) c.0
  | inr e ↦ rw e (group-Agrees by_code sid by_sid c.1)
]

insert-IsConsistent :
    (by_code : Dict Text ℕ) (sid : ℕ) (items : List CodeInterval)
    (by_sid : Dict ℕ (List CodeInterval))
    → All (Agrees by_code sid) items
    → IsConsistent by_code by_sid
    → IsConsistent by_code (insert sid items by_sid)
insert-IsConsistent by_code sid items [] p c = (p, tt)
insert-IsConsistent by_code sid items ((s, old) ∷ by_sid) p c = elim (Bool-cases (sid == s)) [
  | inl e ↦ rw (e, ← (==_iff sid s).0 e) (p, c.1)
  | inr e ↦ rw e (c.0, insert-IsConsistent by_code sid items by_sid p c.1)
]

-- a code that is mapped keeps its security
set_default_keeps :
    (code : Text) (sid : ℕ) (by_code : Dict Text ℕ) (k : Text) (s : ℕ)
    → lookup k by_code ≡ some s
    → lookup k (set_default (lookup code by_code) code sid by_code).1 ≡ some s
set_default_keeps code sid by_code k s h = elim (Option-cases (lookup code by_code)) [
  | inl fresh ↦ rw fresh (rw lookup-insert (ground (arith, text_beq_iff k code)))
  | inr (p, e) ↦ rw e h
]

set_default_maps :
    (code : Text) (sid : ℕ) (by_code : Dict Text ℕ)
    → (set_default (lookup code by_code) code sid by_code).0 ≡ sid
    → lookup code (set_default (lookup code by_code) code sid by_code).1 ≡ some sid
set_default_maps code sid by_code h = elim (Option-cases (lookup code by_code)) [
  | inl fresh ↦ rw fresh (lookup-insert_self code sid by_code)
  | inr (p, e) ↦ ground arith
]

-- One accepted row: the code belongs to the row's security, and the rest is read with it added.
collect_rows_step :
    (space : ℕ → Bool) (item : CodeInterval) (rows : List CodeInterval) (by_code : Dict Text ℕ)
    (by_sid : Dict ℕ (List CodeInterval)) (r : Dict Text ℕ × Dict ℕ (List CodeInterval))
    → collect_rows space (item ∷ rows) by_code by_sid ≡ ok r
    → let d = set_default (lookup item.code by_code) item.code item.sid by_code in
      (d.0 ≡ item.sid)
      × (collect_rows space rows d.1
            (insert item.sid (group (lookup item.sid by_sid) ++ (item ∷ [])) by_sid)
          ≡ ok r)
unfolding collect_rows
collect_rows_step space item rows by_code by_sid r h = ground arith

collect_rows-IsConsistent :
    (space : ℕ → Bool) (rows : List CodeInterval) (by_code : Dict Text ℕ)
    (by_sid : Dict ℕ (List CodeInterval)) (r : Dict Text ℕ × Dict ℕ (List CodeInterval))
    → IsConsistent by_code by_sid
    → collect_rows space rows by_code by_sid ≡ ok r
    → IsConsistent r.0 r.1
unfolding collect_rows
collect_rows-IsConsistent space [] by_code by_sid r c h =
    subst (λ x. IsConsistent x.0 x.1) (ok-injective h) c
collect_rows-IsConsistent space (item ∷ rows) by_code by_sid r c h =
    let (same, rest) = collect_rows_step space item rows by_code by_sid r h in
    let bc = (set_default (lookup item.code by_code) item.code item.sid by_code).1 in
    let c' : IsConsistent bc by_sid =
      All-imp by_sid
        (λ e p. All-imp e.1 (λ it q. set_default_keeps item.code item.sid by_code it.code e.0 q) p)
        c in
    collect_rows-IsConsistent space rows bc _ r
      (insert-IsConsistent bc item.sid _ by_sid
        (All-append (Agrees bc item.sid) (group (lookup item.sid by_sid)) (item ∷ [])
          (group-Agrees bc item.sid by_sid c')
          (set_default_maps item.code item.sid by_code same, tt))
        c')
      rest

pub sort_histories_step :
    (sid : ℕ) (items : List CodeInterval) (by_sid sorted : Dict ℕ (List CodeInterval))
    → sort_histories ((sid, items) ∷ by_sid) ≡ ok sorted
    → (rest : Dict ℕ (List CodeInterval)) × (sort_histories by_sid ≡ ok rest)
      × (sorted ≡ (sid, sort_history items) ∷ rest)
      × (is_gapless (sort_history items) ≡ true)
unfolding sort_histories
sort_histories_step sid items by_sid sorted h = ground arith

sort_histories-IsConsistent :
    (by_code : Dict Text ℕ) (by_sid sorted : Dict ℕ (List CodeInterval))
    → IsConsistent by_code by_sid
    → sort_histories by_sid ≡ ok sorted
    → IsConsistent by_code sorted
unfolding sort_histories
sort_histories-IsConsistent by_code [] sorted c h = subst (IsConsistent by_code) (ok-injective h) tt
sort_histories-IsConsistent by_code ((sid, items) ∷ by_sid) sorted c h =
    let (rest, done, e, _) = sort_histories_step sid items by_sid sorted h in
    rw e (
      All-sort (Agrees by_code sid) _ items c.0,
      sort_histories-IsConsistent by_code by_sid rest c.1 done,
    )

-- Every history that is accepted is consistent.
pub create-IsConsistent :
    (space : ℕ → Bool) (rows : List CodeInterval) (h : History)
    → create space rows ≡ ok h
    → IsConsistent h.by_code h.by_sid
unfolding create
create-IsConsistent space [] h e = cc
create-IsConsistent space (item ∷ rows) h e =
    let (r, collected, e') = bind-eq-ok (collect_rows space (item ∷ rows) [] []) _ e in
    let (sorted, done, e'') = bind-eq-ok (sort_histories r.1) _ e' in
    subst (λ x. IsConsistent x.by_code x.by_sid) (ok-injective e'')
      (sort_histories-IsConsistent r.0 r.1 sorted
        (collect_rows-IsConsistent space (item ∷ rows) [] [] r tt collected) done)

code_in-Agrees :
    (by_code : Dict Text ℕ) (sid : ℕ) (items : List CodeInterval) (session : Date) (code : Text)
    → All (Agrees by_code sid) items
    → code_in items session ≡ ok code
    → lookup code by_code ≡ some sid
unfolding code_in
code_in-Agrees by_code sid [] session code c h = cc
code_in-Agrees by_code sid (item ∷ items) session code c h =
    ground (arith, code_in-Agrees by_code sid items session code c.1)

-- If `create` accepts a history and it has a code for a security on a day, the code is a code of
-- exactly this security: looking it up gives the same identity.
pub sid_of-code_at :
    (space : ℕ → Bool) (rows : List CodeInterval) (h : History) (sid : ℕ) (session : Date)
    (code : Text)
    → create space rows ≡ ok h
    → code_at h sid session ≡ ok code
    → sid_of h code ≡ ok sid
unfolding code_at sid_of
sid_of-code_at space rows h sid session code e at = rw (
    code_in-Agrees h.by_code sid (group (lookup sid h.by_sid)) session code
      (group-Agrees h.by_code sid h.by_sid (create-IsConsistent space rows h e)) at)
