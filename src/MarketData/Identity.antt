-- ===== src/MarketData/Identity.antt =====
-- Persistent security identities and their trading codes (src/market_data/identity.py).
pub mod Consistency
pub mod Timeline
mod Tests
use fpro_v.Base.{
  ℕ, ◌^◌, ◌≡◌, Bool, true, false, ◌&&◌, ◌||◌, not, Option, none, some, List, [], ◌∷◌, ◌++◌, map,
  if◌then◌else◌, ltb, leb, ◌==◌, Text, text_eq, text_ltb, nat_eq, Dict, lookup, insert, sort,
  distinct, Date, Result, ok, raise, bind, mapping_error,
}

pub record CodeInterval : Type 0 where
  pub sid : ℕ
  pub code : Text
  pub valid_from : Date
  pub valid_to : Option Date

pub record History : Type 0 where
  pub by_code : Dict Text ℕ
  pub by_sid : Dict ℕ (List CodeInterval)

-- `item.code != item.code.strip()`, for a code that is not empty: a space at one of the ends
unfoldable pub ends_in_space : (ℕ → Bool) → Text → Bool
ends_in_space space [] = false
ends_in_space space (c ∷ []) = space c
ends_in_space space (_ ∷ c ∷ s) = ends_in_space space (c ∷ s)

unfoldable pub is_padded : (ℕ → Bool) → Text → Bool
is_padded space [] = true
is_padded space (c ∷ s) = space c || ends_in_space space (c ∷ s)

-- `valid_to is not None and valid_to <= valid_from`
abbrev pub ends_early : CodeInterval → Option Date → Bool
ends_early item none = false
ends_early item (some t) = leb t item.valid_from

-- `self._by_code.setdefault(code, sid)`: the number found, and the dict after it
abbrev pub set_default : Option ℕ → Text → ℕ → Dict Text ℕ → ℕ × Dict Text ℕ
set_default (some previous) code sid d = (previous, d)
set_default none code sid d = (sid, insert code sid d)

-- the list of a key in a `defaultdict(list)`
abbrev pub group : Option (List CodeInterval) → List CodeInterval
group none = []
group (some items) = items

-- the first loop of `__init__`
unfoldable pub collect_rows :
    (ℕ → Bool)
    → List CodeInterval
    → Dict Text ℕ
    → Dict ℕ (List CodeInterval)
    → Result (Dict Text ℕ × Dict ℕ (List CodeInterval))
collect_rows space [] by_code by_sid = ok (by_code, by_sid)
collect_rows space (item ∷ rows) by_code by_sid =
    let (previous, by_code') = set_default (lookup item.code by_code) item.code item.sid by_code in
    let rest =
      collect_rows space rows by_code'
        (insert item.sid (group (lookup item.sid by_sid) ++ (item ∷ [])) by_sid) in
    if not (leb 1 item.sid && ltb item.sid (2 ^ 63))
    then raise mapping_error
    else if is_padded space item.code
    then raise mapping_error
    else if ends_early item item.valid_to
    then raise mapping_error
    else if not (previous == item.sid)
    then raise mapping_error
    else rest

-- two neighbours of a sorted history: no overlap, and no gap
abbrev pub meets : Option Date → Date → Bool
meets none valid_from = false
meets (some valid_to) valid_from = not (ltb valid_from valid_to) && not (ltb valid_to valid_from)

unfoldable pub is_gapless : List CodeInterval → Bool
is_gapless [] = true
is_gapless (previous ∷ []) = true
is_gapless (previous ∷ current ∷ items) =
    meets previous.valid_to current.valid_from && is_gapless (current ∷ items)

abbrev pub sort_history : List CodeInterval → List CodeInterval
sort_history = sort (λ a b. ltb a.valid_from b.valid_from)

-- the second loop of `__init__`
unfoldable pub sort_histories : Dict ℕ (List CodeInterval) → Result (Dict ℕ (List CodeInterval))
sort_histories [] = ok []
sort_histories ((sid, items) ∷ by_sid) =
    if not (is_gapless (sort_history items))
    then raise mapping_error
    else bind (sort_histories by_sid) (λ rest. ok ((sid, sort_history items) ∷ rest))

-- `SecurityCodeHistory(intervals)`
unfoldable pub create : (ℕ → Bool) → List CodeInterval → Result History
create space [] = raise mapping_error
create space (item ∷ rows) = bind (collect_rows space (item ∷ rows) [] []) (λ (by_code, by_sid).
    bind (sort_histories by_sid) (λ sorted. ok (record { by_code = by_code; by_sid = sorted })))

-- `SecurityCodeHistory.sid`
abbrev or_unmapped {ℓ} : {A : Type ℓ} → Option A → Result A
or_unmapped none = raise mapping_error
or_unmapped (some a) = ok a

unfoldable pub sid_of : History → Text → Result ℕ
sid_of h code = or_unmapped (lookup code h.by_code)

-- the test of `code_at`
abbrev pub before_end : Date → Option Date → Bool
before_end session none = true
before_end session (some t) = ltb session t

abbrev pub covers : Date → CodeInterval → Bool
covers session item = leb item.valid_from session && before_end session item.valid_to

unfoldable pub code_in : List CodeInterval → Date → Result Text
code_in [] session = raise mapping_error
code_in (item ∷ items) session = if covers session item then ok item.code else code_in items session

-- `SecurityCodeHistory.code_at`
unfoldable pub code_at : History → ℕ → Date → Result Text
code_at h sid session = code_in (group (lookup sid h.by_sid)) session

-- `SecurityCodeHistory.aliases`
unfoldable pub aliases : History → ℕ → Result (List Text)
aliases h sid =
    bind (or_unmapped (lookup sid h.by_sid))
      (λ items. ok (distinct (map (λ (i : CodeInterval). i.code) items)))

-- `aliases(sid)[0]`; a history of a known security is never empty
abbrev pub first_alias : List Text → Result Text
first_alias [] = raise mapping_error
first_alias (code ∷ _) = ok code

unfoldable pub canonical : History → Text → Result Text
canonical h code = bind (sid_of h code) (λ sid. bind (aliases h sid) first_alias)

-- a set comprehension of a method over codes, sorted
unfoldable pub each : (Text → Result Text) → List Text → Result (List Text)
each f [] = ok []
each f (code ∷ codes) = bind (f code) (λ c. bind (each f codes) (λ cs. ok (c ∷ cs)))

unfoldable pub sorted_set : List Text → List Text
sorted_set codes = sort text_ltb (distinct codes)

unfoldable pub canonical_symbols : History → List Text → Result (List Text)
canonical_symbols h codes = bind (each (canonical h) codes) (λ cs. ok (sorted_set cs))

unfoldable pub symbols_at : History → List Text → Date → Result (List Text)
symbols_at h codes session =
    bind (each (λ code. bind (sid_of h code) (λ sid. code_at h sid session)) codes)
      (λ cs. ok (sorted_set cs))
