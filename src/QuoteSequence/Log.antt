-- ===== src/QuoteSequence/Log.antt =====
-- The buffer against the log of every quote ever appended: what its slots hold, and that each
-- append keeps it so (src/qmt_agent/quote_sequence.py).
use native.Mathlib.Nat.{mod-lt, mod-add-mod, mod-eq_of_lt, mod-eq-sub-mod}
use native.Mathlib.Decide.{dec_lt}
use mathlib.Core.List.{append-nil, append_assoc}
use fpro_v.Base.{
  ℕ, zero, suc, ◌+◌, ◌-◌, ◌%◌, ◌≤◌, ◌<◌, min, ◌≡◌, refl, ap, subst, ◌∙◌, ◌≢◌, Option, none, some,
  List, [], ◌∷◌, ◌++◌, ◌⊎◌, arith, length, get_elem?, Text, ok, length-append, length-set,
  length-replicate, get_elem?-set_self, get_elem?-set_ne, inl, inr,
}
use fpro_v.QuoteSequence.Defs.{Origin, SequencedQuote, Buffer, init, append_one, append, append_all}

-- Fewer than `c` steps never come back to the same slot.
wrap-ne : (m d c : ℕ) → m < c → 0 < d → d < c → (m + d) % c ≢ m
wrap-ne m d c hm pos small = elim (dec_lt (m + d) c) [
  | yes p ↦ rw (mod-eq_of_lt {n = m + d} {m = c} p) (omega arith)
  | no p ↦
      rw (mod-eq-sub-mod {n = m + d} {m = c} (omega arith))
        (rw (mod-eq_of_lt {n = m + d - c} {m = c} (omega arith)) (omega arith))
]

mod-ne : (i d c : ℕ) → 0 < d → d < c → (i + d) % c ≢ i % c
mod-ne i d c pos small =
    rw (← mod-add-mod i c d) (wrap-ne (i % c) d c (mod-lt i {m = c} (omega arith)) pos small)

module _ {Q : Type 0} where
  -- the record that the append of an item makes, with the next number
  abbrev pub stamp : Origin → ℕ → Text × Q → SequencedQuote Q
  stamp origin seq (symbol, quote) = record {
    seq = seq;
    symbol = symbol;
    origin = origin;
    quote = quote;
  }

  abbrev pub stamp_all : Origin → ℕ → List (Text × Q) → List (SequencedQuote Q)
  stamp_all origin seq [] = []
  stamp_all origin seq (item ∷ items) = stamp origin seq item ∷ stamp_all origin (suc seq) items

  -- The buffer holds the last `capacity` records of the log, each in the slot of its number.
  pub record Represents (b : Buffer Q) (log : List (SequencedQuote Q)) : Type 0 where
    pub positive : 0 < b.capacity
    pub numbered : b.next_seq ≡ suc (length log)
    pub sized : b.size ≡ min (length log) b.capacity
    pub slots : length b.records ≡ b.capacity
    pub holds :
        (i : ℕ) (r : SequencedQuote Q)
        → length log ≤ i + b.size
        → get_elem? log i ≡ some r
        → get_elem? b.records (i % b.capacity) ≡ some (some r)
    pub in_order : (i : ℕ) (r : SequencedQuote Q) → get_elem? log i ≡ some r → r.seq ≡ suc i

get_elem?-lt {ℓ} :
    {A : Type ℓ} (xs : List A) (i : ℕ) (x : A) → get_elem? xs i ≡ some x → i < length xs
get_elem?-lt [] i x h = cc
get_elem?-lt (y ∷ xs) zero x h = omega arith
get_elem?-lt (y ∷ xs) (suc i) x h = omega (arith, get_elem?-lt xs i x h)

-- An entry of a list with one more element is an old entry, or the new one.
get_elem?-snoc {ℓ} :
    {A : Type ℓ} (xs : List A) (y : A) (i : ℕ) (x : A)
    → get_elem? (xs ++ (y ∷ [])) i ≡ some x
    → ((i < length xs) × (get_elem? xs i ≡ some x)) ⊎ ((i ≡ length xs) × (x ≡ y))
get_elem?-snoc [] y zero x h = inr (refl, cc)
get_elem?-snoc [] y (suc i) x h = cc
get_elem?-snoc (z ∷ xs) y zero x h = inl (omega arith, h)
get_elem?-snoc (z ∷ xs) y (suc i) x h = elim (get_elem?-snoc xs y i x h) [
  | inl (lt, e) ↦ inl (omega arith, e)
  | inr (e, last) ↦ inr (omega arith, last)
]

module _ {Q : Type 0} where
  pub init-Represents : (capacity : ℕ) {b : Buffer Q} → init capacity ≡ ok b → Represents b []
  unfolding init
  init-Represents capacity e = record {
    positive = ground arith;
    numbered = ground arith;
    sized = ground arith;
    slots = ground (arith, length-replicate {A = Option (SequencedQuote Q)} capacity none);
    holds = λ i r h g. absurd (cc);
    in_order = λ i r g. absurd (cc);
  }

  module _ (origin : Origin) (item : Text × Q) (b : Buffer Q) (log : List (SequencedQuote Q)) where
    -- the new record goes to the slot of the log's length
    append_one-slot : Represents b log → (b.next_seq - 1) % b.capacity ≡ length log % b.capacity
    append_one-slot v = ap (λ n. n % b.capacity) (omega (arith, v.numbered))

    -- a record that stays in the window is not overwritten
    append_one-kept :
        (i : ℕ)
        → Represents b log
        → length log + 1 ≤ i + min (b.size + 1) b.capacity
        → i < length log
        → (b.next_seq - 1) % b.capacity ≢ i % b.capacity
    append_one-kept i v h lt = rw (append_one-slot v) (
        subst (λ n. n % b.capacity ≢ i % b.capacity) {x = i + (length log - i)} {y = length log}
          (omega arith)
          (mod-ne i (length log - i) b.capacity (omega arith) (omega (arith, v.sized))))

  pub append_one-Represents :
      (origin : Origin) (item : Text × Q) (b : Buffer Q) (log : List (SequencedQuote Q))
      → Represents b log
      → Represents (append_one origin b item) (log ++ (stamp origin b.next_seq item ∷ []))
  unfolding append_one
  append_one-Represents origin item b log v = record {
    positive = v.positive;
    numbered = omega (arith, v.numbered, grown);
    sized = omega (arith, v.sized, v.positive, grown);
    slots = length-set b.records _ _ ∙ v.slots;
    holds = λ i r h g. elim (get_elem?-snoc log new i r g) [
      | inl (lt, old) ↦
          get_elem?-set_ne b.records _ _ _
            (append_one-kept origin item b log i v (omega (arith, grown)) lt)
          ∙ v.holds i r (omega (arith, grown, v.sized)) old
      | inr (e, is_new) ↦
          rw (is_new, e, ← append_one-slot origin item b log v)
            (get_elem?-set_self b.records _ _
              (rw v.slots (mod-lt (b.next_seq - 1) {m = b.capacity} v.positive)))
    ];
    in_order = λ i r g. elim (get_elem?-snoc log new i r g) [
      | inl (lt, old) ↦ v.in_order i r old
      | inr (e, is_new) ↦ rw (is_new, e) v.numbered
    ];
  }
    where
      new : SequencedQuote Q
      new = stamp origin b.next_seq item

      grown : length (log ++ (new ∷ [])) ≡ length log + 1
      grown = length-append log (new ∷ [])

  -- After an `append` call a buffer that represented a log represents the log with the call's quotes
  -- behind it, numbered on from the last one.
  pub append-Represents :
      (origin : Origin) (items : List (Text × Q)) (b : Buffer Q) (log : List (SequencedQuote Q))
      → Represents b log
      → Represents (append origin items b) (log ++ stamp_all origin b.next_seq items)
  unfolding append append_one
  append-Represents origin [] b log v = rw (append-nil log) v
  append-Represents origin (item ∷ items) b log v =
      subst (Represents (append origin items (append_one origin b item)))
        (append_assoc log (stamp origin b.next_seq item ∷ []) _
          ∙ ap (λ n. log ++ (stamp origin b.next_seq item ∷ stamp_all origin n items))
              (omega arith))
        (append-Represents origin items (append_one origin b item)
          (log ++ (stamp origin b.next_seq item ∷ [])) (append_one-Represents origin item b log v))

  -- what several `append` calls add to the log
  abbrev pub log_all :
      List (Origin × List (Text × Q)) → List (SequencedQuote Q) → List (SequencedQuote Q)
  log_all [] log = log
  log_all ((origin, items) ∷ calls) log =
      log_all calls (log ++ stamp_all origin (suc (length log)) items)

  pub append_all-Represents :
      (calls : List (Origin × List (Text × Q))) (b : Buffer Q) (log : List (SequencedQuote Q))
      → Represents b log
      → Represents (append_all calls b) (log_all calls log)
  unfolding append_all
  append_all-Represents [] b log v = v
  append_all-Represents ((origin, items) ∷ calls) b log v =
      append_all-Represents calls (append origin items b) _
        (rw (← v.numbered) (append-Represents origin items b log v))
