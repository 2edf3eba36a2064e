-- ===== src/Backtest/CorporateActions/Processor.antt =====
-- The processor of corporate actions, its indexes by date and its sessions
-- (src/backtest/corporate_actions.py).
use fpro_v.Base.{
  ℕ, zero, suc, Bool, ◌&&◌, ◌||◌, not, Option, none, some, List, [], ◌∷◌, ◌++◌, get_elem?,
  if◌then◌else◌, ltb, leb, text_eq, nat_eq, Text, member, Dict, lookup, insert, sort, distinct,
  Date,
}
use fpro_v.Backtest.Domain.{CorporateAction}

-- `listings` is `_listing`, `conflicts` the keys of `_conflicts`; the start and the end are those
-- of the replay.
pub record Processor (F : Type 0) : Type 0 where
  pub records : Dict Date (List (CorporateAction F))
  pub exes : Dict Date (List (CorporateAction F))
  pub pays : Dict Date (List (CorporateAction F))
  pub listings : Dict Date (List (CorporateAction F))
  pub sessions : Option (List Date)
  pub start_date : Date
  pub end_date : Date
  pub record_before_start : List (CorporateAction F)
  pub record_after_close : Dict Date (List (CorporateAction F))
  pub conflicts : List Text

-- `bisect_left` of a sorted list: the place of the first element that is not smaller
unfoldable pub bisect_left : List Date → Date → ℕ
bisect_left [] day = 0
bisect_left (x ∷ xs) day = let rest = bisect_left xs day in if ltb x day then suc rest else 0

-- `ordered[index - 1]`, or nothing for index 0
abbrev pub session_at : List Date → ℕ → Option Date
session_at ordered zero = none
session_at ordered (suc i) = get_elem? ordered i

unfoldable pub session_before : List Date → Date → Option Date
session_before ordered day = session_at ordered (bisect_left ordered day)

-- `sorted(set(sessions))`
unfoldable pub ordered_sessions : List Date → List Date
ordered_sessions sessions = sort ltb (distinct sessions)

-- the actions of a date in a `defaultdict(list)`, and one more behind them
abbrev pub actions_at {ℓ} : {A : Type ℓ} → Option (List A) → List A
actions_at none = []
actions_at (some l) = l

abbrev pub extend {ℓ} : {A : Type ℓ} → Date → List A → Dict Date (List A) → Dict Date (List A)
extend day new d = insert day (actions_at (lookup day d) ++ new) d

-- `start_date <= d <= end_date`
abbrev pub in_replay : Date → Date → Date → Bool
in_replay start_date end_date day = leb start_date day && leb day end_date

module _ {F : Type 0} where
  -- `__init__`
  abbrev pub index_date :
      Option Date
      → CorporateAction F
      → Dict Date (List (CorporateAction F))
      → Dict Date (List (CorporateAction F))
  index_date none action d = d
  index_date (some day) action d = extend day (action ∷ []) d

  unfoldable pub index_actions : List (CorporateAction F) → Processor F → Processor F
  index_actions [] p = p
  index_actions (action ∷ actions) p = index_actions actions (record p {
    records = index_date action.record_date action p.records;
    exes = index_date action.ex_date action p.exes;
    pays = index_date action.pay_date action p.pays;
    listings = index_date action.listing_date action p.listings;
  })

  unfoldable pub create : List (CorporateAction F) → Processor F
  create actions = index_actions actions (record {
    records = [];
    exes = [];
    pays = [];
    listings = [];
    sessions = none;
    start_date = 1;
    end_date = 3_652_059;
    record_before_start = [];
    record_after_close = [];
    conflicts = [];
  })

  -- one round of the loop of `set_sessions`
  abbrev pub file_off_session :
      Date → List (CorporateAction F) → Option Date → Processor F → Processor F
  file_off_session day actions none p = record p {
    record_before_start = p.record_before_start ++ actions;
  }
  file_off_session day actions (some session) p = record p {
    record_after_close = extend session actions p.record_after_close;
  }

  unfoldable pub file_actions :
      List Date → Dict Date (List (CorporateAction F)) → Processor F → Processor F
  file_actions ordered [] p = p
  file_actions ordered ((day, actions) ∷ records) p = file_actions ordered records (
      if not (in_replay p.start_date p.end_date day) || member day ordered
      then p
      else file_off_session day actions (session_before ordered day) p)

  unfoldable pub set_sessions : List Date → Date → Date → Processor F → Processor F
  set_sessions sessions start_date end_date p =
      let ordered = ordered_sessions sessions in
      file_actions ordered p.records (record p {
        sessions = some ordered;
        start_date = start_date;
        end_date = end_date;
        record_before_start = [];
        record_after_close = [];
      })
