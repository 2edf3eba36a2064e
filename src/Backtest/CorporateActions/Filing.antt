-- ===== src/Backtest/CorporateActions/Filing.antt =====
-- Where `set_sessions` files the actions whose record date is no session
-- (src/backtest/corporate_actions.py).
use mathlib.Core.List.{append-nil, append_assoc}
use fpro_v.Base.{
  ◌≡◌, ◌≤◌, ◌<◌, ◌⊎◌, refl, sym, ap, ◌∙◌, Bool, true, false, not, ◌&&◌, ◌||◌, Option, none, some,
  List, [], ◌∷◌, ◌++◌, All, inl, inr, if◌then◌else◌, ◌==◌, nat_eq, member, Dict, Date, lookup,
  lookup-insert, Bool-cases, Option-cases, arith,
}
use fpro_v.Backtest.Domain.{CorporateAction}
use fpro_v.Backtest.CorporateActions.Processor.{
  Processor, actions_at, extend, in_replay, file_off_session, file_actions, set_sessions,
  ordered_sessions, session_before,
}
use fpro_v.Backtest.CorporateActions.Calendar.{session_before_latest}

-- the test that two sessions, or two missing ones, are the same
abbrev pub same_place : Option Date → Option Date → Bool
same_place none none = true
same_place none (some _) = false
same_place (some _) none = false
same_place (some s) (some t) = s == t

module _ {F : Type 0} where
  -- The actions of those record dates in the replay that are no session and have `place` as the
  -- session before them, in the order of the index.
  abbrev pub filed :
      List Date
      → Date
      → Date
      → Option Date
      → Dict Date (List (CorporateAction F))
      → List (CorporateAction F)
  filed ordered start_date end_date place [] = []
  filed ordered start_date end_date place ((day, actions) ∷ records) =
      let rest = filed ordered start_date end_date place records in
      if in_replay start_date end_date day
        && not (member day ordered)
        && same_place place (session_before ordered day)
      then actions ++ rest
      else rest

  -- what one more round keeps by a session
  actions_at-extend :
      (s t : Date) (new rest : List (CorporateAction F)) (d : Dict Date (List (CorporateAction F)))
      → actions_at (lookup s (extend t new d)) ++ rest
        ≡ actions_at (lookup s d) ++ (if s == t then new ++ rest else rest)
  actions_at-extend s t new rest d = elim (Bool-cases (s == t)) [
    | inl same ↦
        let e : s ≡ t = ground (arith, same) in
        rw lookup-insert (
          rw same (
            append_assoc (actions_at (lookup t d)) new rest
            ∙ ap (λ k. actions_at (lookup k d) ++ (new ++ rest)) (sym e)))
    | inr other ↦ rw lookup-insert (rw other refl)
  ]

  -- one round of the loop
  file_actions-cons :
      (ordered : List Date) (day : Date) (actions : List (CorporateAction F))
      (records : Dict Date (List (CorporateAction F))) (p : Processor F)
      → file_actions ordered ((day, actions) ∷ records) p
        ≡ file_actions ordered records (
            if not (in_replay p.start_date p.end_date day) || member day ordered
            then p
            else file_off_session day actions (session_before ordered day) p)
  unfolding file_actions
  file_actions-cons ordered day actions records p = refl

  file_actions-nil : (ordered : List Date) (p : Processor F) → file_actions ordered [] p ≡ p
  unfolding file_actions
  file_actions-nil ordered p = refl

  file_actions-after :
      (ordered : List Date) (records : Dict Date (List (CorporateAction F))) (p : Processor F)
      (s : Date)
      → actions_at (lookup s (file_actions ordered records p).record_after_close)
        ≡ actions_at (lookup s p.record_after_close)
          ++ filed ordered p.start_date p.end_date (some s) records
  file_actions-after ordered [] p s = rw file_actions-nil (sym (append-nil _))
  file_actions-after ordered ((day, actions) ∷ records) p s =
      elim (Bool-cases (in_replay p.start_date p.end_date day)) [
        | inr out ↦ rw (file_actions-cons, out) (file_actions-after ordered records p s)
        | inl within ↦ elim (Bool-cases (member day ordered)) [
          | inl session ↦
              rw (file_actions-cons, within, session) (file_actions-after ordered records p s)
          | inr off ↦ elim (Option-cases (session_before ordered day)) [
            | inl missing ↦
                rw (file_actions-cons, within, off, missing)
                  (file_actions-after ordered records (file_off_session day actions none p) s)
            | inr (t, found) ↦
                rw (file_actions-cons, within, off, found)
                  (file_actions-after ordered records (file_off_session day actions (some t) p) s
                    ∙ actions_at-extend s t actions
                        (filed ordered p.start_date p.end_date (some s) records)
                        p.record_after_close)
          ]
        ]
      ]

  file_actions-before :
      (ordered : List Date) (records : Dict Date (List (CorporateAction F))) (p : Processor F)
      → (file_actions ordered records p).record_before_start
        ≡ p.record_before_start ++ filed ordered p.start_date p.end_date none records
  file_actions-before ordered [] p = rw file_actions-nil (sym (append-nil _))
  file_actions-before ordered ((day, actions) ∷ records) p =
      elim (Bool-cases (in_replay p.start_date p.end_date day)) [
        | inr out ↦ rw (file_actions-cons, out) (file_actions-before ordered records p)
        | inl within ↦ elim (Bool-cases (member day ordered)) [
          | inl session ↦
              rw (file_actions-cons, within, session) (file_actions-before ordered records p)
          | inr off ↦ elim (Option-cases (session_before ordered day)) [
            | inl missing ↦
                rw (file_actions-cons, within, off, missing)
                  (file_actions-before ordered records (file_off_session day actions none p)
                    ∙ append_assoc p.record_before_start actions
                        (filed ordered p.start_date p.end_date none records))
            | inr (t, found) ↦
                rw (file_actions-cons, within, off, found)
                  (file_actions-before ordered records (file_off_session day actions (some t) p))
          ]
        ]
      ]

  -- Once the sessions are set, the actions whose record date is in the replay but is no session are
  -- kept by the session before that date, and those without such a session apart: each in the order
  -- of the index, none lost and no other among them. The session before a date is the latest one
  -- before it; where there is none, every session is at or after the date.
  pub set_sessions_files :
      (sessions : List Date) (start_date end_date : Date) (p : Processor F)
      → let ordered = ordered_sessions sessions in
        let q = set_sessions sessions start_date end_date p in
        ((s : Date)
          → actions_at (lookup s q.record_after_close)
            ≡ filed ordered start_date end_date (some s) p.records)
        × (q.record_before_start ≡ filed ordered start_date end_date none p.records)
        × ((day : Date)
            → ((session_before ordered day ≡ none) × All (λ t. day ≤ t) ordered)
              ⊎ ((s : Date) × (session_before ordered day ≡ some s)
                  × (s < day)
                  × All (λ t. t < day → t ≤ s) ordered))
  unfolding set_sessions
  set_sessions_files sessions start_date end_date p =
      let ordered = ordered_sessions sessions in
      let fresh : Processor F = record p {
        sessions = some ordered;
        start_date = start_date;
        end_date = end_date;
        record_before_start = [];
        record_after_close = [];
      } in
      (
        (λ s. file_actions-after ordered p.records fresh s),
        file_actions-before ordered p.records fresh,
        (λ day. session_before_latest sessions day),
      )
