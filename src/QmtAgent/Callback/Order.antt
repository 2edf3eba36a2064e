-- ===== src/QmtAgent/Callback/Order.antt =====
-- A gate passes its callbacks on in the order of their arrival (src/qmt_agent/subscription_callback.py).
use fpro_v.Base.{ℕ, ◌≡◌, refl, sym, ap, ◌∙◌, List, [], ◌∷◌, ◌++◌, ◌⊎◌, inl, inr, ⊤}
use fpro_v.Base.Method.{Method}
use mathlib.Core.List.{append-nil, append_assoc}
use fpro_v.QmtAgent.Callback.{
  GateState, Gate, new_gate, suspend, close, deliver, deliver_all, receive, activate,
}

-- the calls of a gate
pub data Call (P : Type 0) : Type 0 where
  receives : P → ℕ → Call P
  activates suspends closes : Call P

module _ {P W : Type 0} (handler : P → ℕ → Method W ⊤) where
  abbrev pub do_call : Call P → Gate P × W → Gate P × W
  do_call (Call.receives quotes at) (g, w) = receive handler quotes at g w
  do_call Call.activates (g, w) = activate handler g w
  do_call Call.suspends (g, w) = (suspend g, w)
  do_call Call.closes (g, w) = (close g, w)

  abbrev pub do_calls : List (Call P) → Gate P × W → Gate P × W
  do_calls [] s = s
  do_calls (call ∷ calls) s = do_calls calls (do_call call s)

  -- the callbacks that arrive before the gate is closed
  abbrev pub arrivals : List (Call P) → List (P × ℕ)
  arrivals [] = []
  arrivals (Call.receives quotes at ∷ calls) = (quotes, at) ∷ arrivals calls
  arrivals (Call.activates ∷ calls) = arrivals calls
  arrivals (Call.suspends ∷ calls) = arrivals calls
  arrivals (Call.closes ∷ calls) = []

  deliver_all-append :
      (xs ys : List (P × ℕ)) (w : W)
      → deliver_all handler (xs ++ ys) w ≡ deliver_all handler ys (deliver_all handler xs w)
  unfolding deliver_all
  deliver_all-append [] ys w = refl
  deliver_all-append (x ∷ xs) ys w = deliver_all-append xs ys (deliver handler x w)

  -- From a gate on, the callbacks that wait or arrive before it is closed are passed to the handler
  -- from the first on, in order; the others are those that wait, or the gate is closed.
  pub record Passes (waiting incoming : List (P × ℕ)) (w : W) (left : Gate P × W) : Type 0 where
    pub passed : List (P × ℕ)
    pub others : List (P × ℕ)
    pub all_of : waiting ++ incoming ≡ passed ++ others
    pub handled : left.1 ≡ deliver_all handler passed w
    pub waits : (left.0.state ≡ GateState.closed) ⊎ (others ≡ left.0.waiting)

  abbrev pending_gate : List (P × ℕ) → Gate P
  pending_gate waiting = record { state = GateState.pending; waiting = waiting }

  abbrev active_gate : Gate P
  active_gate = record { state = GateState.active; waiting = [] }

  abbrev closed_gate : Gate P
  closed_gate = record { state = GateState.closed; waiting = [] }

  closed_stays :
      (calls : List (Call P)) (w : W) → do_calls calls (closed_gate, w) ≡ (closed_gate, w)
  unfolding receive activate suspend close
  closed_stays [] w = refl
  closed_stays (Call.receives quotes at ∷ calls) w = closed_stays calls w
  closed_stays (Call.activates ∷ calls) w = closed_stays calls w
  closed_stays (Call.suspends ∷ calls) w = closed_stays calls w
  closed_stays (Call.closes ∷ calls) w = closed_stays calls w

  Passes-closed :
      (waiting : List (P × ℕ)) (calls : List (Call P)) (w : W)
      → Passes waiting [] w (do_calls calls (closed_gate, w))
  unfolding deliver_all
  Passes-closed waiting calls w = rw (closed_stays calls w) (record {
    passed = [];
    others = waiting;
    all_of = append-nil waiting;
    handled = refl;
    waits = inl refl;
  })

  -- all waiting callbacks are passed on first
  Passes-activated :
      (waiting : List (P × ℕ)) (calls : List (Call P)) (w : W)
      → Passes []
          (arrivals calls)
          (deliver_all handler waiting w)
          (do_calls calls (active_gate, deliver_all handler waiting w))
      → Passes waiting
          (arrivals calls)
          w
          (do_calls calls (active_gate, deliver_all handler waiting w))
  Passes-activated waiting calls w k = record {
    passed = waiting ++ k.passed;
    others = k.others;
    all_of = ap (λ l. waiting ++ l) k.all_of ∙ sym (append_assoc waiting k.passed k.others);
    handled = k.handled ∙ sym (deliver_all-append waiting k.passed w);
    waits = k.waits;
  }

  Passes-calls :
      (calls : List (Call P)) (w : W)
      → ((waiting : List (P × ℕ))
          → Passes waiting (arrivals calls) w (do_calls calls (pending_gate waiting, w)))
        × Passes [] (arrivals calls) w (do_calls calls (active_gate, w))
  unfolding receive activate suspend close deliver_all
  Passes-calls [] w = (
    λ waiting. record {
      passed = [];
      others = waiting;
      all_of = append-nil waiting;
      handled = refl;
      waits = inr refl;
    },
    record { passed = []; others = []; all_of = refl; handled = refl; waits = inr refl },
  )
  Passes-calls (Call.receives quotes at ∷ calls) w = (
    λ waiting.
        let k = (Passes-calls calls w).0 (waiting ++ ((quotes, at) ∷ [])) in
        record {
          passed = k.passed;
          others = k.others;
          all_of = sym (append_assoc waiting ((quotes, at) ∷ []) (arrivals calls)) ∙ k.all_of;
          handled = k.handled;
          waits = k.waits;
        },
    let k = (Passes-calls calls (deliver handler (quotes, at) w)).1 in
        record {
          passed = (quotes, at) ∷ k.passed;
          others = k.others;
          all_of = ap (λ l. (quotes, at) ∷ l) k.all_of;
          handled = k.handled;
          waits = k.waits;
        },
  )
  Passes-calls (Call.activates ∷ calls) w = (
    λ waiting.
        Passes-activated waiting calls w (Passes-calls calls (deliver_all handler waiting w)).1,
    (Passes-calls calls w).1,
  )
  Passes-calls (Call.suspends ∷ calls) w = ((Passes-calls calls w).0, (Passes-calls calls w).0 [])
  Passes-calls (Call.closes ∷ calls) w =
      (λ waiting. Passes-closed waiting calls w, Passes-closed [] calls w)

  -- Whatever the calls of a new gate, and in whatever order: the handler gets the callbacks that
  -- arrive before the gate is closed, from the first on, each once and in the order of their arrival.
  -- Those that it has not got are waiting, or the gate is closed; after that it gets none.
  pub new_gate-Passes :
      (calls : List (Call P)) (w : W) → Passes [] (arrivals calls) w (do_calls calls (new_gate, w))
  new_gate-Passes calls w = (Passes-calls calls w).0 []
