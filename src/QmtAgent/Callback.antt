-- ===== src/QmtAgent/Callback.antt =====
-- `QuoteCallbackGate`: what happens to the callbacks of a subscription while it is set up, in
-- force, taken down and closed (src/qmt_agent/subscription_callback.py). Each method runs under the lock of the
-- gate, so it is one step. `W` is what the handler changes; an exception of the handler is logged
-- and dropped.
pub mod Order
use fpro_v.Base.{ℕ, Bool, List, [], ◌∷◌, ◌++◌, ⊤, Result}
use fpro_v.Base.Method.{Method}

pub data GateState : Type 0 where
  pending active closed : GateState

pub record Gate (P : Type 0) : Type 0 where
  pub state : GateState
  pub waiting : List (P × ℕ)

module _ {P : Type 0} where
  -- `__init__`
  abbrev pub new_gate : Gate P
  new_gate = record { state = GateState.pending; waiting = [] }

  -- `suspend` and `close`
  abbrev pub suspend_from : GateState → Gate P → Gate P
  suspend_from GateState.active g = record g { state = GateState.pending }
  suspend_from _ g = g

  unfoldable pub suspend : Gate P → Gate P
  suspend g = suspend_from g.state g

  unfoldable pub close : Gate P → Gate P
  close g = record { state = GateState.closed; waiting = [] }

  module _ {W : Type 0} (handler : P → ℕ → Method W ⊤) where
    -- `_deliver`
    abbrev pub deliver : P × ℕ → W → W
    deliver (quotes, received_at) w = (handler quotes received_at w).1

    unfoldable pub deliver_all : List (P × ℕ) → W → W
    deliver_all [] w = w
    deliver_all (call ∷ calls) w = deliver_all calls (deliver call w)

    -- `__call__`, at the time `received_at`
    abbrev pub receive_in : GateState → P × ℕ → Gate P → W → Gate P × W
    receive_in GateState.closed call g w = (g, w)
    receive_in GateState.pending call g w = (record g { waiting = g.waiting ++ (call ∷ []) }, w)
    receive_in GateState.active call g w = (g, deliver call w)

    unfoldable pub receive : P → ℕ → Gate P → W → Gate P × W
    receive quotes received_at g w = receive_in g.state (quotes, received_at) g w

    -- `activate`
    abbrev pub activate_from : GateState → Gate P → W → Gate P × W
    activate_from GateState.closed g w = (g, w)
    activate_from _ g w =
        (record { state = GateState.active; waiting = [] }, deliver_all g.waiting w)

    unfoldable pub activate : Gate P → W → Gate P × W
    activate g w = activate_from g.state g w
