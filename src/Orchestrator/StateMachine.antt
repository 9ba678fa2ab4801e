-- ===== src/Orchestrator/StateMachine.antt =====
-- src/caqrs/orchestrator/state.py and state_machine.py: the phases of a research cycle, the
-- whitelist of moves between them, and the machine that enforces it and tells its listeners.
pub mod Edges
pub mod Runs
mod Tests
use caqrs.Prelude.{
  ℕ, String, Bool, true, false, ◌≡◌, List, [], ◌∷◌, ◌++◌, map, any, ◌==◌, ◌&&◌, if◌then◌else◌,
}
use caqrs.Orchestrator.Listeners.{Reply, returned, raised, Listener, notify}

pub data OrchestratorState : Type 0 where
  idle observing hypothesizing scrutinizing researching auditing deciding reporting error :
      OrchestratorState

-- The members in the order of their definition, as `for s in OrchestratorState` visits them.
abbrev pub all_states : List OrchestratorState
all_states =
    idle ∷ observing ∷ hypothesizing ∷ scrutinizing ∷ researching ∷ auditing ∷ deciding ∷ reporting
    ∷ error ∷ []

-- The position of a member in that order.
abbrev pub position : OrchestratorState → ℕ
position idle = 0
position observing = 1
position hypothesizing = 2
position scrutinizing = 3
position researching = 4
position auditing = 5
position deciding = 6
position reporting = 7
position error = 8

-- `state.value`
abbrev pub state_value : OrchestratorState → String
state_value idle = "idle"
state_value observing = "observing"
state_value hypothesizing = "hypothesizing"
state_value scrutinizing = "scrutinizing"
state_value researching = "researching"
state_value auditing = "auditing"
state_value deciding = "deciding"
state_value reporting = "reporting"
state_value error = "error"

-- `==` on members.
abbrev pub state_eq : OrchestratorState → OrchestratorState → Bool
state_eq a b = position a == position b

pub record StateTransition : Type 0 where
  pub src : OrchestratorState
  pub dst : OrchestratorState

-- `_VALID_TRANSITIONS`
abbrev pub valid_transitions : List (OrchestratorState × OrchestratorState)
valid_transitions =
    ((idle, observing)
      ∷ (observing, hypothesizing)
      ∷ (hypothesizing, scrutinizing)
      ∷ (hypothesizing, idle)
      ∷ (scrutinizing, researching)
      ∷ (scrutinizing, idle)
      ∷ (researching, auditing)
      ∷ (researching, idle)
      ∷ (auditing, deciding)
      ∷ (auditing, idle)
      ∷ (deciding, reporting)
      ∷ (deciding, idle)
      ∷ (reporting, idle)
      ∷ [])
    ++ (map (λ s. (s, error)) all_states ++ ((error, idle) ∷ []))

-- `(src, dst) in _VALID_TRANSITIONS`
unfoldable pub is_valid : OrchestratorState → OrchestratorState → Bool
is_valid src dst = any (λ p. state_eq p.0 src && state_eq p.1 dst) valid_transitions

pub record OrchestratorStateMachine {ℓ} (W : Type ℓ) : Type ℓ where
  pub state : OrchestratorState
  pub listeners : List (Listener StateTransition W)

module _ {ℓ} {W : Type ℓ} where
  -- `__init__`; the default of `initial` is `idle`.
  unfoldable pub init : OrchestratorState → OrchestratorStateMachine W
  init initial = record { state = initial; listeners = [] }

  unfoldable pub is_in : OrchestratorStateMachine W → OrchestratorState → Bool
  is_in m candidate = state_eq m.state candidate

  unfoldable pub can_transition_to : OrchestratorStateMachine W → OrchestratorState → Bool
  can_transition_to m target = is_valid m.state target

  -- Beside the answer stand the machine and the world that the listeners leave. The state moves
  -- before the listeners run, so it stays moved when one of them raises.
  unfoldable pub transition :
      OrchestratorStateMachine W
      → OrchestratorState
      → W
      → Reply Bool × OrchestratorStateMachine W × W
  transition m target w =
      if is_valid m.state target
      then (let (answer, w') = notify m.listeners (record { src = m.state; dst = target }) w in
          elim answer [
            | returned _ ↦ (returned true, record m { state = target }, w')
            | raised ↦ (raised, record m { state = target }, w')
          ])
      else (returned false, m, w)

  unfoldable pub on_transition :
      OrchestratorStateMachine W → Listener StateTransition W → OrchestratorStateMachine W
  on_transition m listener = record m { listeners = m.listeners ++ listener ∷ [] }
