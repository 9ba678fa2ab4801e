-- ===== src/Orchestrator/StateMachine/Tests.antt =====
-- Runs of the machine of state_machine.py at concrete inputs.
use caqrs.Prelude.{◌⊎◌, ◌≡◌, refl, true, false, List, [], ◌∷◌, ◌++◌}
use caqrs.Orchestrator.Listeners.{returned, raised, Listener, notify}
use caqrs.Orchestrator.StateMachine.{
  OrchestratorState, idle, observing, hypothesizing, scrutinizing, auditing, deciding, reporting,
  error, StateTransition, OrchestratorStateMachine, is_valid, transition,
}
use caqrs.Orchestrator.StateMachine.Edges.{IsEdge}
use caqrs.Orchestrator.StateMachine.Runs.{
  run, run-IsLadder, transition_outcome, recovery_two_steps, IsLadder,
}

-- A listener that writes down what it is told, and one that raises.
abbrev recorder : Listener StateTransition (List StateTransition)
recorder e w = (returned tt, w ++ e ∷ [])

abbrev broken : Listener StateTransition (List StateTransition)
broken e w = (raised, w)

abbrev fresh : OrchestratorStateMachine (List StateTransition)
fresh = record { state = idle; listeners = recorder ∷ [] }

abbrev failing : OrchestratorStateMachine (List StateTransition)
failing = record { state = deciding; listeners = broken ∷ recorder ∷ [] }

abbrev requests : List OrchestratorState
requests = observing ∷ reporting ∷ hypothesizing ∷ scrutinizing ∷ error ∷ idle ∷ observing ∷ []

run-requests :
    (run requests fresh [] (idle ∷ [])).1
    ≡ observing ∷ idle ∷ error ∷ scrutinizing ∷ hypothesizing ∷ observing ∷ idle ∷ []
unfolding transition is_valid notify
run-requests = refl

-- The state has moved although the listener raised, and the second listener was not told.
transition_raises : transition failing idle [] ≡ (raised, record failing { state = idle }, [])
unfolding transition is_valid notify
transition_raises = refl

run-IsLadder_example :
    IsLadder (run requests fresh [] (idle ∷ [])).0 (run requests fresh [] (idle ∷ [])).1
run-IsLadder_example = run-IsLadder requests fresh [] refl

transition_outcome_example :
    (IsEdge deciding idle
      × ((transition failing idle []).1 ≡ record failing { state = idle })
      × ((transition failing idle []).2
          ≡ (notify failing.listeners (record { src = deciding; dst = idle }) []).1)
      × ((transition failing idle []).0
          ≡ (elim (notify failing.listeners (record { src = deciding; dst = idle }) []).0 [
            | returned _ ↦ returned true
            | raised ↦ raised
          ])))
    ⊎ ((¬ IsEdge deciding idle) × (transition failing idle [] ≡ (returned false, failing, [])))
transition_outcome_example = transition_outcome failing idle []

recovery_two_steps_test :
    run (error ∷ idle ∷ []) (record fresh { state = auditing }) [] []
    ≡ (record fresh { state = idle }, idle ∷ error ∷ [])
recovery_two_steps_test =
    recovery_two_steps (record fresh { state = auditing }) [] [] ((λ e w. refl), tt)
