-- ===== src/Orchestrator/StateMachine/Runs.antt =====
-- What holds of the machine of state_machine.py over any sequence of requests.
use caqrs.Prelude.{
  ◌⊎◌, inl, inr, Bool-cases, ◌≡◌, refl, suc, reverse, true, false, Bool, List, [], ◌∷◌, length,
  take, arith,
}
use caqrs.Orchestrator.Listeners.{Reply, returned, raised, notify, AllQuiet, notify_quiet}
use caqrs.Orchestrator.StateMachine.{
  OrchestratorState, idle, error, position, all_states, is_valid, OrchestratorStateMachine,
  transition,
}
use caqrs.Orchestrator.StateMachine.Edges.{IsEdge, is_valid_iff}

-- The phases that lead to a state, the state first.
abbrev pub ladder : OrchestratorState → List OrchestratorState
ladder error = error ∷ []
ladder s = reverse (take (suc (position s)) all_states)

module _ {ℓ} {W : Type ℓ} where
  -- The states passed through so far, newest first, after one answer.
  abbrev pub note :
      Reply Bool → OrchestratorStateMachine W → List OrchestratorState → List OrchestratorState
  note (returned false) m seen = seen
  note _ m seen = m.state ∷ seen

  -- One `transition` after another, whatever each of them answered.
  abbrev pub run :
      List OrchestratorState
      → OrchestratorStateMachine W
      → W
      → List OrchestratorState
      → OrchestratorStateMachine W × List OrchestratorState
  run [] m w seen = (m, seen)
  run (target ∷ targets) m w seen =
      let (answer, m', w') = transition m target w in run targets m' w' (note answer m' seen)

  abbrev pub IsLadder : OrchestratorStateMachine W → List OrchestratorState → Type 0
  IsLadder m seen = take (length (ladder m.state)) seen ≡ ladder m.state

ladder-is_valid :
    (s t : OrchestratorState) (seen : List OrchestratorState)
    → is_valid s t ≡ true
    → take (length (ladder s)) seen ≡ ladder s
    → take (length (ladder t)) (t ∷ seen) ≡ ladder t
unfolding is_valid
ladder-is_valid s t seen v h = ground arith

module _ {ℓ} {W : Type ℓ} where
  transition-IsLadder :
      (m : OrchestratorStateMachine W) (target : OrchestratorState) (w : W)
      (seen : List OrchestratorState)
      → IsLadder m seen
      → IsLadder
          (transition m target w).1
          (note (transition m target w).0 (transition m target w).1 seen)
  unfolding transition
  transition-IsLadder m target w seen h = ground (arith, ladder-is_valid m.state target seen)

  run_from-IsLadder :
      (targets : List OrchestratorState) (m : OrchestratorStateMachine W) (w : W)
      (seen : List OrchestratorState)
      → IsLadder m seen
      → IsLadder (run targets m w seen).0 (run targets m w seen).1
  run_from-IsLadder [] m w seen h = h
  run_from-IsLadder (target ∷ targets) m w seen h =
      run_from-IsLadder targets (transition m target w).1 (transition m target w).2
        (note (transition m target w).0 (transition m target w).1 seen)
        (transition-IsLadder m target w seen h)

  -- From an idle machine, whatever is asked for, whatever the listeners do and whether they raise:
  -- the states passed through last, newest first, are the current state and every phase that leads
  -- to it, in order, back to `idle`. No phase of a cycle can be skipped.
  pub run-IsLadder :
      (targets : List OrchestratorState) (m : OrchestratorStateMachine W) (w : W)
      → m.state ≡ idle
      → IsLadder (run targets m w (idle ∷ [])).0 (run targets m w (idle ∷ [])).1
  run-IsLadder targets m w h = run_from-IsLadder targets m w (idle ∷ []) (rw h)

  -- A request for one phase forward, for a fall into `error`, or for the way back to `idle` from a
  -- phase after `observing` or from `error` takes the state to the target, keeps the listeners, has
  -- them told of the source and the target, and answers True unless one of them raises. Any other
  -- request answers False and changes neither the machine nor the world.
  pub transition_outcome :
      (m : OrchestratorStateMachine W) (target : OrchestratorState) (w : W)
      → (IsEdge m.state target
          × ((transition m target w).1 ≡ record m { state = target })
          × ((transition m target w).2
              ≡ (notify m.listeners (record { src = m.state; dst = target }) w).1)
          × ((transition m target w).0
              ≡ (elim (notify m.listeners (record { src = m.state; dst = target }) w).0 [
                | returned _ ↦ returned true
                | raised ↦ raised
              ])))
        ⊎ ((¬ IsEdge m.state target) × (transition m target w ≡ (returned false, m, w)))
  unfolding transition
  transition_outcome m target w = elim (Bool-cases (is_valid m.state target)) [
    | inl v ↦ inl ((is_valid_iff m.state target).0 v, ground arith, ground arith, ground arith)
    | inr v ↦ inr (λ e. ground (arith, (is_valid_iff m.state target).1 e, v), rw v)
  ]

  accepted_quiet :
      (m : OrchestratorStateMachine W) (target : OrchestratorState) (w : W)
      → IsEdge m.state target
      → AllQuiet m.listeners
      → ((transition m target w).0 ≡ returned true)
        × ((transition m target w).1 ≡ record m { state = target })
  unfolding transition
  accepted_quiet m target w e quiet =
      let v = (is_valid_iff m.state target).1 e in
      let q = notify_quiet m.listeners (record { src = m.state; dst = target }) w quiet in
      (rw (v, q), rw (v, q))

  -- With listeners that do not raise, two requests lead from any state back to `idle`: a fall into
  -- `error`, which every state may take, and the recovery from it.
  pub recovery_two_steps :
      (m : OrchestratorStateMachine W) (w : W) (seen : List OrchestratorState)
      → AllQuiet m.listeners
      → run (error ∷ idle ∷ []) m w seen ≡ (record m { state = idle }, idle ∷ error ∷ seen)
  recovery_two_steps m w seen quiet =
      let fall = accepted_quiet m error w (inl refl) quiet in
      let failed : OrchestratorStateMachine W = record m { state = error } in
      let back =
        accepted_quiet failed idle (transition m error w).2 (inr (inr (refl, omega arith))) quiet in
      rw (fall.1, fall.0, back.1, back.0)
