-- ===== src/Orchestrator/StateMachine/Edges.antt =====
-- `_VALID_TRANSITIONS` of state_machine.py against a description that does not list the pairs.
use caqrs.Prelude.{suc, ◌≤◌, ◌≡◌, true, ◌⊎◌, ◌↔◌, arith}
use caqrs.Orchestrator.StateMachine.{OrchestratorState, idle, error, position, is_valid}

-- One phase forward, a fall into `error`, or the way back to `idle` from the third phase on.
abbrev pub IsEdge : OrchestratorState → OrchestratorState → Type 0
IsEdge src dst =
    (dst ≡ error) ⊎ ((position dst ≡ suc (position src)) ⊎ ((dst ≡ idle) × (2 ≤ position src)))

is_valid→IsEdge : (src dst : OrchestratorState) → is_valid src dst ≡ true → IsEdge src dst
unfolding is_valid
is_valid→IsEdge src dst h = ground arith

IsEdge→is_valid : (src dst : OrchestratorState) → IsEdge src dst → is_valid src dst ≡ true
unfolding is_valid
IsEdge→is_valid src dst h = ground arith

-- The whitelist has a pair exactly if it is one phase forward, a fall into `error`, or the way back to
-- `idle` from a phase after `observing` or from `error`.
pub is_valid_iff : (src dst : OrchestratorState) → (is_valid src dst ≡ true) ↔ IsEdge src dst
is_valid_iff src dst = (is_valid→IsEdge src dst, IsEdge→is_valid src dst)
