-- ===== src/Orchestrator/CycleQueue.antt =====
-- src/caqrs/orchestrator/cycle_queue.py: the queue of cycles. A coroutine gives way to others only
-- where it waits for the runner, so a call is two parts: what it does until it hands an input to the
-- runner, and what it does when the runner is done. `R` is the runner's `CycleResult`.
pub mod World
pub mod Serial
pub mod Drain
mod Tests
use caqrs.Prelude.{
  ℕ, Bool, true, false, List, [], ◌∷◌, ◌++◌, Option, none, some, length, ◌||◌, if◌then◌else◌, Reply,
  returned, raised,
}

pub record CycleQueue {ℓ} (I : Type ℓ) : Type ℓ where
  pub waiting : List I
  pub running : Bool

-- How a call goes on: it has an answer, or it waits for the runner with an input.
pub data Progress {ℓ κ} (I : Type ℓ) (B : Type κ) : Type (ℓ ⊔ κ) where
  answered : Reply B → Progress I B
  started : I → Progress I B

module _ {ℓ} {I : Type ℓ} where
  -- `__init__`
  unfoldable pub init : CycleQueue I
  init = record { waiting = []; running = false }

  -- `pending`
  unfoldable pub pending : CycleQueue I → ℕ
  pending q = length q.waiting

  unfoldable pub enqueue : CycleQueue I → I → CycleQueue I
  enqueue q observer_input = record q { waiting = q.waiting ++ observer_input ∷ [] }

  -- `_run_guarded` up to the runner, and after it.
  abbrev pub guard_enter : CycleQueue I → CycleQueue I
  guard_enter q = record q { running = true }

  abbrev pub guard_leave : CycleQueue I → CycleQueue I
  guard_leave q = record q { running = false }

module _ {ℓ κ} {I : Type ℓ} {R : Type κ} where
  -- `run_one` up to the runner.
  unfoldable pub run_one : CycleQueue I → Progress I (Option R) × CycleQueue I
  run_one q = elim q.waiting [
    | [] ↦ (answered (returned none), q)
    | observer_input ∷ rest ↦
        if q.running
        then (answered (returned none), q)
        else (started observer_input, guard_enter (record q { waiting = rest }))
  ]

  -- `run_one` after the runner.
  unfoldable pub run_one_end : CycleQueue I → Reply R → Reply (Option R) × CycleQueue I
  run_one_end q (returned result) = (returned (some result), guard_leave q)
  run_one_end q raised = (raised, guard_leave q)

  -- The loop of `drain` up to the runner, with the results so far.
  unfoldable pub drain_loop : CycleQueue I → List R → Progress I (List R) × CycleQueue I
  drain_loop q results = elim q.waiting [
    | [] ↦ (answered (returned results), q)
    | observer_input ∷ rest ↦ (started observer_input, guard_enter (record q { waiting = rest }))
  ]

  unfoldable pub drain : CycleQueue I → Progress I (List R) × CycleQueue I
  drain q = if q.running then (answered (returned []), q) else drain_loop q []

  -- `drain` after the runner: an exception leaves the loop, and the results with it.
  unfoldable pub drain_resume : CycleQueue I → List R → Reply R → Progress I (List R) × CycleQueue I
  drain_resume q results (returned result) = drain_loop (guard_leave q) (results ++ result ∷ [])
  drain_resume q results raised = (answered raised, guard_leave q)
