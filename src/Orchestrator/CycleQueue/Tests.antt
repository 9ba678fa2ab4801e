-- ===== src/Orchestrator/CycleQueue/Tests.antt =====
-- Runs of the queue of cycle_queue.py; an input is a number and its result is another.
use caqrs.Prelude.{ℕ, false, true, [], ◌∷◌, ◌++◌, none, returned, ◌≡◌, refl}
use caqrs.Orchestrator.CycleQueue.{
  CycleQueue, answered, init, enqueue, drain, drain_loop, drain_resume, run_one,
}
use caqrs.Orchestrator.CycleQueue.World.{
  World, draining, Answer, enqueues, calls_run_one, calls_drain, finishes, Reachable, at_start,
  after_step, IsSerial, Collected, goes_all,
}
use caqrs.Orchestrator.CycleQueue.Serial.{Reachable-IsSerial}
use caqrs.Orchestrator.CycleQueue.Drain.{runs, drain_all, drain_answers}

abbrev two_waiting : CycleQueue ℕ
two_waiting = record { waiting = 7 ∷ 8 ∷ []; running = false }

drain_all_example :
    runs {I = ℕ} {R = ℕ} (70 ∷ 80 ∷ []) [] (drain two_waiting)
    ≡ (answered (returned (70 ∷ 80 ∷ [])), record { waiting = []; running = false })
drain_all_example = drain_all two_waiting (70 ∷ 80 ∷ []) refl refl

-- Two inputs come, a `drain` starts the first of them, a second `drain` and a `run_one` get nothing.
abbrev busy : World ℕ ℕ
busy = record {
  queue = record { waiting = 8 ∷ []; running = true };
  waiting = draining [] 7 ∷ [];
  arrived = 7 ∷ 8 ∷ [];
  ended = [];
  answers = Answer.one (returned none) ∷ Answer.all (returned []) ∷ [];
}

abbrev start : World ℕ ℕ
start = record { queue = init; waiting = []; arrived = []; ended = []; answers = [] }

busy-Reachable : Reachable busy
unfolding init enqueue drain drain_loop run_one
busy-Reachable =
    let w0 = start in
    let w1 : World ℕ ℕ = record w0 { queue = enqueue w0.queue 7; arrived = w0.arrived ++ 7 ∷ [] } in
    let w2 : World ℕ ℕ = record w1 { queue = enqueue w1.queue 8; arrived = w1.arrived ++ 8 ∷ [] } in
    let w3 : World ℕ ℕ = goes_all [] w2 (drain w2.queue) in
    let w4 : World ℕ ℕ = goes_all [] w3 (drain w3.queue) in
    after_step
      (after_step
        (after_step (after_step (after_step at_start (enqueues w0 7)) (enqueues w1 8))
          (calls_drain w2))
        (calls_drain w3))
      (calls_run_one w4)

Reachable-IsSerial_example : IsSerial busy
Reachable-IsSerial_example = Reachable-IsSerial busy-Reachable

-- The first run ends, and the same `drain` starts the second input.
abbrev next : World ℕ ℕ
next = record busy {
  queue = record { waiting = []; running = true };
  waiting = draining (70 ∷ []) 8 ∷ [];
  ended = (7, returned 70) ∷ [];
}

next-Reachable : Reachable next
unfolding drain_resume drain_loop
next-Reachable = after_step busy-Reachable (finishes busy [] (draining [] 7) [] (returned 70) refl)

drain_answers_example :
    (next.queue.waiting ≡ [])
    × Collected {I = ℕ} {R = ℕ} ((7, returned 70) ∷ (8, returned 80) ∷ []) (70 ∷ 80 ∷ [])
drain_answers_example =
    drain_answers (70 ∷ []) 8 80 next-Reachable refl (unfold drain_resume drain_loop in refl)
