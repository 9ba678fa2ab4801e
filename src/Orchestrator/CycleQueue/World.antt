-- ===== src/Orchestrator/CycleQueue/World.antt =====
-- The callers of cycle_queue.py and the steps that they and the runner take.
use caqrs.Prelude.{
  Bool, true, false, List, [], ◌∷◌, ◌++◌, map, Option, none, Reply, returned, raised, ◌≡◌, refl,
  ◌⊎◌, arith,
}
use caqrs.Orchestrator.CycleQueue.{
  CycleQueue, Progress, answered, started, init, enqueue, run_one, run_one_end, drain, drain_loop,
  drain_resume,
}

-- A caller that waits for the runner: with an input, and a `drain` with its results so far.
pub data Caller {ℓ κ} (I : Type ℓ) (R : Type κ) : Type (ℓ ⊔ κ) where
  running_one : I → Caller I R
  draining : List R → I → Caller I R

pub data Answer {κ} (R : Type κ) : Type κ where
  one : Reply (Option R) → Answer R
  all : Reply (List R) → Answer R

-- The queue, the callers that wait for the runner, every input that ever came, every run that ended
-- with its outcome, oldest first, and the answers of the calls, newest first.
pub record World {ℓ κ} (I : Type ℓ) (R : Type κ) : Type (ℓ ⊔ κ) where
  pub queue : CycleQueue I
  pub waiting : List (Caller I R)
  pub arrived : List I
  pub ended : List (I × Reply R)
  pub answers : List (Answer R)

abbrev pub so_far {κ} : {R : Type κ} → List R → Reply R → List R
so_far results (returned r) = results ++ r ∷ []
so_far results raised = results

module _ {ℓ κ} {I : Type ℓ} {R : Type κ} where
  abbrev pub input_of : Caller I R → I
  input_of (running_one i) = i
  input_of (draining results i) = i

  -- A call of `run_one` or `drain` that went as far as it can: it waits, or it has an answer.
  abbrev pub goes_one : World I R → Progress I (Option R) × CycleQueue I → World I R
  goes_one w (answered a, q) = record w { queue = q; answers = one a ∷ w.answers }
  goes_one w (started i, q) = record w { queue = q; waiting = running_one i ∷ w.waiting }

  abbrev pub goes_all : List R → World I R → Progress I (List R) × CycleQueue I → World I R
  goes_all results w (answered a, q) = record w { queue = q; answers = all a ∷ w.answers }
  goes_all results w (started i, q) = record w {
    queue = q;
    waiting = draining results i ∷ w.waiting;
  }

  -- The runner is done with the input of a caller.
  abbrev pub ends : World I R → Caller I R → List (Caller I R) → Reply R → World I R
  ends w caller others outcome = record w {
    waiting = others;
    ended = w.ended ++ (input_of caller, outcome) ∷ [];
  }

  abbrev pub resumes : World I R → Caller I R → Reply R → World I R
  resumes w (running_one i) outcome =
      let (a, q) = run_one_end w.queue outcome in
      record w { queue = q; answers = one a ∷ w.answers }
  resumes w (draining results i) outcome =
      goes_all (so_far results outcome) w (drain_resume w.queue results outcome)

  -- One step: an input comes, a call is made, or the runner is done for any of the waiting callers.
  pub data Step : World I R → World I R → Type (ℓ ⊔ κ) where
    enqueues :
        (w : World I R) (i : I)
        → Step w (record w { queue = enqueue w.queue i; arrived = w.arrived ++ i ∷ [] })
    calls_run_one : (w : World I R) → Step w (goes_one w (run_one w.queue))
    calls_drain : (w : World I R) → Step w (goes_all [] w (drain w.queue))
    finishes :
        (w : World I R) (before : List (Caller I R)) (caller : Caller I R)
        (after : List (Caller I R)) (outcome : Reply R)
        → w.waiting ≡ before ++ caller ∷ after
        → Step w (resumes (ends w caller (before ++ after) outcome) caller outcome)

  pub data Reachable : World I R → Type (ℓ ⊔ κ) where
    at_start :
        Reachable (record { queue = init; waiting = []; arrived = []; ended = []; answers = [] })
    after_step : {w w' : World I R} → Reachable w → Step w w' → Reachable w'

  -- The results of a waiting `drain` are those of the newest runs that ended, in order.
  abbrev pub Collected : List (I × Reply R) → List R → Type (ℓ ⊔ κ)
  Collected ended results =
      (earlier : List (I × Reply R)) × (mine : List (I × R)) × (ended
        ≡ earlier ++ map (λ e. (e.0, returned e.1)) mine)
      × (results ≡ map (λ e. e.1) mine)

  abbrev pub IsCollected : List (I × Reply R) → Caller I R → Type (ℓ ⊔ κ)
  IsCollected ended (running_one i) = Unit
  IsCollected ended (draining results i) = Collected ended results

  -- At most one caller waits for the runner, and the flag says whether one does.
  abbrev pub IsServed : Bool → List (I × Reply R) → List (Caller I R) → Type (ℓ ⊔ κ)
  IsServed running ended waiting =
      ((running ≡ false) × (waiting ≡ []))
      ⊎ ((c : Caller I R) × (running ≡ true) × (waiting ≡ c ∷ []) × IsCollected ended c)

  -- What holds of the world at any time: the inputs that came are those of the runs that ended, then
  -- the one that runs, then those in the queue, in the order in which they came.
  pub record IsSerial (w : World I R) : Type (ℓ ⊔ κ) where
    pub fifo : w.arrived ≡ map (λ e. e.0) w.ended ++ (map input_of w.waiting ++ w.queue.waiting)
    pub served : IsServed w.queue.running w.ended w.waiting

  pub run_one_nothing :
      (q : CycleQueue I) → q.waiting ≡ [] → run_one {R = R} q ≡ (answered (returned none), q)
  unfolding run_one
  run_one_nothing q h = rw h refl

  pub run_one_busy :
      (q : CycleQueue I) → q.running ≡ true → run_one {R = R} q ≡ (answered (returned none), q)
  unfolding run_one
  run_one_busy q h = ground (arith, h)

  pub run_one_starts :
      (q : CycleQueue I) {i : I} {rest : List I}
      → q.waiting ≡ i ∷ rest
      → q.running ≡ false
      → run_one {R = R} q ≡ (started i, record { waiting = rest; running = true })
  unfolding run_one
  run_one_starts q next free = rw (next, free) refl

  pub drain_loop_ends :
      (q : CycleQueue I) (results : List R)
      → q.waiting ≡ []
      → drain_loop q results ≡ (answered (returned results), q)
  unfolding drain_loop
  drain_loop_ends q results h = rw h refl

  pub drain_loop_starts :
      (q : CycleQueue I) (results : List R) {i : I} {rest : List I}
      → q.waiting ≡ i ∷ rest
      → drain_loop q results ≡ (started i, record { waiting = rest; running = true })
  unfolding drain_loop
  drain_loop_starts q results next = rw next refl

  pub drain_busy :
      (q : CycleQueue I) → q.running ≡ true → drain {R = R} q ≡ (answered (returned []), q)
  unfolding drain
  drain_busy q h = rw h refl

  pub drain_free : (q : CycleQueue I) → q.running ≡ false → drain {R = R} q ≡ drain_loop q []
  unfolding drain
  drain_free q h = rw h refl
