-- ===== src/Orchestrator/CycleQueue/Serial.antt =====
-- Any interleaving of the callers of cycle_queue.py.
use caqrs.Prelude.{
  true, false, List, [], ◌∷◌, ◌++◌, map, Reply, returned, raised, ◌≡◌, refl, sym, ap, subst, ◌∙◌,
  inl, inr, append-nil, append_assoc, arith, Bool-cases, Nil-cases,
}
use mathlib.Core.List.{map-append}
use caqrs.Orchestrator.CycleQueue.{
  CycleQueue, Progress, answered, started, init, enqueue, run_one, run_one_end, drain, drain_loop,
  drain_resume, guard_leave,
}
use caqrs.Orchestrator.CycleQueue.World.{
  Caller, running_one, draining, World, input_of, goes_one, goes_all, ends, resumes, enqueues,
  calls_run_one, calls_drain, finishes, Reachable, at_start, after_step, Collected, IsCollected,
  IsSerial, run_one_nothing, run_one_busy, run_one_starts, drain_loop_ends, drain_loop_starts,
  drain_busy, drain_free,
}

module _ {ℓ κ} {I : Type ℓ} {R : Type κ} where
  -- A call that starts an input from an idle queue.
  starts :
      (w : World I R) (c : Caller I R) (rest : List I)
      → IsSerial w
      → w.waiting ≡ []
      → w.queue.waiting ≡ input_of c ∷ rest
      → IsCollected w.ended c
      → IsSerial
          (record w { queue = record { waiting = rest; running = true }; waiting = c ∷ w.waiting })
  starts w c rest s idle next mine = record {
    fifo = s.fifo ∙ rw (idle, next) refl;
    served = inr (c, refl, ap (λ cs. c ∷ cs) idle, mine);
  }

  idle_of : (w : World I R) → IsSerial w → w.queue.running ≡ false → w.waiting ≡ []
  idle_of w s h = elim s.served [
    | inl (_, idle) ↦ idle
    | inr (c, busy, _, _) ↦ absurd (ground (arith, h, busy))
  ]

  enqueues-IsSerial :
      (w : World I R) (i : I)
      → IsSerial w
      → IsSerial (record w { queue = enqueue w.queue i; arrived = w.arrived ++ i ∷ [] })
  unfolding enqueue
  enqueues-IsSerial w i s = record {
    fifo = ap (λ xs. xs ++ i ∷ []) s.fifo ∙ simp append_assoc;
    served = s.served;
  }

  run_one-IsSerial : (w : World I R) → IsSerial w → IsSerial (goes_one w (run_one w.queue))
  run_one-IsSerial w s = elim (Nil-cases w.queue.waiting) [
    | inl empty ↦
        subst (λ x. IsSerial (goes_one w x)) (sym (run_one_nothing w.queue empty))
          (record { fifo = s.fifo; served = s.served })
    | inr (i, rest, next) ↦ elim (Bool-cases w.queue.running) [
      | inl busy ↦
          subst (λ x. IsSerial (goes_one w x)) (sym (run_one_busy w.queue busy))
            (record { fifo = s.fifo; served = s.served })
      | inr free ↦
          subst (λ x. IsSerial (goes_one w x)) (sym (run_one_starts w.queue next free))
            (starts w (running_one i) rest s (idle_of w s free) next tt)
    ]
  ]

  -- The loop of `drain`, where nothing waits for the runner.
  drain_loop-IsSerial :
      (w : World I R) (results : List R)
      → IsSerial w
      → w.queue.running ≡ false
      → Collected w.ended results
      → IsSerial (goes_all results w (drain_loop w.queue results))
  drain_loop-IsSerial w results s free mine = elim (Nil-cases w.queue.waiting) [
    | inl empty ↦
        subst (λ x. IsSerial (goes_all results w x)) (sym (drain_loop_ends w.queue results empty))
          (record { fifo = s.fifo; served = s.served })
    | inr (i, rest, next) ↦
        subst (λ x. IsSerial (goes_all results w x)) (sym (drain_loop_starts w.queue results next))
          (starts w (draining results i) rest s (idle_of w s free) next mine)
  ]

  drain-IsSerial : (w : World I R) → IsSerial w → IsSerial (goes_all [] w (drain w.queue))
  drain-IsSerial w s = elim (Bool-cases w.queue.running) [
    | inl busy ↦
        subst (λ x. IsSerial (goes_all [] w x)) (sym (drain_busy w.queue busy))
          (record { fifo = s.fifo; served = s.served })
    | inr free ↦
        subst (λ x. IsSerial (goes_all [] w x)) (sym (drain_free w.queue free))
          (drain_loop-IsSerial w [] s free (w.ended, [], sym (append-nil w.ended), refl))
  ]

  -- The world when the runner is done, before the caller goes on.
  abbrev left : World I R → Caller I R → Reply R → World I R
  left w c outcome = record (ends w c [] outcome) { queue = guard_leave w.queue }

  left-IsSerial :
      (w : World I R) (c : Caller I R) (outcome : Reply R)
      → IsSerial w
      → w.waiting ≡ c ∷ []
      → IsSerial (left w c outcome)
  left-IsSerial w c outcome s only = record {
    fifo =
        s.fifo
        ∙ rw (only, map-append (λ (e : I × Reply R). e.0) w.ended ((input_of c, outcome) ∷ []))
            (sym (append_assoc (map (λ e. e.0) w.ended) (input_of c ∷ []) w.queue.waiting));
    served = inl (refl, refl);
  }

  pub Collected-append :
      (ended : List (I × Reply R)) (results : List R) (i : I) (r : R)
      → Collected ended results
      → Collected (ended ++ (i, returned r) ∷ []) (results ++ r ∷ [])
  Collected-append ended results i r (earlier, mine, split, same) = (
    earlier,
    mine ++ (i, r) ∷ [],
    ap (λ xs. xs ++ (i, returned r) ∷ []) split
        ∙ (append_assoc earlier (map (λ e. (e.0, returned e.1)) mine) ((i, returned r) ∷ [])
            ∙ ap (λ xs. earlier ++ xs)
                (sym (map-append (λ (e : I × R). (e.0, returned e.1)) mine ((i, r) ∷ [])))),
    ap (λ xs. xs ++ r ∷ []) same ∙ sym (map-append (λ (e : I × R). e.1) mine ((i, r) ∷ [])),
  )

  goes_all-queue :
      (w : World I R) (q : CycleQueue I) (results : List R) (x : Progress I (List R) × CycleQueue I)
      → goes_all results (record w { queue = q }) x ≡ goes_all results w x
  goes_all-queue w q results (answered a, _) = refl
  goes_all-queue w q results (started i, _) = refl

  resumes-IsSerial :
      (w : World I R) (c : Caller I R) (outcome : Reply R)
      → IsSerial w
      → w.waiting ≡ c ∷ []
      → IsCollected w.ended c
      → IsSerial (resumes (ends w c [] outcome) c outcome)
  unfolding run_one_end drain_resume
  resumes-IsSerial w (running_one i) (returned r) s only mine =
      let s' = left-IsSerial w (running_one i) (returned r) s only in
      record { fifo = s'.fifo; served = s'.served }
  resumes-IsSerial w (running_one i) raised s only mine =
      let s' = left-IsSerial w (running_one i) raised s only in
      record { fifo = s'.fifo; served = s'.served }
  resumes-IsSerial w (draining results i) (returned r) s only mine =
      let w' = left w (draining results i) (returned r) in
      subst IsSerial
        (goes_all-queue (ends w (draining results i) [] (returned r)) (guard_leave w.queue)
          (results ++ r ∷ []) (drain_loop (guard_leave w.queue) (results ++ r ∷ [])))
        (drain_loop-IsSerial w' (results ++ r ∷ [])
          (left-IsSerial w (draining results i) (returned r) s only) refl
          (Collected-append w.ended results i r mine))
  resumes-IsSerial w (draining results i) raised s only mine =
      let s' = left-IsSerial w (draining results i) raised s only in
      record { fifo = s'.fifo; served = s'.served }

  only_one :
      (before : List (Caller I R)) (caller : Caller I R) (after : List (Caller I R))
      (c : Caller I R)
      → c ∷ [] ≡ before ++ caller ∷ after
      → (before ≡ []) × (after ≡ []) × (caller ≡ c)
  only_one [] caller after c h = ground arith
  only_one (b ∷ []) caller after c h = ground arith
  only_one (b ∷ x ∷ before) caller after c h = ground arith

  not_empty :
      (before : List (Caller I R)) (caller : Caller I R) (after : List (Caller I R))
      → [] ≡ before ++ caller ∷ after
      → ⊥
  not_empty [] caller after h = cc
  not_empty (b ∷ before) caller after h = cc

  -- The one caller that waits is served.
  finishes-IsSerial :
      (w : World I R) (before : List (Caller I R)) (caller : Caller I R) (after : List (Caller I R))
      (outcome : Reply R)
      → IsSerial w
      → w.waiting ≡ before ++ caller ∷ after
      → IsSerial (resumes (ends w caller (before ++ after) outcome) caller outcome)
  finishes-IsSerial w before caller after outcome s split = elim s.served [
    | inl (_, idle) ↦ absurd (not_empty before caller after (sym idle ∙ split))
    | inr (c, busy, only, mine) ↦
        let (no_before, no_after, same) = only_one before caller after c (sym only ∙ split) in
        rw (no_before, no_after, same) (resumes-IsSerial w c outcome s only mine)
  ]

  -- Whatever callers enqueue inputs, call `run_one` or `drain`, and however the runner's answers and
  -- exceptions interleave with them: the inputs that came are those of the runs that ended, then the
  -- one that runs, then those in the queue, in the order in which they came; at most one input runs,
  -- and the flag says whether one does.
  pub Reachable-IsSerial : {w : World I R} → Reachable w → IsSerial w
  Reachable-IsSerial at_start = unfold init in record { fifo = refl; served = inl (refl, refl) }
  Reachable-IsSerial (after_step r (enqueues w i)) = enqueues-IsSerial w i (Reachable-IsSerial r)
  Reachable-IsSerial (after_step r (calls_run_one w)) = run_one-IsSerial w (Reachable-IsSerial r)
  Reachable-IsSerial (after_step r (calls_drain w)) = drain-IsSerial w (Reachable-IsSerial r)
  Reachable-IsSerial (after_step r (finishes w before caller after outcome split)) =
      finishes-IsSerial w before caller after outcome (Reachable-IsSerial r) split
