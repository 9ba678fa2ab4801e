-- ===== src/Orchestrator/CycleQueue/Drain.antt =====
-- What a `drain` of cycle_queue.py answers.
use caqrs.Prelude.{
  false, List, [], ◌∷◌, ◌++◌, length, returned, ◌≡◌, refl, sym, ap, subst, ◌∙◌, append-nil,
  append_assoc, arith, inl, inr, Nil-cases,
}
use caqrs.Orchestrator.CycleQueue.{
  CycleQueue, Progress, answered, started, drain, drain_loop, drain_resume, guard_leave,
}
use caqrs.Orchestrator.CycleQueue.World.{World, draining, Reachable, Collected, IsCollected}
use caqrs.Orchestrator.CycleQueue.Serial.{Reachable-IsSerial, Collected-append}

module _ {ℓ κ} {I : Type ℓ} {R : Type κ} where
  -- The runner returns one result after another to a `drain`, and no input comes meanwhile.
  abbrev pub runs :
      List R → List R → Progress I (List R) × CycleQueue I → Progress I (List R) × CycleQueue I
  runs [] results at = at
  runs (r ∷ more) results (answered a, q) = (answered a, q)
  runs (r ∷ more) results (started i, q) =
      runs more (results ++ r ∷ []) (drain_resume q results (returned r))

  runs-drain_loop :
      (outcomes results : List R) (inputs : List I)
      → length outcomes ≡ length inputs
      → runs outcomes results (drain_loop (record { waiting = inputs; running = false }) results)
        ≡ (answered (returned (results ++ outcomes)), record { waiting = []; running = false })
  unfolding drain_loop drain_resume
  runs-drain_loop [] results [] h = rw append-nil refl
  runs-drain_loop [] results (i ∷ inputs) h = absurd (omega (arith, h))
  runs-drain_loop (r ∷ outcomes) results [] h = absurd (omega (arith, h))
  runs-drain_loop (r ∷ outcomes) results (i ∷ inputs) h =
      runs-drain_loop outcomes (results ++ r ∷ []) inputs (omega (arith, h))
      ∙ ap (λ x. (answered (returned x), record { waiting = []; running = false }))
          (append_assoc results (r ∷ []) outcomes)

  -- A `drain` of an idle queue ends: if the runner returns a result for each input in the queue, the
  -- answer is all of them, in order, and the queue is empty and idle.
  pub drain_all :
      (q : CycleQueue I) (outcomes : List R)
      → q.running ≡ false
      → length outcomes ≡ length q.waiting
      → runs outcomes [] (drain q)
        ≡ (answered (returned outcomes), record { waiting = []; running = false })
  unfolding drain
  drain_all q outcomes free h = rw free (runs-drain_loop outcomes [] q.waiting h)

  collected :
      {w : World I R} (results : List R) (i : I)
      → Reachable w
      → w.waiting ≡ draining results i ∷ []
      → Collected w.ended results
  collected {w = w} results i reachable only = elim (Reachable-IsSerial reachable).served [
    | inl (_, idle) ↦ absurd (ground (arith, idle, only))
    | inr (c, _, split, mine) ↦
        let same : c ≡ draining results i = ground (arith, sym split ∙ only) in
        subst (IsCollected w.ended) same mine
  ]

  loop_answer :
      (q : CycleQueue I) (results : List R) {final : List R}
      → (drain_loop q results).0 ≡ answered (returned final)
      → (q.waiting ≡ []) × (results ≡ final)
  unfolding drain_loop
  loop_answer q results h = elim (Nil-cases q.waiting) [
    | inl empty ↦ (empty, ground (arith, empty, h))
    | inr (i, rest, next) ↦ absurd (ground (arith, next, h))
  ]

  -- In any interleaving, a `drain` that answers when the runner returns leaves no input behind, and
  -- its results are those of the newest runs that ended, in order.
  pub drain_answers :
      {w : World I R} (results : List R) (i : I) (r : R) {final : List R}
      → Reachable w
      → w.waiting ≡ draining results i ∷ []
      → (drain_resume w.queue results (returned r)).0 ≡ answered (returned final)
      → (w.queue.waiting ≡ []) × Collected (w.ended ++ (i, returned r) ∷ []) final
  unfolding drain_resume
  drain_answers {w = w} results i r reachable only h =
      let (empty, same) = loop_answer (guard_leave w.queue) (results ++ r ∷ []) h in
      (
        empty,
        subst (Collected (w.ended ++ (i, returned r) ∷ [])) same
            (Collected-append w.ended results i r (collected results i reachable only)),
      )
