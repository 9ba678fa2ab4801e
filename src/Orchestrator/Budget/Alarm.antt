-- ===== src/Orchestrator/Budget/Alarm.antt =====
-- The BUDGET_EXCEEDED event of budget.py, over any sequence of calls of one guard.
use caqrs.Prelude.{
  ℕ, ◌∙◌, ◌⊎◌, ◌+◌, ◌-◌, ◌≤◌, ◌<◌, Bool, true, false, ◌≡◌, refl, ◌||◌, List, [], ◌∷◌, ◌++◌, Option,
  none, some, ltb, arith, if◌then◌else◌, Bool-cases, inl, inr,
}
use caqrs.Prelude.Int.{pos, pos_part, ltb_ℤ}
use caqrs.Orchestrator.Listeners.{returned}
use caqrs.Orchestrator.Events.{CycleEvent, budget_exceeded, budget_exceeded_event}
use caqrs.Orchestrator.EventLog.{Codec, EventLog, append}
use caqrs.Orchestrator.Budget.{
  CycleBudget, BudgetGuard, BudgetStatus, BudgetStatusKind, ok, token_exceeded, init, classify,
  breach_event, emit, emit_if_first_breach, check, consume, status_at,
}
use caqrs.Orchestrator.Budget.Classify.{Call, consuming, checking, after_call, run, call-counts}

-- An event that reports a breach of the budget.
abbrev pub IsBreach : CycleBudget → CycleEvent → Type 0
IsBreach b e = (e.cycle_id ≡ b.cycle_id) × (e.kind ≡ budget_exceeded)

-- From one flag to another the events grow by one report if the flag is raised, and stay otherwise;
-- a raised flag stays.
abbrev pub Progress : CycleBudget → Bool → Bool → List CycleEvent → List CycleEvent → Type 0
Progress b true true old new = new ≡ old
Progress b true false old new = ⊥
Progress b false false old new = new ≡ old
Progress b false true old new = (e : CycleEvent) × IsBreach b e × (new ≡ old ++ e ∷ [])

Progress-refl :
    (b : CycleBudget) (f : Bool) (events : List CycleEvent) → Progress b f f events events
Progress-refl b true events = refl
Progress-refl b false events = refl

Progress-trans :
    (b : CycleBudget) (f g h : Bool) (x y z : List CycleEvent)
    → Progress b f g x y
    → Progress b g h y z
    → Progress b f h x z
Progress-trans b true true true x y z p q = q ∙ p
Progress-trans b true true false x y z p q = q
Progress-trans b true false h x y z p q = absurd p
Progress-trans b false true true x y z p q = (p.0, p.1, q ∙ p.2)
Progress-trans b false true false x y z p q = absurd q
Progress-trans b false false true x y z p q = (q.0, q.1, rw (q.2, p))
Progress-trans b false false false x y z p q = q ∙ p

breach_event-IsBreach :
    (g : BudgetGuard) (status : BudgetStatus) (kind : BudgetStatusKind)
    → IsBreach g.budget (breach_event g status kind)
unfolding breach_event budget_exceeded_event
breach_event-IsBreach g status token_exceeded = (refl, refl)
breach_event-IsBreach g status _ = (refl, refl)

module _ {ℓ} {W : Type ℓ} (codec : Codec) where
  abbrev pub events_of : Option (EventLog W) → List CycleEvent
  events_of none = []
  events_of (some log) = log.events

  -- A breach of either kind, with a log.
  breach-Progress :
      (g : BudgetGuard) (event : CycleEvent) (log : EventLog W) (w : W)
      → IsBreach g.budget event
      → let after =
          if g.exceeded_emitted then (returned tt, g, some log, w) else emit codec g event log w in
        Progress g.budget g.exceeded_emitted after.1.exceeded_emitted log.events (events_of after.2)
  unfolding emit append
  breach-Progress g event log w is_breach = elim (Bool-cases g.exceeded_emitted) [
    | inl old ↦ rw old refl
    | inr new ↦ rw new (event, is_breach, refl)
  ]

  emit-Progress :
      (g : BudgetGuard) (status : BudgetStatus) (kind : BudgetStatusKind)
      (log : Option (EventLog W)) (w : W)
      → Progress g.budget g.exceeded_emitted
          (emit_if_first_breach codec g status kind log w).1.exceeded_emitted
          (events_of log)
          (events_of (emit_if_first_breach codec g status kind log w).2)
  unfolding emit_if_first_breach
  emit-Progress g status ok log w = Progress-refl g.budget g.exceeded_emitted (events_of log)
  emit-Progress g status kind none w = Progress-refl g.budget g.exceeded_emitted []
  emit-Progress g status kind (some log) w =
      breach-Progress g (breach_event g status kind) log w (breach_event-IsBreach g status kind)

  check-Progress :
      (g : BudgetGuard) (now : ℕ) (log : Option (EventLog W)) (w : W)
      → let r = check codec g now log w in
        Progress g.budget g.exceeded_emitted r.1.exceeded_emitted (events_of log) (events_of r.2)
  unfolding check
  check-Progress g now log w = elim (Bool-cases (ltb now g.started_at)) [
    | inl back ↦ rw back (Progress-refl g.budget g.exceeded_emitted (events_of log))
    | inr on ↦ rw on (emit-Progress g (status_at g now) (status_at g now).kind log w)
  ]

  call-Progress :
      (call : Call) (g : BudgetGuard) (log : Option (EventLog W)) (w : W)
      → let r = after_call codec call g log w in
        Progress g.budget g.exceeded_emitted r.0.exceeded_emitted (events_of log) (events_of r.1)
  unfolding consume
  call-Progress (consuming token_in token_out now) g log w =
      elim (Bool-cases (ltb_ℤ token_in (pos 0) || ltb_ℤ token_out (pos 0))) [
        | inl bad ↦ rw bad (Progress-refl g.budget g.exceeded_emitted (events_of log))
        | inr good ↦ rw good (
            check-Progress
              (record g {
                tokens_consumed = g.tokens_consumed + (pos_part token_in + pos_part token_out);
              })
              now log w)
      ]
  call-Progress (checking now) g log w = check-Progress g now log w

  run-Progress :
      (calls : List Call) (g : BudgetGuard) (log : Option (EventLog W)) (w : W)
      → let r = run codec calls g log w in
        Progress g.budget g.exceeded_emitted r.0.exceeded_emitted (events_of log) (events_of r.1)
  run-Progress [] g log w = Progress-refl g.budget g.exceeded_emitted (events_of log)
  run-Progress (call ∷ calls) g log w =
      let (g', log', w') = after_call codec call g log w in
      let kept = (call-counts codec call g log w).1 in
      let later = run-Progress calls g' log' w' in
      Progress-trans g.budget g.exceeded_emitted g'.exceeded_emitted _ (events_of log)
        (events_of log') _ (call-Progress call g log w) (rw kept at later)

  -- A new guard, whatever calls are made of it, whatever the clock reads and whatever the listeners
  -- do: the log grows by one report of a breach of its budget if its flag ends up raised, and by
  -- nothing if not. So there is never a second report.
  pub one_report :
      (budget : CycleBudget) (started : ℕ) (calls : List Call) (log : Option (EventLog W)) (w : W)
      → let r = run codec calls (init budget started) log w in
        Progress budget false r.0.exceeded_emitted (events_of log) (events_of r.1)
  unfolding init
  one_report budget started calls log w = run-Progress calls (init budget started) log w

  -- With a log and a clock that has not gone back, a check whose tokens or time are over their cap
  -- leaves the flag raised: the breach is reported now or has been.
  pub breach_is_reported :
      (g : BudgetGuard) (now : ℕ) (log : EventLog W) (w : W)
      → g.started_at ≤ now
      → (g.budget.token_cap < g.tokens_consumed) ⊎ (g.budget.wallclock_cap < now - g.started_at)
      → (check codec g now (some log) w).1.exceeded_emitted ≡ true
  unfolding check emit_if_first_breach classify append
  breach_is_reported g now log w on over = ground arith
