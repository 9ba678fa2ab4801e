-- ===== src/Orchestrator/CycleRunner/Counted.antt =====
-- The count of an agent's tokens by the guard of budget.py, as `_call_agent` of cycle_runner.py asks
-- for it.
use caqrs.Prelude.{
  ℕ, ◌+◌, ◌-◌, ◌≤◌, Text, Option, some, true, false, ltb, Bool-cases, ◌≡◌, refl, sym, subst, ◌∙◌,
  inl, inr, arith, Reply, returned, raised,
}
use caqrs.Prelude.Int.{pos}
use caqrs.Prelude.Holds.{Holds, Holds-cases, Holds-raised}
use caqrs.Prelude.Decimal.{Decimal}
use caqrs.Orchestrator.StateMachine.{OrchestratorState}
use caqrs.Orchestrator.EventLog.{Codec, EventLog}
use caqrs.Orchestrator.Budget.{
  BudgetGuard, BudgetStatus, BudgetStatusKind, ok, status_at, classify, emit_if_first_breach, check,
  consume,
}
use caqrs.Orchestrator.CycleRunner.{CycleArtifacts, RunContext, CycleRunner}
use caqrs.Orchestrator.CycleRunner.Quiet.{IsGrown, IsQuiet, Noise}
use caqrs.Orchestrator.CycleRunner.Ready.{Ready, Ready-fits, append-IsGrown, append-quiet}
use caqrs.Orchestrator.CycleRunner.Steps.{consume_at, or_log}

-- The guard is within its cap of tokens; nothing is said of the guard.
abbrev pub Within : ℕ → BudgetGuard → Type 0
Within cap g = g.tokens_consumed ≤ cap

abbrev pub Any : BudgetGuard → Type 0
Any g = Unit

ltb_zero : (n : ℕ) → ltb (n + 0) 0 ≡ false
ltb_zero n = ground arith

-- The counters of a guard.
abbrev pub counted : BudgetGuard → ℕ → BudgetGuard
counted g n = record g { tokens_consumed = g.tokens_consumed + n }

module _ {ℓ δ κ} {A : Type ℓ} {D : Type δ} {W : Type κ} (codec : Codec) (d : Decimal A)
    (one_decimal : ℕ → Text) (r : CycleRunner A D W) (log₀ : EventLog W) (start : ℕ) where
  emitted-IsGrown :
      (g : BudgetGuard) (status : BudgetStatus) (kind : BudgetStatusKind) (log : EventLog W) (w : W)
      → IsGrown log₀ log
      → IsGrown log₀
          (or_log codec one_decimal r (emit_if_first_breach codec g status kind (some log) w).2 log)
  unfolding emit_if_first_breach
  emitted-IsGrown g status ok log w h = h
  emitted-IsGrown g status kind log w h = elim (Bool-cases g.exceeded_emitted) [
    | inl e ↦ rw e h
    | inr e ↦ rw e (append-IsGrown codec d one_decimal r log₀ start log _ w h)
  ]

  emitted-guard :
      (g : BudgetGuard) (status : BudgetStatus) (kind : BudgetStatusKind) (log : EventLog W) (w : W)
      → let after = (emit_if_first_breach codec g status kind (some log) w).1 in
        (after.tokens_consumed ≡ g.tokens_consumed)
        × (after.budget ≡ g.budget)
        × (after.started_at ≡ g.started_at)
  unfolding emit_if_first_breach
  emitted-guard g status kind log w = (ground arith, ground arith, ground arith)

  emitted-quiet :
      (g : BudgetGuard) (status : BudgetStatus) (kind : BudgetStatusKind) (log : EventLog W) (w : W)
      → IsGrown log₀ log
      → IsQuiet d r log₀ start
      → (emit_if_first_breach codec g status kind (some log) w).0 ≡ returned tt
  unfolding emit_if_first_breach
  emitted-quiet g status ok log w h q = refl
  emitted-quiet g status kind log w h q = elim (Bool-cases g.exceeded_emitted) [
    | inl e ↦ rw e refl
    | inr e ↦ rw e (append-quiet codec d one_decimal r log₀ start log _ w h q)
  ]

  -- What `consume` does for counts that are not negative: it raises if the clock went back, and else
  -- it hands back the status, once a first breach is emitted.
  consume-late :
      (g : BudgetGuard) (token_in token_out now : ℕ) (log : EventLog W) (w : W)
      → ltb now g.started_at ≡ false
      → consume codec g (pos token_in) (pos token_out) now (some log) w ≡ (
          let g' = counted g (token_in + token_out) in
          let status = status_at g' now in
          let done = emit_if_first_breach codec g' status status.kind (some log) w in
          (
            (elim done.0 [ returned _ ↦ returned status | raised ↦ raised ]),
            done.1,
            done.2,
            done.3,
          ))
  unfolding consume check
  consume-late g token_in token_out now log w late =
      rw (ltb_zero token_in, ltb_zero token_out, late) refl

  consume-early :
      (g : BudgetGuard) (token_in token_out now : ℕ) (log : EventLog W) (w : W)
      → ltb now g.started_at ≡ true
      → (consume codec g (pos token_in) (pos token_out) now (some log) w).0 ≡ raised
  unfolding consume check
  consume-early g token_in token_out now log w early =
      rw (ltb_zero token_in, ltb_zero token_out, early) refl

  answered :
      (x : Reply (Unit {0})) (status status' : BudgetStatus)
      → (elim x [ returned _ ↦ returned status | raised ↦ raised ]) ≡ returned status'
      → status.kind ≡ status'.kind
  answered (returned _) status status' e = ground (arith, e)
  answered raised status status' e = ground (arith, e)

  classify-Within :
      (g : BudgetGuard) (elapsed : ℕ) → classify g elapsed ≡ ok → Within g.budget.token_cap g
  unfolding classify
  classify-Within g elapsed e = ground (arith, e)

  -- What the context becomes of a call of the guard.
  abbrev after_guard :
      RunContext A D W
      → ℕ
      → ℕ
      → Reply BudgetStatus × BudgetGuard × Option (EventLog W) × W
      → Reply BudgetStatus × RunContext A D W
  after_guard s token_in token_out x = (
    x.0,
    record s {
      token_in = s.token_in + token_in;
      token_out = s.token_out + token_out;
      guard = x.1;
      event_log = or_log codec one_decimal r x.2 s.event_log;
      world = x.3;
    },
  )

  abbrev pub Consumed :
      OrchestratorState → CycleArtifacts A D → BudgetStatus → RunContext A D W → Type (ℓ ⊔ δ ⊔ κ)
  Consumed p a status s =
      Ready codec d one_decimal r log₀ start Any p a s
      × (status.kind ≡ ok
          → Ready codec d one_decimal r log₀ start (Within r.budget.token_cap) p a s)

  -- The guard counts, the log grows, and a status that is fine means that the tokens are within.
  pub consume_at-Consumed :
      (p : OrchestratorState) (a : CycleArtifacts A D) (s : RunContext A D W)
      (token_in token_out now : ℕ)
      → Ready codec d one_decimal r log₀ start Any p a s
      → (IsQuiet d r log₀ start → start ≤ now)
      → Holds (Noise d r log₀ start) (Consumed p a) (
          consume_at codec one_decimal r token_in token_out now
            (record s { token_in = s.token_in + token_in; token_out = s.token_out + token_out }))
  consume_at-Consumed p a s token_in token_out now h clock =
      let g' = counted s.guard (token_in + token_out) in
      let status = status_at g' now in
      let done = emit_if_first_breach codec g' status status.kind (some s.event_log) s.world in
      let guarded = emitted-guard g' status status.kind s.event_log s.world in
      let after = (after_guard s token_in token_out (raised, done.1, done.2, done.3)).1 in
      let ready : Ready codec d one_decimal r log₀ start Any p a after = record {
        machine = h.machine;
        artifacts = h.artifacts;
        budget = guarded.1 ∙ h.budget;
        started = guarded.2 ∙ h.started;
        totals = ground (arith, guarded, h.totals);
        fits = tt;
        log = emitted-IsGrown g' status status.kind s.event_log s.world h.log;
      } in
      elim (Bool-cases (ltb now s.guard.started_at)) [
        | inl early ↦
            Holds-raised _ _
              (after_guard s token_in token_out (
                consume codec s.guard (pos token_in) (pos token_out) now (some s.event_log)
                  s.world))
              (consume-early s.guard token_in token_out now s.event_log s.world early)
              (λ q. ground (arith, clock q, early, h.started))
        | inr late ↦
            subst
              (λ x.
                Holds (Noise d r log₀ start) (Consumed p a) (after_guard s token_in token_out x))
              (sym (consume-late s.guard token_in token_out now s.event_log s.world late))
              (Holds-cases _ _ (elim done.0 [ returned _ ↦ returned status | raised ↦ raised ])
                after
                (λ status' e. (
                  ready,
                  λ fine.
                      Ready-fits codec d one_decimal r log₀ start Any (Within r.budget.token_cap) p
                        a after ready
                        (ground (
                          arith,
                          guarded,
                          h.budget,
                          classify-Within g' (now - s.guard.started_at)
                              (answered done.0 status status' e ∙ fine),
                        )),
                ))
                (λ e q.
                  ground
                    (arith, emitted-quiet g' status status.kind s.event_log s.world h.log q, e)))
      ]
