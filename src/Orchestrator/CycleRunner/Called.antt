-- ===== src/Orchestrator/CycleRunner/Called.antt =====
-- What `_call_agent` of cycle_runner.py hands back, and the context that it leaves.
use caqrs.Prelude.{ℕ, String, Text, Option, none, some, ◌≡◌, refl, returned}
use caqrs.Prelude.Holds.{Holds, Holds-cases, and_then-Holds}
use caqrs.Prelude.Decimal.{Decimal}
use caqrs.Orchestrator.StateMachine.{OrchestratorState}
use caqrs.Orchestrator.EventLog.{Codec, EventLog}
use caqrs.Orchestrator.Budget.{
  BudgetStatus, BudgetStatusKind, ok, token_exceeded, wallclock_exceeded,
}
use caqrs.Orchestrator.CycleRunner.{
  AgentResult, output_of, Agent, CycleArtifacts, AgentOutcome, halt, output, RunContext,
  CycleRunner,
}
use caqrs.Orchestrator.CycleRunner.Quiet.{IsQuiet, Noise, Returns}
use caqrs.Orchestrator.CycleRunner.Ready.{Ready, Ready-world, Ready-fits, append_event-Ready}
use caqrs.Orchestrator.CycleRunner.Counted.{Within, Any, consume_at-Consumed}
use caqrs.Orchestrator.CycleRunner.Steps.{
  in_world, append_event, consume_at, outcome_of, agent_ended, call_agent,
}

-- `P` of an output that there is.
abbrev pub OnOutput {μ ν} : {O : Type μ} → (O → Type ν) → Option O → Type ν
OnOutput P none = Unit
OnOutput P (some o) = P o

module _ {ℓ δ κ} {A : Type ℓ} {D : Type δ} {W : Type κ} (codec : Codec) (d : Decimal A)
    (one_decimal : ℕ → Text) (r : CycleRunner A D W) (log₀ : EventLog W) (start : ℕ) where
  -- An output comes within the cap of tokens, with what is known of the agent's outputs.
  abbrev pub Called {μ} :
      {O : Type μ}
      → (O → Type (ℓ ⊔ δ ⊔ κ))
      → OrchestratorState
      → CycleArtifacts A D
      → AgentOutcome O
      → RunContext A D W
      → Type (ℓ ⊔ δ ⊔ κ)
  Called P p a (halt reason) s = Ready codec d one_decimal r log₀ start Any p a s
  Called P p a (output o) s =
      Ready codec d one_decimal r log₀ start (Within r.budget.token_cap) p a s × P o

  outcome_of-Called {μ} :
      {O : Type μ} (P : O → Type (ℓ ⊔ δ ⊔ κ)) (p : OrchestratorState) (a : CycleArtifacts A D)
      (o : O) (status : BudgetStatus) (kind : BudgetStatusKind) (s : RunContext A D W)
      → Ready codec d one_decimal r log₀ start Any p a s
      → (kind ≡ ok → Ready codec d one_decimal r log₀ start (Within r.budget.token_cap) p a s)
      → P o
      → Called P p a (outcome_of codec one_decimal r o status kind) s
  outcome_of-Called P p a o status ok s h fine good = (fine refl, good)
  outcome_of-Called P p a o status token_exceeded s h fine good = h
  outcome_of-Called P p a o status wallclock_exceeded s h fine good = h

  agent_ended-Called {μ} :
      {O : Type μ} (P : O → Type (ℓ ⊔ δ ⊔ κ)) (p : OrchestratorState) (a : CycleArtifacts A D)
      (name schema run_id : String) (result : AgentResult O) (out : Option O) (s : RunContext A D W)
      → Ready codec d one_decimal r log₀ start (Within r.budget.token_cap) p a s
      → OnOutput P out
      → Holds
          (Noise d r log₀ start)
          (Called P p a)
          (agent_ended codec one_decimal r name schema run_id result out s)
  unfolding agent_ended
  agent_ended-Called P p a name schema run_id result none s h good =
      and_then-Holds _ _ _ (append_event codec one_decimal r _ s) _
        (append_event-Ready codec d one_decimal r log₀ start (Within r.budget.token_cap) p a _ s h)
        (λ _ s' h'.
          Ready-fits codec d one_decimal r log₀ start (Within r.budget.token_cap) Any p a s' h' tt)
  agent_ended-Called P p a name schema run_id result (some o) s h good =
      and_then-Holds _ _ _ (append_event codec one_decimal r _ s) _
        (append_event-Ready codec d one_decimal r log₀ start (Within r.budget.token_cap) p a _ s h)
        (λ _ s' h'.
          let timed : RunContext A D W = record s' { world = (r.clock s'.world).1 } in
          and_then-Holds _ _ _
            (consume_at codec one_decimal r result.token_in result.token_out (r.clock s'.world).0 _)
            _
            (consume_at-Consumed codec d one_decimal r log₀ start p a timed result.token_in
              result.token_out (r.clock s'.world).0
              (Ready-fits codec d one_decimal r log₀ start (Within r.budget.token_cap) Any p a timed
                (Ready-world codec d one_decimal r log₀ start (Within r.budget.token_cap) p a s' _
                  h')
                tt)
              (λ q. q.clock s'.world))
            (λ status s'' h''. outcome_of-Called P p a o status status.kind s'' h''.0 h''.1 good))

  pub call_agent-Called {ι μ} :
      {I : Type ι} {O : Type μ} (P : O → Type (ℓ ⊔ δ ⊔ κ)) (p : OrchestratorState)
      (a : CycleArtifacts A D) (agent : Agent I O W) (name schema : String) (payload : I)
      (s : RunContext A D W)
      → Ready codec d one_decimal r log₀ start (Within r.budget.token_cap) p a s
      → (IsQuiet d r log₀ start → Returns (agent payload))
      → ((w : W) (x : AgentResult O)
          → (agent payload w).0 ≡ returned x
          → OnOutput P (output_of x.output x.error))
      → Holds
          (Noise d r log₀ start)
          (Called P p a)
          (call_agent codec one_decimal r agent name schema payload s)
  unfolding call_agent
  call_agent-Called P p a agent name schema payload s h returns good =
      let drawn : RunContext A D W = record s { world = (r.new_run_id s.world).1 } in
      and_then-Holds _ _ _ (append_event codec one_decimal r _ drawn) _
        (append_event-Ready codec d one_decimal r log₀ start (Within r.budget.token_cap) p a _ drawn
          (Ready-world codec d one_decimal r log₀ start (Within r.budget.token_cap) p a s _ h))
        (λ _ s' h'.
          and_then-Holds _
            (λ (x : AgentResult _) s''.
              Ready codec d one_decimal r log₀ start (Within r.budget.token_cap) p a s''
              × OnOutput P (output_of x.output x.error))
            _ (in_world codec one_decimal r (agent payload) s') _
            (Holds-cases _ _ (agent payload s'.world).0
              (record s' { world = (agent payload s'.world).1 })
              (λ x e. (
                Ready-world codec d one_decimal r log₀ start (Within r.budget.token_cap) p a s' _
                    h',
                good s'.world x e,
              ))
              (λ e q. returns q s'.world e))
            (λ x s'' h''.
              agent_ended-Called P p a name schema _ x (output_of x.output x.error) s'' h''.0
                h''.1))
