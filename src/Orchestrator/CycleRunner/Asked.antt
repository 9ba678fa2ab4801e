-- ===== src/Orchestrator/CycleRunner/Asked.antt =====
-- A phase of `run` of cycle_runner.py: the move into it, the call of its agent and what follows.
use caqrs.Prelude.{
  ℕ, String, Text, Option, none, some, Bool, true, false, if◌then◌else◌, ◌≡◌, refl, Reply, returned,
}
use caqrs.Prelude.Effects.{Action, ◌>>=◌, ◌>>◌}
use caqrs.Prelude.Holds.{Holds, and_then-Holds}
use caqrs.Prelude.Decimal.{Decimal}
use caqrs.Orchestrator.StateMachine.{OrchestratorState, is_valid}
use caqrs.Orchestrator.EventLog.{Codec, EventLog}
use caqrs.Orchestrator.CycleRunner.{
  AgentResult, output_of, Agent, CycleArtifacts, CycleResult, RunContext, CycleRunner,
}
use caqrs.Orchestrator.CycleRunner.Quiet.{IsQuiet, Noise, Returns}
use caqrs.Orchestrator.CycleRunner.Moved.{move-Ready}
use caqrs.Orchestrator.CycleRunner.Ready.{Ready}
use caqrs.Orchestrator.CycleRunner.Counted.{Within}
use caqrs.Orchestrator.CycleRunner.Called.{OnOutput, call_agent-Called}
use caqrs.Orchestrator.CycleRunner.Faithful.{is_chained, reached, IsFaithful, IsGated}
use caqrs.Orchestrator.CycleRunner.Ended.{unless_halted-Faithful}
use caqrs.Orchestrator.CycleRunner.Steps.{move, call_agent, unless_halted}

-- Of most outputs nothing is known.
pub OnOutput-anything {ℓ μ} : {O : Type μ} (out : Option O) → OnOutput (λ _. Unit {ℓ}) out
OnOutput-anything none = tt
OnOutput-anything (some o) = tt

pub OnOutput-of {μ ν} :
    {O : Type μ} (P : O → Type ν) (out : Option O) → ((o : O) → out ≡ some o → P o) → OnOutput P out
OnOutput-of P none h = tt
OnOutput-of P (some o) h = h o refl

module _ {ℓ δ κ} {A : Type ℓ} {D : Type δ} {W : Type κ} (codec : Codec) (d : Decimal A)
    (one_decimal : ℕ → Text) (r : CycleRunner A D W) (log₀ : EventLog W) (start : ℕ) where
  abbrev pub At : OrchestratorState → CycleArtifacts A D → RunContext A D W → Type (ℓ ⊔ δ ⊔ κ)
  At p a s = Ready codec d one_decimal r log₀ start (Within r.budget.token_cap) p a s

  abbrev pub Fine : Reply (CycleResult A D) × RunContext A D W → Type (ℓ ⊔ δ ⊔ κ)
  Fine = Holds (Noise d r log₀ start) (IsFaithful d r log₀)

  -- Either of two ways on.
  pub either-Faithful :
      (b : Bool) (k k' : Action (RunContext A D W) (CycleResult A D)) (s : RunContext A D W)
      → (b ≡ true → Fine (k s))
      → (b ≡ false → Fine (k' s))
      → Fine ((if b then k else k') s)
  either-Faithful true k k' s good bad = good refl
  either-Faithful false k k' s good bad = bad refl

  -- An agent's call and what follows it.
  pub asked-Faithful {ι μ} :
      {I : Type ι} {O : Type μ} (P : O → Type (ℓ ⊔ δ ⊔ κ)) (p : OrchestratorState)
      (a : CycleArtifacts A D) (agent : Agent I O W) (name schema : String) (payload : I)
      (rest : O → Action (RunContext A D W) (CycleResult A D)) (s : RunContext A D W)
      → is_chained a ≡ true
      → IsGated d r log₀ a.decision a.feasible_action
      → p ≡ reached a
      → (IsQuiet d r log₀ start → Returns (agent payload))
      → ((w : W) (x : AgentResult O)
          → (agent payload w).0 ≡ returned x
          → OnOutput P (output_of x.output x.error))
      → ((o : O) (s' : RunContext A D W) → P o → At p a s' → Fine (rest o s'))
      → At p a s
      → Fine (
          (call_agent codec one_decimal r agent name schema payload
              >>= unless_halted codec one_decimal r rest)
            s)
  asked-Faithful P p a agent name schema payload rest s chained gated phase returns good next h =
      and_then-Holds _ _ _ (call_agent codec one_decimal r agent name schema payload s) _
        (call_agent-Called codec d one_decimal r log₀ start P p a agent name schema payload s h
          returns good)
        (λ outcome s' called.
          unless_halted-Faithful codec d one_decimal r log₀ start P p a rest outcome s' chained
            gated phase called (λ o good h'. next o s' good h'))

  -- A phase: the move into it, the agent's call and what follows it.
  pub phase-Faithful {ι μ} :
      {I : Type ι} {O : Type μ} (P : O → Type (ℓ ⊔ δ ⊔ κ)) (p₀ p : OrchestratorState)
      (a : CycleArtifacts A D) (agent : Agent I O W) (name schema : String) (payload : I)
      (rest : O → Action (RunContext A D W) (CycleResult A D)) (s : RunContext A D W)
      → is_valid p₀ p ≡ true
      → is_chained a ≡ true
      → IsGated d r log₀ a.decision a.feasible_action
      → p ≡ reached a
      → (IsQuiet d r log₀ start → Returns (agent payload))
      → ((w : W) (x : AgentResult O)
          → (agent payload w).0 ≡ returned x
          → OnOutput P (output_of x.output x.error))
      → ((o : O) (s' : RunContext A D W) → P o → At p a s' → Fine (rest o s'))
      → At p₀ a s
      → Fine (
          (move codec one_decimal r p
              >> (call_agent codec one_decimal r agent name schema payload
                  >>= unless_halted codec one_decimal r rest))
            s)
  phase-Faithful P p₀ p a agent name schema payload rest s valid chained gated phase returns good
        next h =
      and_then-Holds _ _ _ (move codec one_decimal r p s) _
        (move-Ready codec d one_decimal r log₀ start (Within r.budget.token_cap) p₀ p a s valid h)
        (λ _ s' h'.
          asked-Faithful P p a agent name schema payload rest s' chained gated phase returns good
            next h'.0)
