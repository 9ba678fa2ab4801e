-- ===== src/Orchestrator/CycleRunner.antt =====
-- src/caqrs/orchestrator/cycle_runner.py: the data of the runner, and what it is given. A document is
-- an input, an artifact, a card, a plan or a backtest report: the runner hands it on and reads nothing
-- of it. Agents, brokers and the other callables are functions of the caller's on a world of the
-- caller's, and each may raise.
pub mod Steps
pub mod Phases
pub mod Quiet
pub mod Ready
pub mod Moved
pub mod Counted
pub mod Called
pub mod Faithful
pub mod Ended
pub mod Executed
pub mod Settled
pub mod Asked
pub mod Pipeline
pub mod Outcome
mod Tests
use caqrs.Prelude.{ℕ, zero, ◌+◌, String, Text, List, Option, none, some, Reply, returned, raised}
use caqrs.Prelude.Dict.{Dict}
use caqrs.Entities.Resolver.{IdentifierResolution}
use caqrs.Schemas.Decision.{StrategyDecision}
use caqrs.Policy.Gateway.{FeasibleAction, PolicyGatewayConfig}
use caqrs.Execution.Report.{ExecutionReport}
use caqrs.Orchestrator.StateMachine.{OrchestratorState, OrchestratorStateMachine}
use caqrs.Orchestrator.Events.{CycleEvent}
use caqrs.Orchestrator.EventLog.{EventLog}
use caqrs.Orchestrator.Budget.{BudgetGuard, CycleBudget}

pub data SkepticVerdict : Type 0 where
  proceed require_revision kill : SkepticVerdict

pub record SkepticReport {δ} (D : Type δ) : Type δ where
  pub verdict : SkepticVerdict
  pub body : D

pub data AuditVerdict : Type 0 where
  pass fail : AuditVerdict

pub record AuditReport {δ} (D : Type δ) : Type δ where
  pub verdict : AuditVerdict
  pub body : D

-- `AgentResult`, with the counts of its metadata.
pub record AgentResult {μ} (O : Type μ) : Type μ where
  pub output : Option O
  pub error : Option Text
  pub token_in : ℕ
  pub token_out : ℕ
  pub latency_ms : ℕ

-- The output, if `is_ok()`.
abbrev pub output_of {μ} : {O : Type μ} → Option O → Option Text → Option O
output_of output none = output
output_of output (some e) = none

abbrev pub Agent {ι μ κ} : Type ι → Type μ → Type κ → Type (ι ⊔ μ ⊔ κ)
Agent I O W = I → W → Reply (AgentResult O) × W

-- How a call ends that `except Exception` is around: the value, an exception with its text, or one
-- that is no `Exception` and escapes.
pub data Attempt {μ} (X : Type μ) : Type μ where
  did : X → Attempt X
  failed : Text → Attempt X
  escaped : Attempt X

-- `CycleArtifacts`, and `_ArtifactsBuilder`, which has the same slots.
pub record CycleArtifacts {ℓ δ} (A : Type ℓ) (D : Type δ) : Type (ℓ ⊔ δ) where
  pub observer : Option D
  pub hypothesis : Option D
  pub skeptic : Option (SkepticReport D)
  pub research : Option D
  pub backtest : Option D
  pub audit : Option (AuditReport D)
  pub decision : Option (StrategyDecision A)
  pub feasible_action : Option (FeasibleAction A)
  pub execution_report : Option (ExecutionReport A)

abbrev pub no_artifacts {ℓ δ} : {A : Type ℓ} {D : Type δ} → CycleArtifacts A D
no_artifacts = record {
  observer = none;
  hypothesis = none;
  skeptic = none;
  research = none;
  backtest = none;
  audit = none;
  decision = none;
  feasible_action = none;
  execution_report = none;
}

-- `1 if v is not None`
abbrev pub one_if {μ} : {X : Type μ} → Option X → ℕ
one_if none = 0
one_if (some x) = 1

unfoldable pub count {ℓ δ} : {A : Type ℓ} {D : Type δ} → CycleArtifacts A D → ℕ
count a =
    one_if a.observer
    + one_if a.hypothesis
    + one_if a.skeptic
    + one_if a.research
    + one_if a.backtest
    + one_if a.audit
    + one_if a.decision
    + one_if a.feasible_action
    + one_if a.execution_report

pub record CycleResult {ℓ δ} (A : Type ℓ) (D : Type δ) : Type (ℓ ⊔ δ) where
  pub cycle_id : String
  pub terminal_state : OrchestratorState
  pub artifacts : CycleArtifacts A D
  pub aborted_reason : Option Text
  pub total_token_in : ℕ
  pub total_token_out : ℕ

-- `_Halt`; its kind is never read.
pub data AgentOutcome {μ} (O : Type μ) : Type μ where
  halt : Text → AgentOutcome O
  output : O → AgentOutcome O

-- `_RunContext`, with the world of the callables.
pub record RunContext {ℓ δ κ} (A : Type ℓ) (D : Type δ) (W : Type κ) : Type (ℓ ⊔ δ ⊔ κ) where
  pub machine : OrchestratorStateMachine (EventLog W × W)
  pub guard : BudgetGuard
  pub artifacts : CycleArtifacts A D
  pub token_in : ℕ
  pub token_out : ℕ
  pub event_log : EventLog W
  pub world : W

-- `LiveBrokerProtocol`: a broker that is lent the log.
pub record LiveBrokerProtocol {ℓ κ} (A : Type ℓ) (W : Type κ) : Type (ℓ ⊔ κ) where
  pub attach_cycle_context : String → W → Reply (Unit {0}) × W
  pub execute :
      FeasibleAction A → Dict A → EventLog W × W → Reply (ExecutionReport A) × EventLog W × W
  pub detach_cycle_context : W → W

pub data Broker {ℓ κ} (A : Type ℓ) (W : Type κ) : Type (ℓ ⊔ κ) where
  plain : (FeasibleAction A → Dict A → W → Reply (ExecutionReport A) × W) → Broker A W
  live : LiveBrokerProtocol A W → Broker A W

-- What the constructor is given, and `new_run_id`.
pub record CycleRunner {ℓ δ κ} (A : Type ℓ) (D : Type δ) (W : Type κ) : Type (ℓ ⊔ δ ⊔ κ) where
  pub observer : Agent D D W
  pub hypothesis : Agent D D W
  pub skeptic : Agent D (SkepticReport D) W
  pub research : Agent (D × SkepticReport D) D W
  pub auditor : Agent (D × D) (AuditReport D) W
  pub decider : Agent (D × D × AuditReport D) (StrategyDecision A) W
  pub backtest_executor : D → W → Attempt D × W
  pub budget : CycleBudget
  pub clock : W → ℕ × W
  pub new_run_id : W → String × W
  pub cycle_store : Option (CycleResult A D → List CycleEvent → W → Reply (Unit {0}) × W)
  pub policy_gateway_config : Option (PolicyGatewayConfig A)
  pub broker : Option (Broker A W)
  pub price_provider : Option (FeasibleAction A → W → Attempt (Dict A) × W)
  pub entity_resolver : Option (D → W → Reply (List IdentifierResolution) × W)
