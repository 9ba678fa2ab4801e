-- ===== src/Orchestrator/CycleRunner/Steps.antt =====
-- The helpers of cycle_runner.py: `_call_agent`, `_complete`, `_finalize` and what they are made of.
-- The text of a float with one decimal is the parameter `one_decimal`, on microseconds.
use caqrs.Prelude.{
  ℕ, ◌+◌, String, Text, [], ◌∷◌, ◌++◌, Option, none, some, Bool, true, false, codes, Reply,
  returned,
}
use caqrs.Prelude.Effects.{Action, pure, throw, ◌>>=◌, ◌>>◌}
use caqrs.Prelude.Int.{pos}
use caqrs.Orchestrator.StateMachine.{
  OrchestratorState, idle, error, state_value, StateTransition, transition,
}
use caqrs.Orchestrator.Preflight.{number_text}
use caqrs.Orchestrator.Listeners.{Listener}
use caqrs.Orchestrator.Events.{
  CycleEvent, cycle_completed_event, cycle_aborted_event, agent_invoked_event,
  agent_succeeded_event, agent_failed_event, state_transition_event,
}
use caqrs.Orchestrator.EventLog.{Codec, EventLog, append, filter_by_cycle}
use caqrs.Orchestrator.Budget
use caqrs.Orchestrator.Budget.{BudgetStatus, BudgetStatusKind, ok, consume}
use caqrs.Orchestrator.CycleRunner.{
  SkepticVerdict, proceed, AuditVerdict, pass, AgentResult, output_of, Agent, Attempt, did, failed,
  escaped, CycleArtifacts, count, CycleResult, AgentOutcome, halt, output, RunContext, CycleRunner,
}

-- `agent_result.error or "unknown error"`
abbrev pub or_unknown : Option Text → Text
or_unknown none = codes "unknown error"
or_unknown (some []) = codes "unknown error"
or_unknown (some (c ∷ cs)) = c ∷ cs

abbrev pub is_proceed : SkepticVerdict → Bool
is_proceed proceed = true
is_proceed _ = false

abbrev pub is_pass : AuditVerdict → Bool
is_pass pass = true
is_pass _ = false

module _ {ℓ δ κ} {A : Type ℓ} {D : Type δ} {W : Type κ} (codec : Codec) (one_decimal : ℕ → Text)
    (r : CycleRunner A D W) where
  abbrev pub cycle_id : String
  cycle_id = r.budget.cycle_id

  -- A call that only the world takes part in.
  abbrev pub in_world {μ} : {X : Type μ} → (W → Reply X × W) → Action (RunContext A D W) X
  in_world m s = ((m s.world).0, record s { world = (m s.world).1 })

  -- A reading of the world, which does not raise.
  abbrev pub reading {μ} : {X : Type μ} → (W → X × W) → Action (RunContext A D W) X
  reading m s = (returned (m s.world).0, record s { world = (m s.world).1 })

  abbrev pub append_event : CycleEvent → Action (RunContext A D W) (Unit {0})
  append_event event s =
      let (answer, log, world) = append codec s.event_log event s.world in
      (answer, record s { event_log = log; world = world })

  -- `_emit_state_transition`
  abbrev pub emit_state_transition : Listener StateTransition (EventLog W × W)
  emit_state_transition t v =
      let event = state_transition_event cycle_id (state_value t.src) (state_value t.dst) in
      let (answer, log, world) = append codec v.0 event v.1 in (answer, (log, world))

  -- `ctx.machine.transition(target)`; the answer is not read.
  abbrev pub move : OrchestratorState → Action (RunContext A D W) Bool
  move target s =
      let (answer, machine, v) = transition s.machine target (s.event_log, s.world) in
      (answer, record s { machine = machine; event_log = v.0; world = v.1 })

  abbrev pub put_artifacts : CycleArtifacts A D → Action (RunContext A D W) (Unit {0})
  put_artifacts a s = (returned tt, record s { artifacts = a })

  -- `_persist_if_configured`
  unfoldable pub persist_if_configured : CycleResult A D → Action (RunContext A D W) (Unit {0})
  persist_if_configured result s = elim r.cycle_store [
    | none ↦ (returned tt, s)
    | some save ↦ in_world (save result (filter_by_cycle s.event_log cycle_id)) s
  ]

  abbrev pub result_of : OrchestratorState → Option Text → RunContext A D W → CycleResult A D
  result_of terminal aborted_reason s = record {
    cycle_id = cycle_id;
    terminal_state = terminal;
    artifacts = s.artifacts;
    aborted_reason = aborted_reason;
    total_token_in = s.token_in;
    total_token_out = s.token_out;
  }

  -- The result is built, saved and returned.
  unfoldable pub end_cycle :
      OrchestratorState → Option Text → Action (RunContext A D W) (CycleResult A D)
  end_cycle terminal aborted_reason s =
      (do
        persist_if_configured (result_of terminal aborted_reason s)
        pure (result_of terminal aborted_reason s))
        s

  abbrev pub completed_event : OrchestratorState → RunContext A D W → CycleEvent
  completed_event terminal s =
      cycle_completed_event cycle_id (state_value terminal) (count s.artifacts) s.token_in
        s.token_out

  -- `_complete`
  unfoldable pub complete : OrchestratorState → Action (RunContext A D W) (CycleResult A D)
  complete terminal = do
    move idle
    (λ s. append_event (completed_event terminal s) s)
    end_cycle terminal none

  -- `_finalize`
  unfoldable pub finalize : Text → Action (RunContext A D W) (CycleResult A D)
  finalize reason s =
      (do
        move error
        append_event (cycle_aborted_event cycle_id reason (state_value s.machine.state))
        end_cycle error (some reason))
        s

  abbrev pub add_totals : ℕ → ℕ → Action (RunContext A D W) (Unit {0})
  add_totals token_in token_out s = (
    returned tt,
    record s { token_in = s.token_in + token_in; token_out = s.token_out + token_out },
  )

  abbrev pub or_log : Option (EventLog W) → EventLog W → EventLog W
  or_log none log = log
  or_log (some log') log = log'

  -- `ctx.guard.consume(…)`, at the clock's reading `now`.
  abbrev pub consume_at : ℕ → ℕ → ℕ → Action (RunContext A D W) BudgetStatus
  consume_at token_in token_out now s =
      let (answer, guard, log, world) =
        consume codec s.guard (pos token_in) (pos token_out) now (some s.event_log) s.world in
      (answer, record s { guard = guard; event_log = or_log log s.event_log; world = world })

  abbrev pub budget_reason : BudgetStatus → Text
  budget_reason status =
      codes "budget "
      ++ (codes (Budget.kind_value status.kind)
          ++ (codes ": tokens="
              ++ (number_text status.tokens_consumed
                  ++ (codes ", elapsed=" ++ (one_decimal status.elapsed ++ codes "s")))))

  abbrev pub outcome_of {μ} : {O : Type μ} → O → BudgetStatus → BudgetStatusKind → AgentOutcome O
  outcome_of o status ok = output o
  outcome_of o status _ = halt (budget_reason status)

  -- The rest of `_call_agent`, once the agent has answered.
  unfoldable pub agent_ended {μ} :
      {O : Type μ}
      → String
      → String
      → String
      → AgentResult O
      → Option O
      → Action (RunContext A D W) (AgentOutcome O)
  agent_ended name schema run_id result none = do
    append_event (agent_failed_event cycle_id name run_id (or_unknown result.error))
    pure (halt (codes name ++ (codes ": " ++ or_unknown result.error)))
  agent_ended name schema run_id result (some o) = do
    append_event (
        agent_succeeded_event cycle_id name run_id schema result.token_in result.token_out
          result.latency_ms)
    add_totals result.token_in result.token_out
    now ← reading r.clock
    status ← consume_at result.token_in result.token_out now
    pure (outcome_of o status status.kind)

  -- `_call_agent`; `schema` is the name of the output's class.
  unfoldable pub call_agent {ι μ} :
      {I : Type ι} {O : Type μ}
      → Agent I O W
      → String
      → String
      → I
      → Action (RunContext A D W) (AgentOutcome O)
  call_agent agent name schema payload = do
    run_id ← reading r.new_run_id
    append_event (agent_invoked_event cycle_id name run_id)
    result ← in_world (agent payload)
    agent_ended name schema run_id result (output_of result.output result.error)

  -- `if isinstance(outcome, _Halt): return self._finalize(…)`
  abbrev pub unless_halted {μ} :
      {O : Type μ}
      → (O → Action (RunContext A D W) (CycleResult A D))
      → AgentOutcome O
      → Action (RunContext A D W) (CycleResult A D)
  unless_halted rest (halt reason) = finalize reason
  unless_halted rest (output o) = rest o

  -- `try: … except Exception as exc: return self._finalize(…)`
  abbrev pub unless_failed {μ} :
      {X : Type μ}
      → Text
      → (X → Action (RunContext A D W) (CycleResult A D))
      → Attempt X
      → Action (RunContext A D W) (CycleResult A D)
  unless_failed what rest (did x) = rest x
  unless_failed what rest (failed text) = finalize (what ++ text)
  unless_failed what rest escaped = throw
