-- ===== src/Orchestrator/Events.antt =====
-- src/caqrs/orchestrator/events.py: the kinds of event, the event record, and the builders that fix
-- the key set of each payload. `event_id` and `timestamp` come from `secrets` and from the clock and
-- nothing reads them, so an event is what its builder is given.
use caqrs.Prelude.{ℕ, Bool, String, Text, List, [], ◌∷◌, Option, none, some, ◌==◌}

pub data CycleEventKind : Type 0 where
  cycle_started cycle_completed cycle_aborted agent_invoked agent_succeeded agent_failed
        state_transition loop_detected budget_exceeded policy_gateway_applied broker_executed
        broker_live_submitted broker_live_filled broker_live_rejected broker_live_cancelled
        broker_live_kill_switch identifier_resolved :
      CycleEventKind

-- The position in the enum; `kind is kind'` compares it.
abbrev pub kind_index : CycleEventKind → ℕ
kind_index cycle_started = 0
kind_index cycle_completed = 1
kind_index cycle_aborted = 2
kind_index agent_invoked = 3
kind_index agent_succeeded = 4
kind_index agent_failed = 5
kind_index state_transition = 6
kind_index loop_detected = 7
kind_index budget_exceeded = 8
kind_index policy_gateway_applied = 9
kind_index broker_executed = 10
kind_index broker_live_submitted = 11
kind_index broker_live_filled = 12
kind_index broker_live_rejected = 13
kind_index broker_live_cancelled = 14
kind_index broker_live_kill_switch = 15
kind_index identifier_resolved = 16

abbrev pub kind_eq : CycleEventKind → CycleEventKind → Bool
kind_eq a b = kind_index a == kind_index b

-- The values that the builders put into a payload; `chars` is a text that the program put together.
pub data Value : Type 0 where
  text : String → Value
  chars : Text → Value
  number : ℕ → Value
  flag : Bool → Value
  null : Value

-- `str | None`
abbrev pub optional_text : Option String → Value
optional_text none = null
optional_text (some s) = text s

abbrev pub optional_chars : Option Text → Value
optional_chars none = null
optional_chars (some s) = chars s

abbrev pub Payload : Type 0
Payload = List (String × Value)

pub record CycleEvent : Type 0 where
  pub cycle_id : String
  pub kind : CycleEventKind
  pub payload : Payload

abbrev pub build_event : String → CycleEventKind → Payload → CycleEvent
build_event cycle_id kind payload = record { cycle_id = cycle_id; kind = kind; payload = payload }

-- A key that is present only when there is a value for it.
abbrev if_given : String → Option String → Payload
if_given key none = []
if_given key (some s) = (key, text s) ∷ []

unfoldable pub cycle_started_event : String → Option String → CycleEvent
cycle_started_event cycle_id observer_input_run_id =
    build_event cycle_id cycle_started (if_given "observer_input_run_id" observer_input_run_id)

unfoldable pub cycle_completed_event : String → String → ℕ → ℕ → ℕ → CycleEvent
cycle_completed_event cycle_id terminal_state artifacts_emitted total_token_in total_token_out =
    build_event cycle_id cycle_completed (
      ("terminal_state", text terminal_state)
      ∷ ("artifacts_emitted", number artifacts_emitted)
      ∷ ("total_token_in", number total_token_in)
      ∷ ("total_token_out", number total_token_out)
      ∷ [])

unfoldable pub cycle_aborted_event : String → Text → String → CycleEvent
cycle_aborted_event cycle_id reason at_state =
    build_event cycle_id cycle_aborted (("reason", chars reason) ∷ ("at_state", text at_state) ∷ [])

unfoldable pub agent_invoked_event : String → String → String → CycleEvent
agent_invoked_event cycle_id agent_name run_id =
    build_event cycle_id agent_invoked
      (("agent_name", text agent_name) ∷ ("run_id", text run_id) ∷ [])

unfoldable pub agent_succeeded_event : String → String → String → String → ℕ → ℕ → ℕ → CycleEvent
agent_succeeded_event cycle_id agent_name run_id output_schema token_in token_out latency_ms =
    build_event cycle_id agent_succeeded (
      ("agent_name", text agent_name)
      ∷ ("run_id", text run_id)
      ∷ ("output_schema", text output_schema)
      ∷ ("token_in", number token_in)
      ∷ ("token_out", number token_out)
      ∷ ("latency_ms", number latency_ms)
      ∷ [])

unfoldable pub agent_failed_event : String → String → String → Text → CycleEvent
agent_failed_event cycle_id agent_name run_id error =
    build_event cycle_id agent_failed
      (("agent_name", text agent_name) ∷ ("run_id", text run_id) ∷ ("error", chars error) ∷ [])

unfoldable pub state_transition_event : String → String → String → CycleEvent
state_transition_event cycle_id src dst =
    build_event cycle_id state_transition (("src", text src) ∷ ("dst", text dst) ∷ [])

unfoldable pub budget_exceeded_event : String → String → ℕ → ℕ → CycleEvent
budget_exceeded_event cycle_id budget_kind consumed cap =
    build_event cycle_id budget_exceeded
      (("budget_kind", text budget_kind) ∷ ("consumed", number consumed) ∷ ("cap", number cap) ∷ [])

unfoldable pub policy_gateway_applied_event : String → String → String → ℕ → CycleEvent
policy_gateway_applied_event cycle_id decision_run_id action violation_count =
    build_event cycle_id policy_gateway_applied (
      ("decision_run_id", text decision_run_id)
      ∷ ("action", text action)
      ∷ ("violation_count", number violation_count)
      ∷ [])

unfoldable pub broker_executed_event : String → String → String → ℕ → Option Text → CycleEvent
broker_executed_event cycle_id decision_run_id status fill_count reason =
    build_event cycle_id broker_executed (
      ("decision_run_id", text decision_run_id)
      ∷ ("status", text status)
      ∷ ("fill_count", number fill_count)
      ∷ ("reason", optional_chars reason)
      ∷ [])

unfoldable pub identifier_resolved_event :
    String → String → Option String → Option String → CycleEvent
identifier_resolved_event cycle_id input_ticker canonical_issuer_id matched_kind =
    build_event cycle_id identifier_resolved (
      ("input_ticker", text input_ticker)
      ∷ ("canonical_issuer_id", optional_text canonical_issuer_id)
      ∷ ("matched_kind", optional_text matched_kind)
      ∷ [])

unfoldable pub loop_detected_event : String → String → String → ℕ → String → CycleEvent
loop_detected_event cycle_id rule tool count message = build_event cycle_id loop_detected (
    ("rule", text rule)
    ∷ ("tool", text tool)
    ∷ ("count", number count)
    ∷ ("message", text message)
    ∷ [])

unfoldable pub broker_live_submitted_event :
    String → String → String → String → String → String → String → String → CycleEvent
broker_live_submitted_event cycle_id decision_run_id order_id client_order_id key symbol qty side =
    build_event cycle_id broker_live_submitted (
      ("decision_run_id", text decision_run_id)
      ∷ ("order_id", text order_id)
      ∷ ("client_order_id", text client_order_id)
      ∷ ("idempotency_key", text key)
      ∷ ("symbol", text symbol)
      ∷ ("qty", text qty)
      ∷ ("side", text side)
      ∷ [])

unfoldable pub broker_live_rejected_event : String → String → Text → Option String → CycleEvent
broker_live_rejected_event cycle_id decision_run_id reason idempotency_key =
    build_event cycle_id broker_live_rejected (
      ("decision_run_id", text decision_run_id)
      ∷ ("reason", chars reason)
      ∷ if_given "idempotency_key" idempotency_key)

unfoldable pub broker_live_filled_event :
    String → String → String → String → String → String → String → String → Bool → CycleEvent
broker_live_filled_event cycle_id decision_run_id order_id client_order_id symbol side qty price
      is_partial =
    build_event cycle_id broker_live_filled (
      ("decision_run_id", text decision_run_id)
      ∷ ("order_id", text order_id)
      ∷ ("client_order_id", text client_order_id)
      ∷ ("symbol", text symbol)
      ∷ ("side", text side)
      ∷ ("filled_qty", text qty)
      ∷ ("filled_avg_price_usd", text price)
      ∷ ("is_partial", flag is_partial)
      ∷ [])

unfoldable pub broker_live_cancelled_event :
    String → String → String → String → String → String → Option String → CycleEvent
broker_live_cancelled_event cycle_id decision_run_id order_id client_order_id symbol side reason =
    build_event cycle_id broker_live_cancelled (
      ("decision_run_id", text decision_run_id)
      ∷ ("order_id", text order_id)
      ∷ ("client_order_id", text client_order_id)
      ∷ ("symbol", text symbol)
      ∷ ("side", text side)
      ∷ if_given "reason" reason)

unfoldable pub broker_live_kill_switch_event : String → String → CycleEvent
broker_live_kill_switch_event cycle_id reason =
    build_event cycle_id broker_live_kill_switch (("reason", text reason) ∷ [])
