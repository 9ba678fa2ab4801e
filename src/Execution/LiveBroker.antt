-- ===== src/Execution/LiveBroker.antt =====
-- src/caqrs/execution/live_broker_alpaca.py: the live broker. The log is the one that the runner
-- shares; a flag says whether it is attached. The venue's HTTP library is the parameter `http`;
-- `json.dumps` and `hashlib.sha256` are the parameter `digest`.
pub mod Submit
pub mod Loss
pub mod Books
pub mod Silence
pub mod Recording
pub mod Refusal
pub mod Rollback
pub mod Submitted
pub mod Keeping
pub mod Appends
pub mod Protocol
mod Tests
use caqrs.Prelude.{
  ℕ, Bool, true, false, not, String, Text, List, [], ◌∷◌, ◌++◌, Option, none, some, ◌||◌, ◌&&◌,
  ◌==◌, codes, str_eq, Reply, returned, raised, if◌then◌else◌,
}
use caqrs.Prelude.Effects.{Action, pure, throw, ◌>>=◌, ◌>>◌}
use caqrs.Prelude.Decimal.{Decimal, lt_dec}
use caqrs.Policy.Gateway.{FeasibleAction}
use caqrs.Execution.Report.{ExecutionReport, ExecutionStatus, make_report}
use caqrs.Execution.PaperBroker.{PaperBroker}
use caqrs.Execution.Journal.{LiveBrokerJournal}
use caqrs.Orchestrator.Events.{
  CycleEvent, broker_live_rejected_event, broker_live_kill_switch_event,
}
use caqrs.Orchestrator.EventLog.{Codec, EventLog, append}

pub record LiveBrokerAlpaca {ℓ} (A : Type ℓ) : Type ℓ where
  pub paper_broker : PaperBroker A
  pub has_client : Bool
  pub journal : Option LiveBrokerJournal
  pub cycle_id : Option String
  pub has_event_log : Bool
  pub enable_live_orders : Bool
  pub live_broker_daily_loss_cap_usd : A
  pub realized_loss_today_usd : A
  pub kill_switch_engaged : Bool

-- What a method changes: the broker, the shared log, and the world of the venue and the listeners.
pub record Live {ℓ κ} (A : Type ℓ) (W : Type κ) : Type (ℓ ⊔ κ) where
  pub broker : LiveBrokerAlpaca A
  pub log : EventLog W
  pub world : W

abbrev is_some : Option String → Bool
is_some none = false
is_some (some s) = true

-- `s.startswith(prefix)`
unfoldable pub starts_with : Text → Text → Bool
starts_with [] s = true
starts_with (c ∷ prefix) [] = false
starts_with (c ∷ prefix) (x ∷ s) = c == x && starts_with prefix s

module _ {ℓ} {A : Type ℓ} (d : Decimal A) where
  abbrev pub new_broker :
      PaperBroker A → A → Bool → Option LiveBrokerJournal → Bool → LiveBrokerAlpaca A
  new_broker paper_broker cap has_client journal force_enable = record {
    paper_broker = paper_broker;
    has_client = has_client;
    journal = journal;
    cycle_id = none;
    has_event_log = false;
    enable_live_orders = force_enable;
    live_broker_daily_loss_cap_usd = cap;
    realized_loss_today_usd = d.zero;
    kill_switch_engaged = false;
  }

  -- `__init__`; the last argument is `_force_enable_live_orders_for_test`.
  unfoldable pub init :
      PaperBroker A → A → Bool → Option LiveBrokerJournal → Bool → Reply (LiveBrokerAlpaca A)
  init paper_broker cap has_client journal force_enable =
      if d.leb cap d.zero
      then raised
      else returned (new_broker paper_broker cap has_client journal force_enable)

  unfoldable pub attach_cycle_context :
      String → LiveBrokerAlpaca A → Reply (Unit {0}) × LiveBrokerAlpaca A
  attach_cycle_context cycle_id b =
      if is_some b.cycle_id || b.has_event_log
      then (raised, b)
      else (returned tt, record b { cycle_id = some cycle_id; has_event_log = true })

  unfoldable pub detach_cycle_context : LiveBrokerAlpaca A → LiveBrokerAlpaca A
  detach_cycle_context b = record b { cycle_id = none; has_event_log = false }

  -- `environ` is `os.environ.get(…, "")`.
  unfoldable pub enable_live_orders_after_human_approval :
      (String → String)
      → String
      → String
      → LiveBrokerAlpaca A
      → Reply (Unit {0}) × LiveBrokerAlpaca A
  enable_live_orders_after_human_approval environ env_token cli_confirmation_token b =
      if not (starts_with (codes "LIVE_BROKER_") (codes env_token))
      then (raised, b)
      else if str_eq (environ env_token) ""
      then (raised, b)
      else if not (str_eq cli_confirmation_token (environ env_token))
      then (raised, b)
      else (returned tt, record b { enable_live_orders = true })

  unfoldable pub reenable_after_human_approval : LiveBrokerAlpaca A → LiveBrokerAlpaca A
  reenable_after_human_approval b = record b { kill_switch_engaged = false }

  unfoldable pub reset_day : LiveBrokerAlpaca A → LiveBrokerAlpaca A
  reset_day b = record b { realized_loss_today_usd = d.zero }

module _ {ℓ κ} {A : Type ℓ} {W : Type κ} where
  abbrev pub engage : Live A W → Live A W
  engage s = record s { broker = record s.broker { kill_switch_engaged = true } }

  abbrev pub add_loss : A → Live A W → Live A W
  add_loss total s = record s { broker = record s.broker { realized_loss_today_usd = total } }

module _ {ℓ κ} {A : Type ℓ} {W : Type κ} (codec : Codec) where
  -- The emission that `_emit_rejected`, `_emit_submitted` and `_emit_kill_switch` share: without a
  -- cycle and a log there is none.
  unfoldable pub emit : (String → CycleEvent) → Action (Live A W) (Unit {0})
  emit event s = elim s.broker.cycle_id [
    | none ↦ (returned tt, s)
    | some cycle_id ↦
        let (answer, log, world) = append codec s.log (event cycle_id) s.world in
        if s.broker.has_event_log
        then (answer, record s { log = log; world = world })
        else (returned tt, s)
  ]

  unfoldable pub emit_rejected : String → Text → Action (Live A W) (Unit {0})
  emit_rejected decision_run_id reason =
      emit (λ cycle_id. broker_live_rejected_event cycle_id decision_run_id reason none)

  unfoldable pub emit_kill_switch : String → Action (Live A W) (Unit {0})
  emit_kill_switch reason = emit (λ cycle_id. broker_live_kill_switch_event cycle_id reason)

  unfoldable pub kill_switch : Action (Live A W) (Unit {0})
  kill_switch s = emit_kill_switch "manual" (engage s)

  unfoldable pub record_realized_loss : Decimal A → A → Action (Live A W) (Unit {0})
  record_realized_loss d amount_usd s =
      let total = d.add s.broker.realized_loss_today_usd amount_usd in
      let after = add_loss total s in
      if lt_dec d amount_usd d.zero
      then (raised, s)
      else if lt_dec d s.broker.live_broker_daily_loss_cap_usd total
          && not s.broker.kill_switch_engaged
      then emit_kill_switch "cap_breach" (engage after)
      else (returned tt, after)

  -- The ends of `execute` and `_submit_to_alpaca` without fills: the event, then the report.
  unfoldable pub end_with :
      ExecutionStatus → FeasibleAction A → Text → Action (Live A W) (ExecutionReport A)
  end_with status action reason = do
    emit_rejected action.source_decision_run_id reason
    λ s. (
      make_report (record {
        source_decision_run_id = action.source_decision_run_id;
        status = status;
        fills = [];
        reason = some reason;
      }),
      s,
    )
