-- ===== src/Execution/LiveBroker/Protocol.antt =====
-- The live broker of live_broker_alpaca.py as the runner of cycle_runner.py sees it: a broker in the
-- world, that is lent the log. A listener of the log acts on the rest of the world and does not call
-- the broker.
use caqrs.Prelude.{ℕ, Text, some, ◌≡◌, sym, subst, returned}
use caqrs.Prelude.Decimal.{Decimal}
use caqrs.Prelude.Dict.{Dict}
use caqrs.Policy.Gateway.{FeasibleAction}
use caqrs.Execution.AlpacaRest.{Http}
use caqrs.Execution.LiveBroker.{LiveBrokerAlpaca, Live, attach_cycle_context, detach_cycle_context}
use caqrs.Execution.LiveBroker.Submit.{Digest, execute}
use caqrs.Execution.LiveBroker.Appends.{execute-Grown}
use caqrs.Orchestrator.EventLog.{Codec, EventLog}
use caqrs.Orchestrator.CycleRunner.{LiveBrokerProtocol, live, CycleRunner, CycleResult}
use caqrs.Orchestrator.CycleRunner.Faithful.{IsFaithful}
use caqrs.Orchestrator.CycleRunner.Phases.{run}
use caqrs.Orchestrator.CycleRunner.Outcome.{run-IsFaithful}
use caqrs.Orchestrator.CycleRunner.Quiet.{IsAppending, IsGrown}

module _ {ℓ κ} {A : Type ℓ} {W : Type κ} (codec : Codec) (d : Decimal A) (digest : Digest)
    (http : Http A W) where
  -- The venue is in the rest of the world.
  abbrev pub venue_of : Http A (LiveBrokerAlpaca A × W)
  venue_of = record {
    post = λ body v. ((http.post body v.1).0, (v.0, (http.post body v.1).1));
    delete = λ v. ((http.delete v.1).0, (v.0, (http.delete v.1).1));
  }

  -- The broker of the world, with the log that it is lent.
  abbrev pub lent_state :
      EventLog (LiveBrokerAlpaca A × W) × (LiveBrokerAlpaca A × W) → Live A (LiveBrokerAlpaca A × W)
  lent_state v = record { broker = v.1.0; log = v.0; world = v.1 }

  abbrev pub protocol_of : LiveBrokerProtocol A (LiveBrokerAlpaca A × W)
  protocol_of = record {
    attach_cycle_context =
        λ cycle_id v. let (answer, b) = attach_cycle_context d cycle_id v.0 in (answer, (b, v.1));
    execute = λ action prices v.
        let (answer, s) = execute codec d digest venue_of action prices (lent_state v) in
        (answer, s.log, (s.broker, s.world.1));
    detach_cycle_context = λ v. (detach_cycle_context d v.0, v.1);
  }

  -- The live broker keeps what the runner relies on: whatever the venue answers and the listeners do, its
  -- `execute` only appends to the log that it is lent, and keeps the log's listeners.
  pub protocol_of-IsGrown :
      (action : FeasibleAction A) (prices : Dict A) (log : EventLog (LiveBrokerAlpaca A × W))
      (w : LiveBrokerAlpaca A × W)
      → IsGrown log (protocol_of.execute action prices (log, w)).1
  protocol_of-IsGrown action prices log w =
      execute-Grown codec d digest venue_of action prices (lent_state (log, w))

  -- A run whose broker is the live broker and that returns, by the above with no further condition on
  -- the broker.
  run-protocol_of-IsFaithful {δ} :
      {D : Type δ} (one_decimal : ℕ → Text) (r : CycleRunner A D (LiveBrokerAlpaca A × W)) (i : D)
      (log : EventLog (LiveBrokerAlpaca A × W)) (w : LiveBrokerAlpaca A × W) (x : CycleResult A D)
      → r.broker ≡ some (live protocol_of)
      → (run codec d one_decimal r i log w).0 ≡ returned x
      → IsFaithful d r log x (run codec d one_decimal r i log w).1
  run-protocol_of-IsFaithful one_decimal r i log w x lives e =
      run-IsFaithful codec d one_decimal r i log w x
        (subst IsAppending (sym lives) protocol_of-IsGrown) e
