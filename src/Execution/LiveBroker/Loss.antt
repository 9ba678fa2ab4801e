-- ===== src/Execution/LiveBroker/Loss.antt =====
-- The loss cap and the kill switch of live_broker_alpaca.py, over any use but the approval of a person.
use caqrs.Prelude.{
  Bool, true, false, not, String, List, [], ◌∷◌, Option, ◌≡◌, refl, sym, ap, ◌∙◌, ◌⊎◌, inl, inr,
  arith, returned, raised, if◌then◌else◌, Bool-cases, ◌&&◌, ◌||◌, subst, if-false,
}
use caqrs.Prelude.Decimal.{Decimal, IsOrdered, lt_dec}
use caqrs.Prelude.Dict.{Dict}
use caqrs.Policy.Gateway.{FeasibleAction}
use caqrs.Execution.Report.{ExecutionStatus}
use caqrs.Execution.PaperBroker
use caqrs.Execution.AlpacaRest.{Http}
use caqrs.Execution.Journal.{LiveBrokerJournal}
use caqrs.Execution.LiveBroker.{
  LiveBrokerAlpaca, Live, init, new_broker, attach_cycle_context, detach_cycle_context,
  enable_live_orders_after_human_approval, reset_day, kill_switch, record_realized_loss,
  emit_kill_switch, engage, add_loss,
}
use caqrs.Execution.LiveBroker.Submit.{Digest, execute}
use caqrs.Execution.LiveBroker.Books.{IsFramed, execute-IsFramed, emit-broker}
use caqrs.Execution.LiveBroker.Silence.{EndsWith, execute_silent}
use caqrs.Orchestrator.Events.{broker_live_kill_switch_event}
use caqrs.Orchestrator.EventLog.{Codec}

-- A call of the broker's interface but `reenable_after_human_approval`.
pub data Op {ℓ} (A : Type ℓ) : Type ℓ where
  attaching : String → Op A
  detaching : Op A
  approving : (String → String) → String → String → Op A
  losing : A → Op A
  resetting : Op A
  killing : Op A
  executing : FeasibleAction A → Dict A → Op A

module _ {ℓ} {A : Type ℓ} (d : Decimal A) where
  -- The cap is positive, and the loss of the day is within it unless the kill switch is engaged.
  pub record IsSafe (b : LiveBrokerAlpaca A) : Type 0 where
    pub positive : d.leb b.live_broker_daily_loss_cap_usd d.zero ≡ false
    pub capped :
        (d.leb b.realized_loss_today_usd b.live_broker_daily_loss_cap_usd ≡ true)
        ⊎ (b.kill_switch_engaged ≡ true)

  broker_injective : {b b' : LiveBrokerAlpaca A} → returned b ≡ returned b' → b ≡ b'
  broker_injective h = cc

  framed-IsSafe : {b b' : LiveBrokerAlpaca A} → IsFramed b b' → IsSafe b → IsSafe b'
  framed-IsSafe f s = record {
    positive = rw f.cap s.positive;
    capped = rw (f.cap, f.loss) (ground (arith, s.capped, f.kill));
  }

module _ {ℓ κ} {A : Type ℓ} {W : Type κ} (codec : Codec) (d : Decimal A) (digest : Digest)
    (http : Http A W) where
  abbrev pub with_broker : LiveBrokerAlpaca A → Live A W → Live A W
  with_broker b s = record s { broker = b }

  -- The state after a call, whether it returns or raises.
  abbrev pub after_op : Op A → Live A W → Live A W
  after_op (attaching cycle_id) s = with_broker (attach_cycle_context d cycle_id s.broker).1 s
  after_op detaching s = with_broker (detach_cycle_context d s.broker) s
  after_op (approving environ token confirmation) s =
      with_broker (enable_live_orders_after_human_approval d environ token confirmation s.broker).1
        s
  after_op (losing amount) s = (record_realized_loss codec d amount s).1
  after_op resetting s = with_broker (reset_day d s.broker) s
  after_op killing s = (kill_switch codec s).1
  after_op (executing action prices) s = (execute codec d digest http action prices s).1

  abbrev pub run : List (Op A) → Live A W → Live A W
  run [] s = s
  run (op ∷ ops) s = run ops (after_op op s)

  -- An engaged kill switch stays engaged.
  abbrev pub Engaged : Live A W → Type 0
  Engaged s = s.broker.kill_switch_engaged ≡ true

  -- The broker after a loss is recorded.
  lost : A → LiveBrokerAlpaca A → LiveBrokerAlpaca A
  lost amount b =
      let total = d.add b.realized_loss_today_usd amount in
      if lt_dec d amount d.zero
      then b
      else if lt_dec d b.live_broker_daily_loss_cap_usd total && not b.kill_switch_engaged
      then record b { realized_loss_today_usd = total; kill_switch_engaged = true }
      else record b { realized_loss_today_usd = total }

  lose-broker :
      (amount : A) (s : Live A W) → (after_op (losing amount) s).broker ≡ lost amount s.broker
  unfolding record_realized_loss emit_kill_switch lost
  lose-broker amount s =
      let after = engage (add_loss (d.add s.broker.realized_loss_today_usd amount) s) in
      ground (arith, emit-broker codec (λ c. broker_live_kill_switch_event c "cap_breach") after)

  lost-Engaged :
      (amount : A) (b : LiveBrokerAlpaca A)
      → b.kill_switch_engaged ≡ true
      → (lost amount b).kill_switch_engaged ≡ true
  unfolding lost
  lost-Engaged amount b on = ground arith

  lose-Engaged : (amount : A) (s : Live A W) → Engaged s → Engaged (after_op (losing amount) s)
  unfolding record_realized_loss
  lose-Engaged amount s on =
      ap (λ (b : LiveBrokerAlpaca A). b.kill_switch_engaged) (lose-broker amount s)
      ∙ lost-Engaged amount s.broker on

  kill-Engaged : (s : Live A W) → Engaged (after_op killing s)
  unfolding kill_switch emit_kill_switch
  kill-Engaged s =
      ap (λ (b : LiveBrokerAlpaca A). b.kill_switch_engaged)
        (emit-broker codec (λ c. broker_live_kill_switch_event c "manual") (engage s))

  gate-kill :
      (g : Bool) (b : LiveBrokerAlpaca A) (p : PaperBroker.PaperBroker A)
      → (if g then b else record b { paper_broker = p }).kill_switch_engaged ≡ b.kill_switch_engaged
  gate-kill true b p = refl
  gate-kill false b p = refl

  execute-Engaged :
      (action : FeasibleAction A) (prices : Dict A) (s : Live A W)
      → Engaged s
      → Engaged (after_op (executing action prices) s)
  execute-Engaged action prices s on =
      let frame = execute-IsFramed codec d digest http action prices s in
      ground (
        arith,
        frame.kill,
        gate-kill (s.broker.kill_switch_engaged || not s.broker.enable_live_orders) s.broker
            (PaperBroker.execute d s.broker.paper_broker action prices).1,
      )

  op-Engaged : (op : Op A) (s : Live A W) → Engaged s → Engaged (after_op op s)
  unfolding attach_cycle_context detach_cycle_context enable_live_orders_after_human_approval
      reset_day
  op-Engaged (attaching cycle_id) s on = ground (arith, on)
  op-Engaged detaching s on = on
  op-Engaged (approving environ token confirmation) s on = ground (arith, on)
  op-Engaged (losing amount) s on = lose-Engaged amount s on
  op-Engaged resetting s on = on
  op-Engaged killing s on = kill-Engaged s
  op-Engaged (executing action prices) s on = execute-Engaged action prices s on

  run-Engaged : (ops : List (Op A)) (s : Live A W) → Engaged s → Engaged (run ops s)
  run-Engaged [] s on = on
  run-Engaged (op ∷ ops) s on = run-Engaged ops (after_op op s) (op-Engaged op s on)

  -- Once the kill switch is engaged, whatever calls follow but the approval of a person: it stays
  -- engaged, and `execute` raises or reports SKIPPED without fills and does the same whatever the
  -- venue would answer.
  pub kill_is_final :
      (ops : List (Op A)) (s : Live A W) (action : FeasibleAction A) (prices : Dict A)
      (http' : Http A W)
      → Engaged s
      → Engaged (run ops s)
        × (execute codec d digest http action prices (run ops s)
            ≡ execute codec d digest http' action prices (run ops s))
        × EndsWith ExecutionStatus.skipped (execute codec d digest http action prices (run ops s)).0
  kill_is_final ops s action prices http' on =
      let still = run-Engaged ops s on in
      let (same, ends) =
        execute_silent codec d digest action prices (run ops s) http http' (inl still) in
      (still, same, ends)

  lost-IsSafe :
      IsOrdered d → (amount : A) (b : LiveBrokerAlpaca A) → IsSafe d b → IsSafe d (lost amount b)
  unfolding lost
  lost-IsSafe ordered amount b safe = record {
    positive = ground (arith, safe.positive);
    capped = ground (arith, safe.capped);
  }

  gate-IsSafe :
      (g : Bool) (b : LiveBrokerAlpaca A) (p : PaperBroker.PaperBroker A)
      → IsSafe d b
      → IsSafe d (if g then b else record b { paper_broker = p })
  gate-IsSafe true b p safe = safe
  gate-IsSafe false b p safe = record { positive = safe.positive; capped = safe.capped }

  op-IsSafe :
      IsOrdered d → (op : Op A) (s : Live A W) → IsSafe d s.broker → IsSafe d (after_op op s).broker
  unfolding attach_cycle_context detach_cycle_context enable_live_orders_after_human_approval
      reset_day kill_switch emit_kill_switch
  op-IsSafe ordered (attaching cycle_id) s safe = record {
    positive = ground (arith, safe.positive);
    capped = ground (arith, safe.capped);
  }
  op-IsSafe ordered detaching s safe = record { positive = safe.positive; capped = safe.capped }
  op-IsSafe ordered (approving environ token confirmation) s safe = record {
    positive = ground (arith, safe.positive);
    capped = ground (arith, safe.capped);
  }
  op-IsSafe ordered (losing amount) s safe =
      subst (IsSafe d) (sym (lose-broker amount s)) (lost-IsSafe ordered amount s.broker safe)
  op-IsSafe ordered resetting s safe = record {
    positive = safe.positive;
    capped = inl (ordered.leb_total s.broker.live_broker_daily_loss_cap_usd d.zero safe.positive);
  }
  op-IsSafe ordered killing s safe =
      subst (IsSafe d)
        (sym (emit-broker codec (λ c. broker_live_kill_switch_event c "manual") (engage s)))
        (record { positive = safe.positive; capped = inr refl })
  op-IsSafe ordered (executing action prices) s safe =
      framed-IsSafe d (execute-IsFramed codec d digest http action prices s) (
        gate-IsSafe (s.broker.kill_switch_engaged || not s.broker.enable_live_orders) s.broker
          (PaperBroker.execute d s.broker.paper_broker action prices).1 safe)

  run-IsSafe :
      IsOrdered d
      → (ops : List (Op A)) (s : Live A W) → IsSafe d s.broker
      → IsSafe d (run ops s).broker
  run-IsSafe ordered [] s safe = safe
  run-IsSafe ordered (op ∷ ops) s safe =
      run-IsSafe ordered ops (after_op op s) (op-IsSafe ordered op s safe)

  init-IsSafe :
      IsOrdered d
      → (paper : PaperBroker.PaperBroker A) (cap : A) (has_client force : Bool)
        (journal : Option LiveBrokerJournal) (b : LiveBrokerAlpaca A)
      → init d paper cap has_client journal force ≡ returned b
      → IsSafe d b
  unfolding init
  init-IsSafe ordered paper cap has_client force journal b made =
      elim (Bool-cases (d.leb cap d.zero)) [
        | inl bad ↦ absurd (ground (arith, bad, made))
        | inr good ↦
            let new = new_broker d paper cap has_client journal force in
            subst (IsSafe d)
              (broker_injective d
                (sym (if-false (d.leb cap d.zero) raised (returned new) good) ∙ made))
              (record { positive = good; capped = inl (ordered.leb_total cap d.zero good) })
      ]

  -- A broker that was constructed, whatever calls follow but the approval of a person, and whatever the
  -- venue answers: its cap is positive, and the loss of the day is within the cap or the kill switch is
  -- engaged.
  pub loss_is_capped :
      IsOrdered d
      → (paper : PaperBroker.PaperBroker A) (cap : A) (has_client force : Bool)
        (journal : Option LiveBrokerJournal) (ops : List (Op A)) (s : Live A W)
      → init d paper cap has_client journal force ≡ returned s.broker
      → IsSafe d (run ops s).broker
  loss_is_capped ordered paper cap has_client force journal ops s made =
      run-IsSafe ordered ops s
        (init-IsSafe ordered paper cap has_client force journal s.broker made)
