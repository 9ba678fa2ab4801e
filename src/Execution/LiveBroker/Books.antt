-- ===== src/Execution/LiveBroker/Books.antt =====
-- What `execute` of live_broker_alpaca.py leaves alone, and what it keeps of its pre-flight.
use caqrs.Prelude.{
  Bool, true, false, not, ◌||◌, String, Text, ◌≡◌, refl, sym, codes, ◌∙◌, ◌⊎◌, inl, inr, arith,
  Reply, if◌then◌else◌, Returned-cases, subst,
}
use caqrs.Prelude.Effects.{Keeps}
use caqrs.Prelude.Decimal.{Decimal}
use caqrs.Prelude.Dict.{Dict}
use caqrs.Policy.Gateway.{FeasibleAction}
use caqrs.Execution.Report.{ExecutionStatus}
use caqrs.Execution.PaperBroker
use caqrs.Execution.Journal.{Submission}
use caqrs.Execution.AlpacaRest.{Http}
use caqrs.Execution.LiveBroker.{LiveBrokerAlpaca, Live, emit, emit_rejected, end_with}
use caqrs.Execution.LiveBroker.Submit.{Digest, register, with_paper, execute}
use caqrs.Execution.LiveBroker.Keeping.{IsKept, and_then-Kept, end_with-Kept, after_preflight-Kept}
use caqrs.Orchestrator.Events.{CycleEvent}
use caqrs.Orchestrator.EventLog.{Codec}

module _ {ℓ} {A : Type ℓ} where
  -- The paper book, the flag of live orders, the cap, the loss and the cycle stay, and an engaged kill
  -- switch stays engaged.
  pub record IsFramed (b b' : LiveBrokerAlpaca A) : Type ℓ where
    pub paper : b'.paper_broker ≡ b.paper_broker
    pub enabled : b'.enable_live_orders ≡ b.enable_live_orders
    pub cap : b'.live_broker_daily_loss_cap_usd ≡ b.live_broker_daily_loss_cap_usd
    pub loss : b'.realized_loss_today_usd ≡ b.realized_loss_today_usd
    pub cycle : b'.cycle_id ≡ b.cycle_id
    pub attached : b'.has_event_log ≡ b.has_event_log
    pub kill : (b'.kill_switch_engaged ≡ b.kill_switch_engaged) ⊎ (b'.kill_switch_engaged ≡ true)

  pub IsFramed-refl : (b : LiveBrokerAlpaca A) → IsFramed b b
  IsFramed-refl b = record {
    paper = refl;
    enabled = refl;
    cap = refl;
    loss = refl;
    cycle = refl;
    attached = refl;
    kill = inl refl;
  }

  pub IsFramed-trans : {a b c : LiveBrokerAlpaca A} → IsFramed a b → IsFramed b c → IsFramed a c
  IsFramed-trans f g = record {
    paper = g.paper ∙ f.paper;
    enabled = g.enabled ∙ f.enabled;
    cap = g.cap ∙ f.cap;
    loss = g.loss ∙ f.loss;
    cycle = g.cycle ∙ f.cycle;
    attached = g.attached ∙ f.attached;
    kill = ground (arith, f.kill, g.kill);
  }

  IsFramed-eq : {b b' : LiveBrokerAlpaca A} → b' ≡ b → IsFramed b b'
  IsFramed-eq {b = b} same = subst (λ c. IsFramed b c) (sym same) (IsFramed-refl b)

module _ {ℓ κ} {A : Type ℓ} {W : Type κ} where
  abbrev pub Framed : Live A W → Live A W → Type ℓ
  Framed s s' = IsFramed s.broker s'.broker

  -- The two guards of `execute`.
  gate-IsFramed {μ} :
      {B : Type μ} (engaged enabled : Bool) (b p : LiveBrokerAlpaca A) (x y z : Reply B × Live A W)
      → IsFramed b x.1.broker
      → IsFramed b y.1.broker
      → IsFramed p z.1.broker
      → IsFramed
          (if engaged || not enabled then b else p)
          (if engaged then x else if not enabled then y else z).1.broker
  gate-IsFramed true enabled b p x y z h k l = h
  gate-IsFramed false false b p x y z h k l = k
  gate-IsFramed false true b p x y z h k l = l

module _ {ℓ κ} {A : Type ℓ} {W : Type κ} (codec : Codec) where
  pub emit-broker :
      (event : String → CycleEvent) (s : Live A W) → (emit codec event s).1.broker ≡ s.broker
  unfolding emit
  emit-broker event s = ground arith

  emit-Framed : (event : String → CycleEvent) → Keeps (Framed {A = A} {W = W}) (emit codec event)
  emit-Framed event s = IsFramed-eq (emit-broker event s)

  pub end_with-broker :
      (status : ExecutionStatus) (action : FeasibleAction A) (reason : Text) (s : Live A W)
      → (end_with codec status action reason s).1.broker ≡ s.broker
  unfolding end_with emit_rejected
  end_with-broker status action reason s =
      elim (Returned-cases (emit_rejected codec action.source_decision_run_id reason s).0) [
        | inl (_, e) ↦ rw e (emit-broker _ s)
        | inr e ↦ rw e (emit-broker _ s)
      ]

module _ {ℓ κ} {A : Type ℓ} {W : Type κ} (codec : Codec) (d : Decimal A) (digest : Digest)
    (http : Http A W) where
  register-Framed : (row : Submission) → Keeps Framed (register codec d digest http row)
  unfolding register
  register-Framed row s = ground (arith, IsFramed-refl s.broker)

  Framed-IsKept : IsKept codec d digest http (Framed {A = A} {W = W})
  Framed-IsKept = record {
    reflexive = λ s. IsFramed-refl s.broker;
    transitive = λ s s' s'' h k. IsFramed-trans h k;
    moves = λ s w. IsFramed-refl s.broker;
    engages = λ s. record {
      paper = refl;
      enabled = refl;
      cap = refl;
      loss = refl;
      cycle = refl;
      attached = refl;
      kill = inr refl;
    };
    emits = emit-Framed codec;
    registers = register-Framed;
  }

  -- With live orders on and the kill switch off the paper book is what the pre-flight makes of it,
  -- whatever the venue answers, the report a rejection included; otherwise it stays. The flag of live
  -- orders, the cap, the loss of the day and the attached cycle stay, and an engaged kill switch stays
  -- engaged.
  pub execute-IsFramed :
      (action : FeasibleAction A) (prices : Dict A) (s : Live A W)
      → IsFramed
          (if s.broker.kill_switch_engaged || not s.broker.enable_live_orders
            then s.broker
            else record s.broker {
              paper_broker = (PaperBroker.execute d s.broker.paper_broker action prices).1;
            })
          (execute codec d digest http action prices s).1.broker
  unfolding execute
  execute-IsFramed action prices s =
      let (preflight, paper) = PaperBroker.execute d s.broker.paper_broker action prices in
      let ended =
        end_with-Kept codec d digest http Framed Framed-IsKept ExecutionStatus.skipped action in
      gate-IsFramed s.broker.kill_switch_engaged s.broker.enable_live_orders s.broker
        (with_paper codec d digest http paper s).broker
        (end_with codec ExecutionStatus.skipped action (codes "kill switch engaged") s)
        (end_with codec ExecutionStatus.skipped action (codes "live orders disabled") s) _
        (ended _ s) (ended _ s)
        (and_then-Kept codec d digest http Framed Framed-IsKept
          (with_paper codec d digest http paper s) preflight
          (with_paper codec d digest http paper s) _ (IsFramed-refl _)
          (after_preflight-Kept codec d digest http Framed Framed-IsKept action prices))
