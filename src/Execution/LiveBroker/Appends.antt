-- ===== src/Execution/LiveBroker/Appends.antt =====
-- What `execute` of live_broker_alpaca.py does to the log that the runner lends it.
use caqrs.Prelude.{
  Bool, true, false, not, String, [], ◌∷◌, refl, Option-cases, inl, inr, arith, Reply,
  if◌then◌else◌,
}
use caqrs.Prelude.Effects.{Keeps}
use caqrs.Prelude.Decimal.{Decimal}
use caqrs.Prelude.Dict.{Dict}
use caqrs.Policy.Gateway.{FeasibleAction}
use caqrs.Execution.Report.{ExecutionStatus}
use caqrs.Execution.PaperBroker
use caqrs.Execution.Journal.{Submission}
use caqrs.Execution.AlpacaRest.{Http}
use caqrs.Execution.LiveBroker.{Live, emit}
use caqrs.Execution.LiveBroker.Submit.{Digest, register, with_paper, execute}
use caqrs.Orchestrator.Events.{CycleEvent}
use caqrs.Orchestrator.EventLog.{Codec, append}
use caqrs.Orchestrator.CycleRunner.Quiet.{IsGrown, IsGrown-refl, IsGrown-trans}
use caqrs.Execution.LiveBroker.Keeping.{IsKept, and_then-Kept, end_with-Kept, after_preflight-Kept}

module _ {ℓ κ} {A : Type ℓ} {W : Type κ} where
  abbrev Grown : Live A W → Live A W → Type κ
  Grown s s' = IsGrown s.log s'.log

  if-Grown {μ} :
      {B : Type μ} (s : Live A W) (b : Bool) (x y : Reply B × Live A W)
      → Grown s x.1
      → Grown s y.1
      → Grown s (if b then x else y).1
  if-Grown s true x y h k = h
  if-Grown s false x y h k = k

module _ {ℓ κ} {A : Type ℓ} {W : Type κ} (codec : Codec) where
  emit-Grown : (event : String → CycleEvent) → Keeps (Grown {A = A} {W = W}) (emit codec event)
  unfolding emit append
  emit-Grown event s = elim (Option-cases s.broker.cycle_id) [
    | inl e ↦ rw (emit, e) (IsGrown-refl s.log)
    | inr (c, e) ↦
        rw (emit, e)
          (if-Grown s s.broker.has_event_log _ _
            (record { listeners = refl; events = (event c ∷ [], refl) }) (IsGrown-refl s.log))
  ]

module _ {ℓ κ} {A : Type ℓ} {W : Type κ} (codec : Codec) (d : Decimal A) (digest : Digest)
    (http : Http A W) where
  register-Grown : (row : Submission) → Keeps Grown (register codec d digest http row)
  unfolding register
  register-Grown row s = ground (arith, IsGrown-refl s.log)

  Grown-IsKept : IsKept codec d digest http (Grown {A = A} {W = W})
  Grown-IsKept = record {
    reflexive = λ s. IsGrown-refl s.log;
    transitive = λ s s' s'' h k. IsGrown-trans h k;
    moves = λ s w. IsGrown-refl s.log;
    engages = λ s. IsGrown-refl s.log;
    emits = emit-Grown codec;
    registers = register-Grown;
  }

  -- Whatever the venue answers and the listeners do, `execute` only appends to the log.
  pub execute-Grown :
      (action : FeasibleAction A) (prices : Dict A) (s : Live A W)
      → IsGrown s.log (execute codec d digest http action prices s).1.log
  unfolding execute
  execute-Grown action prices s =
      let (preflight, paper) = PaperBroker.execute d s.broker.paper_broker action prices in
      let ended =
        end_with-Kept codec d digest http Grown Grown-IsKept ExecutionStatus.skipped action in
      if-Grown s s.broker.kill_switch_engaged _ _ (ended _ s) (
        if-Grown s (not s.broker.enable_live_orders) _ _ (ended _ s) (
          and_then-Kept codec d digest http Grown Grown-IsKept s preflight
            (with_paper codec d digest http paper s) _ (IsGrown-refl s.log)
            (after_preflight-Kept codec d digest http Grown Grown-IsKept action prices)))
