-- ===== src/Orchestrator/CycleRunner/Quiet.antt =====
-- What the runner of cycle_runner.py relies on: that what it calls does not raise, but where it
-- catches, and that a live broker only appends to the log that it is lent.
use caqrs.Prelude.{
  ℕ, ◌≤◌, String, List, ◌++◌, Option, none, some, true, ◌≡◌, ◌≢◌, refl, sym, [], append-nil, ap,
  ◌∙◌, append_assoc, Reply, returned, raised,
}
use caqrs.Prelude.Decimal.{Decimal}
use caqrs.Prelude.Dict.{Dict}
use caqrs.Entities.Resolver.{IdentifierResolution}
use caqrs.Schemas.Decision.{StrategyDecision, decision_is_valid}
use caqrs.Policy.Gateway.{FeasibleAction}
use caqrs.Orchestrator.Listeners.{AllQuiet}
use caqrs.Orchestrator.Events.{CycleEvent}
use caqrs.Orchestrator.EventLog.{EventLog}
use caqrs.Orchestrator.CycleRunner.{
  AgentResult, output_of, Attempt, escaped, CycleResult, AuditReport, Broker, plain, live,
  CycleRunner,
}

module _ {κ} {W : Type κ} where
  -- A log that was only appended to, and keeps its listeners.
  pub record IsGrown (log log' : EventLog W) : Type κ where
    pub listeners : log'.listeners ≡ log.listeners
    pub events : (new : List CycleEvent) × (log'.events ≡ log.events ++ new)

  pub IsGrown-refl : (log : EventLog W) → IsGrown log log
  IsGrown-refl log = record { listeners = refl; events = ([], sym (append-nil log.events)) }

  pub IsGrown-trans :
      {log log' log'' : EventLog W} → IsGrown log log' → IsGrown log' log'' → IsGrown log log''
  IsGrown-trans {log = log} g h = record {
    listeners = h.listeners ∙ g.listeners;
    events =
        let (new, e) = g.events in
        let (more, e') = h.events in
        (new ++ more, e' ∙ ap (λ es. es ++ more) e ∙ append_assoc log.events new more);
  }

  abbrev pub Returns {μ} : {X : Type μ} → (W → Reply X × W) → Type (μ ⊔ κ)
  Returns m = (w : W) → (m w).0 ≢ raised

module _ {ℓ κ} {A : Type ℓ} {W : Type κ} where
  -- A live broker does no more to the log that it is lent.
  abbrev pub IsAppending : Option (Broker A W) → Type (ℓ ⊔ κ)
  IsAppending (some (live b)) =
      (action : FeasibleAction A) (prices : Dict A) (log : EventLog W) (w : W)
      → IsGrown log (b.execute action prices (log, w)).1
  IsAppending _ = Unit

  abbrev pub IsPricing : Option (FeasibleAction A → W → Attempt (Dict A) × W) → Type (ℓ ⊔ κ)
  IsPricing none = Unit
  IsPricing (some provider) = (action : FeasibleAction A) (w : W) → (provider action w).0 ≢ escaped

  abbrev pub IsExecuting : Option (Broker A W) → Type (ℓ ⊔ κ)
  IsExecuting none = Unit
  IsExecuting (some (plain execute)) =
      (action : FeasibleAction A) (prices : Dict A) → Returns (execute action prices)
  IsExecuting (some (live b)) =
      ((cycle_id : String) → Returns (b.attach_cycle_context cycle_id))
      × ((action : FeasibleAction A) (prices : Dict A) (v : EventLog W × W)
          → (b.execute action prices v).0 ≢ raised)

abbrev pub IsSaving {ℓ δ κ} :
    {A : Type ℓ} {D : Type δ} {W : Type κ}
    → Option (CycleResult A D → List CycleEvent → W → Reply (Unit {0}) × W)
    → Type (ℓ ⊔ δ ⊔ κ)
IsSaving none = Unit
IsSaving {A = A} {D = D} (some save) =
    (x : CycleResult A D) (events : List CycleEvent) → Returns (save x events)

abbrev pub IsResolving {δ κ} :
    {D : Type δ} {W : Type κ}
    → Option (D → W → Reply (List IdentifierResolution) × W)
    → Type (δ ⊔ κ)
IsResolving none = Unit
IsResolving {D = D} (some resolver) = (i : D) → Returns (resolver i)

module _ {ℓ δ κ} {A : Type ℓ} {D : Type δ} {W : Type κ} (d : Decimal A) (r : CycleRunner A D W)
    (log₀ : EventLog W) (start : ℕ) where
  -- Nothing that the runner calls raises, but for the exceptions that it catches; the clock does not
  -- go back; and the decider's decisions are valid, as the constructor of a decision makes sure.
  pub record IsQuiet : Type (ℓ ⊔ δ ⊔ κ) where
    pub listeners : AllQuiet log₀.listeners
    pub clock : (w : W) → start ≤ (r.clock w).0
    pub observer : (i : _) → Returns (r.observer i)
    pub hypothesis : (i : _) → Returns (r.hypothesis i)
    pub skeptic : (i : _) → Returns (r.skeptic i)
    pub research : (i : _) → Returns (r.research i)
    pub auditor : (i : _) → Returns (r.auditor i)
    pub decider : (i : _) → Returns (r.decider i)
    pub decisions :
        (i : D × D × AuditReport D) (w : W) (x : AgentResult (StrategyDecision A))
        (s : StrategyDecision A)
        → (r.decider i w).0 ≡ returned x
        → output_of x.output x.error ≡ some s
        → decision_is_valid d s ≡ true
    pub backtest : (plan : D) (w : W) → (r.backtest_executor plan w).0 ≢ escaped
    pub store : IsSaving r.cycle_store
    pub resolver : IsResolving r.entity_resolver
    pub prices : IsPricing r.price_provider
    pub broker : IsExecuting r.broker

  -- Something that the runner calls raised.
  abbrev pub Noise : Type (ℓ ⊔ δ ⊔ κ)
  Noise = ¬ IsQuiet
