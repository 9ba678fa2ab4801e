-- ===== src/Orchestrator/Budget.antt =====
-- src/caqrs/orchestrator/budget.py: the token and wall-clock guard of a cycle. Times are in
-- microseconds, the resolution of `datetime`, and every call is given the reading of the clock that
-- it makes. The event log is shared with the caller, so it is passed in and handed back.
pub mod Alarm
pub mod Classify
mod Tests
use caqrs.Prelude.{
  ℕ, ◌+◌, ◌-◌, ◌/◌, Bool, true, false, String, ◌||◌, Option, none, some, ltb, if◌then◌else◌,
}
use caqrs.Prelude.Int.{ℤ, pos, pos_part, ltb_ℤ}
use caqrs.Orchestrator.Listeners.{Reply, returned, raised}
use caqrs.Orchestrator.Events.{CycleEvent, budget_exceeded_event}
use caqrs.Orchestrator.EventLog.{Codec, EventLog, append}

pub data BudgetStatusKind : Type 0 where
  ok token_exceeded wallclock_exceeded : BudgetStatusKind

-- `kind.value`
abbrev pub kind_value : BudgetStatusKind → String
kind_value ok = "ok"
kind_value token_exceeded = "token_exceeded"
kind_value wallclock_exceeded = "wallclock_exceeded"

-- `wallclock_cap` is `wallclock_seconds_cap` in microseconds.
pub record CycleBudget : Type 0 where
  pub cycle_id : String
  pub token_cap : ℕ
  pub wallclock_cap : ℕ

pub record BudgetStatus : Type 0 where
  pub kind : BudgetStatusKind
  pub tokens_consumed : ℕ
  pub token_cap : ℕ
  pub elapsed : ℕ
  pub wallclock_cap : ℕ

pub record BudgetGuard : Type 0 where
  pub budget : CycleBudget
  pub started_at : ℕ
  pub tokens_consumed : ℕ
  pub exceeded_emitted : Bool

abbrev pub microseconds : ℕ
microseconds = 1000000

-- `__init__`, at the clock's reading `now`.
unfoldable pub init : CycleBudget → ℕ → BudgetGuard
init budget now = record {
  budget = budget;
  started_at = now;
  tokens_consumed = 0;
  exceeded_emitted = false;
}

-- `_classify`
unfoldable pub classify : BudgetGuard → ℕ → BudgetStatusKind
classify g elapsed =
    if ltb g.budget.token_cap g.tokens_consumed
    then token_exceeded
    else if ltb g.budget.wallclock_cap elapsed
    then wallclock_exceeded
    else ok

-- The event of a breach; `int` of a number of seconds drops the fraction.
unfoldable pub breach_event : BudgetGuard → BudgetStatus → BudgetStatusKind → CycleEvent
breach_event g status token_exceeded =
    budget_exceeded_event g.budget.cycle_id "token" status.tokens_consumed status.token_cap
breach_event g status _ =
    budget_exceeded_event g.budget.cycle_id "wallclock" (status.elapsed / microseconds)
      (status.wallclock_cap / microseconds)

-- The status of `check`, before anything is emitted.
abbrev pub status_at : BudgetGuard → ℕ → BudgetStatus
status_at g now = record {
  kind = classify g (now - g.started_at);
  tokens_consumed = g.tokens_consumed;
  token_cap = g.budget.token_cap;
  elapsed = now - g.started_at;
  wallclock_cap = g.budget.wallclock_cap;
}

module _ {ℓ} {W : Type ℓ} (codec : Codec) where
  -- `self._event_log.append(…)`, with the flag already set.
  emit :
      BudgetGuard
      → CycleEvent
      → EventLog W
      → W
      → Reply (Unit {0}) × BudgetGuard × Option (EventLog W) × W
  emit g event log w =
      let (answer, log', w') = append codec log event w in
      (answer, record g { exceeded_emitted = true }, some log', w')

  -- `_emit_if_first_breach`
  unfoldable pub emit_if_first_breach :
      BudgetGuard
      → BudgetStatus
      → BudgetStatusKind
      → Option (EventLog W)
      → W
      → Reply (Unit {0}) × BudgetGuard × Option (EventLog W) × W
  unfolding emit
  emit_if_first_breach g status ok log w = (returned tt, g, log, w)
  emit_if_first_breach g status kind none w = (returned tt, g, none, w)
  emit_if_first_breach g status kind (some log) w =
      if g.exceeded_emitted
      then (returned tt, g, some log, w)
      else emit g (breach_event g status kind) log w

  -- A clock that went back gives a negative `elapsed_seconds`, which `BudgetStatus` rejects.
  unfoldable pub check :
      BudgetGuard
      → ℕ
      → Option (EventLog W)
      → W
      → Reply BudgetStatus × BudgetGuard × Option (EventLog W) × W
  check g now log w =
      let status = status_at g now in
      let (answer, g', log', w') = emit_if_first_breach g status status.kind log w in
      if ltb now g.started_at
      then (raised, g, log, w)
      else ((elim answer [ returned _ ↦ returned status | raised ↦ raised ]), g', log', w')

  unfoldable pub consume :
      BudgetGuard
      → ℤ
      → ℤ
      → ℕ
      → Option (EventLog W)
      → W
      → Reply BudgetStatus × BudgetGuard × Option (EventLog W) × W
  consume g token_in token_out now log w =
      if ltb_ℤ token_in (pos 0) || ltb_ℤ token_out (pos 0)
      then (raised, g, log, w)
      else check
          (record g {
            tokens_consumed = g.tokens_consumed + (pos_part token_in + pos_part token_out);
          })
          now log w
