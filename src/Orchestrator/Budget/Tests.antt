-- ===== src/Orchestrator/Budget/Tests.antt =====
-- Runs of the guard of budget.py.
use caqrs.Prelude.{ℕ, ◌+◌, true, false, List, [], ◌∷◌, none, some, ◌≡◌, refl, arith, returned, inl}
use caqrs.Prelude.Int.{pos, negsuc}
use caqrs.Orchestrator.Listeners.{notify}
use caqrs.Orchestrator.Events.{budget_exceeded_event}
use caqrs.Orchestrator.EventLog.{Codec, EventLog, append}
use caqrs.Orchestrator.Budget.{
  CycleBudget, BudgetGuard, BudgetStatus, token_exceeded, init, classify, breach_event, check,
  consume, emit_if_first_breach,
}
use caqrs.Orchestrator.Budget.Classify.{
  Call, consuming, checking, run, run-counts, token_breach_is_final,
}
use caqrs.Orchestrator.Budget.Alarm.{Progress, one_report, events_of, breach_is_reported}

abbrev codec : Codec
codec = record { dump_json = λ e. []; validate_json = λ t. none }

abbrev budget : CycleBudget
budget = record { cycle_id = "c-1"; token_cap = 100; wallclock_cap = 5000000 }

abbrev log : EventLog ℕ
log = record { events = []; persist_to = none; listeners = (λ e n. (returned tt, n + 1)) ∷ [] }

-- The tokens are over the cap from the third call on; a negative count is refused.
abbrev calls : List Call
calls =
    consuming (pos 40) (pos 30) 1000000
    ∷ consuming (pos 1) (negsuc 0) 1500000
    ∷ consuming (pos 25) (pos 10) 2000000
    ∷ checking 9000000
    ∷ []

run-reports :
    events_of codec (run codec calls (init budget 0) (some log) 0).1
    ≡ budget_exceeded_event "c-1" "token" 105 100 ∷ []
unfolding init check consume classify emit_if_first_breach breach_event append notify
run-reports = refl

run-counts_test :
    ((run codec calls (init budget 0) (some log) 0).0.tokens_consumed ≡ 105)
    × ((run codec calls (init budget 0) (some log) 0).0.budget ≡ budget)
unfolding init
run-counts_test = run-counts codec calls (init budget 0) (some log) 0

abbrev spent : BudgetGuard
spent = record { budget = budget; started_at = 0; tokens_consumed = 101; exceeded_emitted = false }

abbrev over : BudgetStatus
over = record {
  kind = token_exceeded;
  tokens_consumed = 206;
  token_cap = 100;
  elapsed = 9500000;
  wallclock_cap = 5000000;
}

over_status :
    (let (g', log', w') = run codec calls spent (some log) 0 in
      (check codec g' 9500000 log' w').0 ≡ returned over)
unfolding check consume classify emit_if_first_breach breach_event append notify
over_status = refl

token_breach_is_final_test : over.kind ≡ token_exceeded
token_breach_is_final_test =
    token_breach_is_final codec calls spent (some log) 0 9500000 (omega arith) over_status

one_report_example :
    let r = run codec calls (init budget 0) (some log) 0 in
    Progress budget false r.0.exceeded_emitted [] (events_of codec r.1)
one_report_example = one_report codec budget 0 calls (some log) 0

breach_is_reported_test : (check codec spent 10 (some log) 0).1.exceeded_emitted ≡ true
breach_is_reported_test = breach_is_reported codec spent 10 log 0 (omega arith) (inl (omega arith))
