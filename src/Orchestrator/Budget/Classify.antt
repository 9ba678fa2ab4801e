-- ===== src/Orchestrator/Budget/Classify.antt =====
-- The tokens that the guard of budget.py has counted and the status that it reports, over any
-- sequence of calls.
use caqrs.Prelude.{
  ℕ, ◌+◌, ◌<◌, ◌≡◌, refl, ap, ◌∙◌, ◌||◌, List, [], ◌∷◌, Option, arith, if◌then◌else◌,
}
use caqrs.Prelude.Int.{ℤ, pos, pos_part, ltb_ℤ}
use caqrs.Orchestrator.Listeners.{returned}
use caqrs.Orchestrator.EventLog.{Codec, EventLog}
use caqrs.Orchestrator.Budget.{
  CycleBudget, BudgetGuard, BudgetStatus, token_exceeded, classify, emit_if_first_breach, check,
  consume,
}

-- One call of the guard's interface, with the clock's reading.
pub data Call : Type 0 where
  consuming : ℤ → ℤ → ℕ → Call
  checking : ℕ → Call

-- What a call asks to count: nothing if an argument is negative.
abbrev pub tokens_of : Call → ℕ
tokens_of (consuming token_in token_out now) =
    if ltb_ℤ token_in (pos 0) || ltb_ℤ token_out (pos 0)
    then 0
    else pos_part token_in + pos_part token_out
tokens_of (checking now) = 0

abbrev pub total_tokens : List Call → ℕ
total_tokens [] = 0
total_tokens (call ∷ calls) = tokens_of call + total_tokens calls

module _ {ℓ} {W : Type ℓ} (codec : Codec) where
  -- The guard, the log and the world after one call, and after a list of them.
  abbrev pub after_call :
      Call → BudgetGuard → Option (EventLog W) → W → BudgetGuard × Option (EventLog W) × W
  after_call (consuming token_in token_out now) g log w =
      let r = consume codec g token_in token_out now log w in (r.1, r.2, r.3)
  after_call (checking now) g log w = let r = check codec g now log w in (r.1, r.2, r.3)

  abbrev pub run :
      List Call → BudgetGuard → Option (EventLog W) → W → BudgetGuard × Option (EventLog W) × W
  run [] g log w = (g, log, w)
  run (call ∷ calls) g log w = let (g', log', w') = after_call call g log w in run calls g' log' w'

  check-counts :
      (g : BudgetGuard) (now : ℕ) (log : Option (EventLog W)) (w : W)
      → ((check codec g now log w).1.tokens_consumed ≡ g.tokens_consumed)
        × ((check codec g now log w).1.budget ≡ g.budget)
  unfolding check emit_if_first_breach
  check-counts g now log w = (ground arith, ground arith)

  pub call-counts :
      (call : Call) (g : BudgetGuard) (log : Option (EventLog W)) (w : W)
      → ((after_call call g log w).0.tokens_consumed ≡ g.tokens_consumed + tokens_of call)
        × ((after_call call g log w).0.budget ≡ g.budget)
  unfolding consume
  call-counts (consuming token_in token_out now) g log w =
      let spent = g.tokens_consumed + (pos_part token_in + pos_part token_out) in
      let counts = check-counts (record g { tokens_consumed = spent }) now log w in
      (ground (arith, counts.0), ground (arith, counts.1))
  call-counts (checking now) g log w =
      let counts = check-counts g now log w in (omega (arith, counts.0), counts.1)

  -- Over any calls the guard counts exactly the tokens of the calls whose arguments are not negative,
  -- and its budget stays as it was.
  pub run-counts :
      (calls : List Call) (g : BudgetGuard) (log : Option (EventLog W)) (w : W)
      → ((run calls g log w).0.tokens_consumed ≡ g.tokens_consumed + total_tokens calls)
        × ((run calls g log w).0.budget ≡ g.budget)
  run-counts [] g log w = (omega arith, refl)
  run-counts (call ∷ calls) g log w =
      let (g', log', w') = after_call call g log w in
      let (tokens, same) = call-counts call g log w in
      let (later, kept) = run-counts calls g' log' w' in (omega (arith, tokens, later), kept ∙ same)

  check-status :
      (g : BudgetGuard) (now : ℕ) (log : Option (EventLog W)) (w : W) {status : BudgetStatus}
      → g.budget.token_cap < g.tokens_consumed
      → (check codec g now log w).0 ≡ returned status
      → status.kind ≡ token_exceeded
  unfolding check classify
  check-status g now log w over h = ground arith

  -- Once a guard has counted more than its cap, whatever calls follow, every later check that returns
  -- reports that the tokens are exceeded.
  pub token_breach_is_final :
      (calls : List Call) (g : BudgetGuard) (log : Option (EventLog W)) (w : W) (now : ℕ)
      {status : BudgetStatus}
      → g.budget.token_cap < g.tokens_consumed
      → (let (g', log', w') = run calls g log w in (check codec g' now log' w').0 ≡ returned status)
      → status.kind ≡ token_exceeded
  token_breach_is_final calls g log w now over h =
      let (g', log', w') = run calls g log w in
      let (counted, kept) = run-counts calls g log w in
      let cap = ap (λ (b : CycleBudget). b.token_cap) kept in
      check-status g' now log' w' (omega (arith, counted, cap)) h
