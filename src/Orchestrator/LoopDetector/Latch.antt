-- ===== src/Orchestrator/LoopDetector/Latch.antt =====
-- The abort flag, the absolute limit and the no-action cap of loop_detector.py over any use of it.
use native.Mathlib.Decide.{dec_le}
use caqrs.Prelude.{
  ℕ, ◌+◌, ◌-◌, ◌≤◌, Bool, true, false, not, String, ◌≡◌, ◌↔◌, ◌⊎◌, refl, ap, List, [], ◌∷◌, length,
  count, arith, ◌||◌, ◌∙◌, reverse, Option, none, inl, all, ◌<◌,
}
use caqrs.Orchestrator.Listeners.{Reply, returned}
use caqrs.Orchestrator.LoopDetector.{
  ToolCallLoopDetector, CallRecord, LoopDetection, detect_identical, detect_similar_failing,
  identical_in, failing_in, detection, init, record_call, record_no_action, record_step_text, reset,
  detect_absolute_limit, recent_calls_window,
}
use caqrs.Orchestrator.LoopDetector.Window.{
  Op, calling, idling, writing, probing_identical, probing_failing, resetting, apply, run, history,
  Tracks, run-Tracks, last_n, probe-SameButAbort,
}

-- A probe's answer as a Boolean; an exception comes after the flag is set.
abbrev pub is_found : Reply (Option LoopDetection) → Bool
is_found (returned none) = false
is_found _ = true

is_found-detection : (tool : String) (n : ℕ) → is_found (detection tool n) ≡ true
is_found-detection tool n = ground arith

identical_in-abort :
    (d : ToolCallLoopDetector) (calls : List CallRecord)
    → (identical_in d calls).0.hard_aborted ≡ (d.hard_aborted || is_found (identical_in d calls).1)
unfolding identical_in
identical_in-abort d [] = ground arith
identical_in-abort d (last ∷ rest) = ground arith

failing_in-abort :
    (d : ToolCallLoopDetector) (calls : List CallRecord)
    → (failing_in d calls).0.hard_aborted ≡ (d.hard_aborted || is_found (failing_in d calls).1)
unfolding failing_in
failing_in-abort d [] = ground arith
failing_in-abort d (last ∷ rest) = ground arith

-- Each of the two probes that may abort leaves the flag set exactly if it was set or the probe found
-- a loop.
pub probe-abort :
    (d : ToolCallLoopDetector)
    → ((detect_identical d).0.hard_aborted ≡ (d.hard_aborted || is_found (detect_identical d).1))
      × ((detect_similar_failing d).0.hard_aborted
          ≡ (d.hard_aborted || is_found (detect_similar_failing d).1))
unfolding detect_identical detect_similar_failing
probe-abort d = (
  ground (arith, identical_in-abort d (reverse d.recent_calls)),
  ground (arith, failing_in-abort d (reverse d.recent_calls)),
)

abbrev pub is_reset : Op → Bool
is_reset resetting = true
is_reset _ = false

apply-latch :
    (op : Op) (d : ToolCallLoopDetector)
    → is_reset op ≡ false
    → d.hard_aborted ≡ true
    → (apply op d).hard_aborted ≡ true
unfolding apply record_call record_no_action record_step_text
apply-latch (calling tool dumped failed) d h set = set
apply-latch idling d h set = set
apply-latch (writing text lowered) d h set = ground arith
apply-latch probing_identical d h set = (probe-abort d).0 ∙ rw set
apply-latch probing_failing d h set = (probe-abort d).1 ∙ rw set
apply-latch resetting d h set = cc

-- Once set, the abort flag stays set through any use without a reset.
pub latch :
    (ops : List Op) (d : ToolCallLoopDetector)
    → all (λ op. not (is_reset op)) ops ≡ true
    → d.hard_aborted ≡ true
    → (run ops d).hard_aborted ≡ true
latch [] d h set = set
latch (op ∷ ops) d h set =
    latch ops (apply op d) (ground arith) (apply-latch op d (ground arith) set)

all_of_window : (h : List CallRecord) → length h < 25 → last_n recent_calls_window h ≡ h
all_of_window h small = let e : length h - recent_calls_window ≡ 0 = omega arith in rw e

limit_iff :
    (d : ToolCallLoopDetector) (h : List CallRecord)
    → Tracks d h
    → (detect_absolute_limit d ≡ true) ↔ ((25 ≤ length h) ⊎ (12 ≤ count (λ c. c.failed) h))
unfolding detect_absolute_limit
limit_iff d h t = elim (dec_le 25 (length h)) [
  | yes many ↦ (λ _. inl many, λ _. ground (arith, t.total))
  | no few ↦
      let window : d.recent_calls ≡ h = t.window ∙ all_of_window h (omega arith) in
      rw window (λ e. ground (arith, t.total), λ e. ground (arith, t.total))
]

-- After any use from a new detector, the absolute limit is reached exactly when 25 calls were made
-- since the last reset or 12 of them failed.
pub detect_absolute_limit_iff :
    (ops : List Op)
    → (detect_absolute_limit (run ops init) ≡ true)
      ↔ ((25 ≤ length (history ops [])) ⊎ (12 ≤ count (λ c. c.failed) (history ops [])))
detect_absolute_limit_iff ops =
    limit_iff (run ops init) (history ops [])
      (run-Tracks ops init [] (record { window = refl; total = refl }))

-- How many idle steps were taken since the last call or reset.
abbrev pub idle_steps : Op → ℕ → ℕ
idle_steps (calling tool dumped failed) n = 0
idle_steps idling n = n + 1
idle_steps resetting n = 0
idle_steps _ n = n

abbrev pub idle_after : List Op → ℕ → ℕ
idle_after [] n = n
idle_after (op ∷ ops) n = idle_after ops (idle_steps op n)

apply-idle :
    (op : Op) (d : ToolCallLoopDetector)
    → (apply op d).consecutive_no_action ≡ idle_steps op d.consecutive_no_action
unfolding apply record_call record_no_action record_step_text reset
apply-idle (calling tool dumped failed) d = refl
apply-idle idling d = refl
apply-idle (writing text lowered) d = ground arith
apply-idle probing_identical d =
    ap (λ (x : ToolCallLoopDetector). x.consecutive_no_action) (probe-SameButAbort d).0
apply-idle probing_failing d =
    ap (λ (x : ToolCallLoopDetector). x.consecutive_no_action) (probe-SameButAbort d).1
apply-idle resetting d = refl

run-idle :
    (ops : List Op) (d : ToolCallLoopDetector)
    → (run ops d).consecutive_no_action ≡ idle_after ops d.consecutive_no_action
run-idle [] d = refl
run-idle (op ∷ ops) d = run-idle ops (apply op d) ∙ ap (idle_after ops) (apply-idle op d)

-- After any use from a new detector, one more step without a call reports the cap exactly when at
-- least four such steps came since the last call or reset.
pub record_no_action_iff :
    (ops : List Op) → ((record_no_action (run ops init)).1 ≡ true) ↔ (4 ≤ idle_after ops 0)
unfolding record_no_action
record_no_action_iff ops =
    let idle = run-idle ops init in (λ h. ground (arith, idle), λ h. ground (arith, idle))
