-- ===== src/Orchestrator/LoopDetector/Verdicts.antt =====
-- When the probes of loop_detector.py find a loop, in terms of the newest calls of the window.
use native.Mathlib.Decide.{dec_le}
use caqrs.Prelude.{
  ℕ, ◌≤◌, Bool, true, false, not, String, ◌≡◌, ◌≢◌, ◌↔◌, ◌⊎◌, refl, List, ◌∷◌, length, take, count,
  streak, arith, ltb, leb, str_eq_iff, text_eq_sound, text_eq_refl, count-le-length, length-take-le,
  ◌<◌, streak-le-length, str_eq_refl, reverse, All, streak_iff, length_newest, Option, none,
  contains, if◌then◌else◌, inl, inr, str_eq, some, [], drop, Bool-cases,
}
use caqrs.Orchestrator.Listeners.{Reply, returned, raised}
use caqrs.Orchestrator.LoopDetector.{
  ToolCallLoopDetector, CallRecord, LoopDetection, detect_identical, detect_similar_failing,
  detect_same_tool, abort, detection, same_call, same_tool, same_failing,
  resolve_same_tool_threshold, high_tolerance_tools,
}

-- The probe returned a detection.
abbrev pub IsFound : Reply (Option LoopDetection) → Type 0
IsFound r = (x : LoopDetection) × (r ≡ returned (some x))

-- A call with the tool and the parameters of another; one with its tool, and one that also failed.
abbrev pub Repeats : CallRecord → CallRecord → Type 0
Repeats last c = (c.tool ≡ last.tool) × (c.params_key ≡ last.params_key)

abbrev pub Fails : CallRecord → CallRecord → Type 0
Fails last c = (c.tool ≡ last.tool) × (c.failed ≡ true)

same_call_iff : (last c : CallRecord) → (same_call last c ≡ true) ↔ Repeats last c
same_call_iff last c = (
  λ h. ground (arith, str_eq_iff c.tool last.tool, text_eq_sound c.params_key last.params_key),
  λ h. rw (h.0, h.1, str_eq_refl, text_eq_refl),
)

same_failing_iff : (last c : CallRecord) → (same_failing last c ≡ true) ↔ Fails last c
same_failing_iff last c =
    (λ h. ground (arith, str_eq_iff c.tool last.tool), λ h. rw (h.0, h.1, str_eq_refl))

detection-IsFound : (tool : String) (n : ℕ) → str_eq tool "" ≡ false → IsFound (detection tool n)
detection-IsFound tool n named = rw named (record { tool = tool; count = n }, refl)

none-not-found : IsFound (returned none) → ⊥
none-not-found (x, h) = cc h

-- The shape of a probe: too few calls, a streak that is long enough, one that is not.
probe_iff :
    (n size s : ℕ) (found : ToolCallLoopDetector × Reply (Option LoopDetection))
    (d : ToolCallLoopDetector)
    → s ≤ size
    → IsFound found.1
    → IsFound
        (if ltb size n then (d, returned none) else if leb n s then found else (d, returned none)).1
      ↔ (n ≤ s)
probe_iff n size s found d fits is_found = (λ h. ground arith, λ h. ground arith)

-- Where `last` is the newest call of the window and its tool has a name: the probe for identical calls finds a loop exactly
-- when the window has three calls and the newest three have the tool and the parameters of `last`.
pub detect_identical_iff :
    (d : ToolCallLoopDetector) (last : CallRecord) (rest : List CallRecord)
    → reverse d.recent_calls ≡ last ∷ rest
    → str_eq last.tool "" ≡ false
    → IsFound (detect_identical d).1
      ↔ ((3 ≤ length (last ∷ rest)) × All (Repeats last) (take 3 (last ∷ rest)))
unfolding detect_identical
detect_identical_iff d last rest newest named =
    let n = streak (same_call last) (last ∷ rest) in
    let probe =
      probe_iff 3 (length (last ∷ rest)) n (abort d last.tool n) d
        (streak-le-length (same_call last) (last ∷ rest)) (detection-IsFound last.tool n named) in
    let loop = streak_iff (same_call last) (Repeats last) (same_call_iff last) 3 (last ∷ rest) in
    rw (newest, length_newest d.recent_calls last rest newest)
      (λ h. loop.0 (probe.0 h), λ h. probe.1 (loop.1 h))

-- The same with the test that the newest call failed in between.
probe_failed_iff :
    (n size s : ℕ) (failed : Bool) (found : ToolCallLoopDetector × Reply (Option LoopDetection))
    (d : ToolCallLoopDetector)
    → s ≤ size
    → 0 < n
    → (failed ≡ false → s ≡ 0)
    → IsFound found.1
    → IsFound
        (if ltb size n
          then (d, returned none)
          else if not failed
          then (d, returned none)
          else if leb n s
          then found
          else (d, returned none)).1
      ↔ (n ≤ s)
probe_failed_iff n size s true found d fits pos none_run is_found =
    probe_iff n size s found d fits is_found
probe_failed_iff n size s false found d fits pos none_run is_found =
    let e = none_run refl in (λ h. ground arith, λ h. absurd (omega arith))

no_failing_streak :
    (last : CallRecord) (rest : List CallRecord)
    → last.failed ≡ false
    → streak (same_failing last) (last ∷ rest) ≡ 0
no_failing_streak last rest h = ground arith

-- Where the newest tool has a name, the probe for failing calls finds a loop exactly when the window has four calls and the newest four
-- have the tool of `last` and failed.
pub detect_similar_failing_iff :
    (d : ToolCallLoopDetector) (last : CallRecord) (rest : List CallRecord)
    → reverse d.recent_calls ≡ last ∷ rest
    → str_eq last.tool "" ≡ false
    → IsFound (detect_similar_failing d).1
      ↔ ((4 ≤ length (last ∷ rest)) × All (Fails last) (take 4 (last ∷ rest)))
unfolding detect_similar_failing
detect_similar_failing_iff d last rest newest named =
    let n = streak (same_failing last) (last ∷ rest) in
    let probe =
      probe_failed_iff 4 (length (last ∷ rest)) n last.failed (abort d last.tool n) d
        (streak-le-length (same_failing last) (last ∷ rest)) (omega arith)
        (no_failing_streak last rest) (detection-IsFound last.tool n named) in
    let loop =
      streak_iff (same_failing last) (Fails last) (same_failing_iff last) 4 (last ∷ rest) in
    rw (newest, length_newest d.recent_calls last rest newest)
      (λ h. loop.0 (probe.0 h), λ h. probe.1 (loop.1 h))

threshold_normal :
    (tool : String) (failing : ℕ)
    → contains tool high_tolerance_tools ≡ false
    → resolve_same_tool_threshold tool failing ≡ (if leb 3 failing then 2 else 3)
unfolding resolve_same_tool_threshold
threshold_normal tool failing normal = ground arith

threshold_high :
    (tool : String) (failing : ℕ)
    → contains tool high_tolerance_tools ≡ true
    → resolve_same_tool_threshold tool failing ≡ (if leb 3 failing then 3 else 5)
unfolding resolve_same_tool_threshold
threshold_high tool failing high = ground arith

-- The failed calls of the streak of the newest tool.
abbrev pub failing_among : CallRecord → List CallRecord → ℕ
failing_among last calls = count (λ c. c.failed) (take (streak (same_tool last) calls) calls)

failing_among-le :
    (last : CallRecord) (calls : List CallRecord)
    → failing_among last calls ≤ streak (same_tool last) calls
failing_among-le last calls =
    let s = streak (same_tool last) calls in
    omega
      (arith, count-le-length (λ (c : CallRecord). c.failed) (take s calls), length-take-le s calls)

-- What the probe computes, with its threshold.
detect_same_tool_lem :
    (d : ToolCallLoopDetector) (last : CallRecord) (rest : List CallRecord)
    → reverse d.recent_calls ≡ last ∷ rest
    → let s = streak (same_tool last) (last ∷ rest) in
      let f = failing_among last (last ∷ rest) in
      detect_same_tool d ≡ (
        if ltb (length (last ∷ rest)) 3
        then returned none
        else if leb (resolve_same_tool_threshold last.tool f) s
        then detection last.tool s
        else returned none)
unfolding detect_same_tool
detect_same_tool_lem d last rest newest = rw (newest, length_newest d.recent_calls last rest newest)

same_tool_iff : (last c : CallRecord) → (same_tool last c ≡ true) ↔ (c.tool ≡ last.tool)
same_tool_iff last c = str_eq_iff c.tool last.tool

high_probe_iff :
    (size s f : ℕ) (found : Reply (Option LoopDetection))
    → s ≤ size
    → f ≤ s
    → IsFound found
    → IsFound (
        if ltb size 3
        then returned none
        else if leb (if leb 3 f then 3 else 5) s
        then found
        else returned none)
      ↔ ((5 ≤ s) ⊎ (3 ≤ f))
high_probe_iff size s f found fits few is_found = (λ h. ground arith, λ h. ground arith)

-- What a loop of a tool is answered with: a detection, which wants a name that is not empty.
abbrev pub loop_answer : String → ℕ → Reply (Option LoopDetection)
loop_answer tool n =
    if str_eq tool "" then raised else returned (some (record { tool = tool; count = n }))

-- The newest calls begin with three of one tool, and the newest run of calls of that tool.
abbrev pub IsOther : CallRecord → List CallRecord → Type 0
IsOther last [] = Unit
IsOther last (c ∷ older) = c.tool ≢ last.tool

abbrev pub IsLoop : CallRecord → List CallRecord → Type 0
IsLoop last calls = (3 ≤ length calls) × All (λ c. c.tool ≡ last.tool) (take 3 calls)

abbrev pub IsRun : CallRecord → ℕ → List CallRecord → Type 0
IsRun last n calls =
    (n ≤ length calls) × All (λ c. c.tool ≡ last.tool) (take n calls) × IsOther last (drop n calls)

streak-IsRun :
    (last : CallRecord) (calls : List CallRecord) → IsRun last (streak (same_tool last) calls) calls
streak-IsRun last [] = (omega arith, tt, tt)
streak-IsRun last (c ∷ older) =
    let (fits, same, other) = streak-IsRun last older in
    let law = same_tool_iff last c in
    elim (Bool-cases (same_tool last c)) [
      | inl e ↦ rw e (omega arith, (law.0 e, same), other)
      | inr e ↦ rw e (omega arith, tt, λ h. cc (law.1 h, e))
    ]

-- With at most `s` failures in a streak of `s`, the lower threshold of 2 never decides.
normal_probe :
    (size s f : ℕ) (found : Reply (Option LoopDetection))
    → s ≤ size
    → f ≤ s
    → (if ltb size 3
        then returned none
        else if leb (if leb 3 f then 2 else 3) s
        then found
        else returned none)
      ≡ (if leb 3 s then found else returned none)
normal_probe size s f found fits few = ground arith

-- The probe for one tool used again and again, for a tool that is not on the tolerance list. Where the
-- window has three calls and the newest three have the tool of the newest, it answers with that tool
-- and the length of the newest run of its calls, or raises if the tool's name is empty; otherwise it
-- finds no loop. Failures do not matter.
pub detect_same_tool_normal :
    (d : ToolCallLoopDetector) (last : CallRecord) (rest : List CallRecord)
    → reverse d.recent_calls ≡ last ∷ rest
    → contains last.tool high_tolerance_tools ≡ false
    → (IsLoop last (last ∷ rest)
        × (n : ℕ) × IsRun last n (last ∷ rest)
        × (detect_same_tool d ≡ loop_answer last.tool n))
      ⊎ (¬ IsLoop last (last ∷ rest) × (detect_same_tool d ≡ returned none))
detect_same_tool_normal d last rest newest normal =
    let calls : List CallRecord = last ∷ rest in
    let s = streak (same_tool last) calls in
    let f = failing_among last calls in
    let loop = streak_iff (same_tool last) (λ c. c.tool ≡ last.tool) (same_tool_iff last) 3 calls in
    let probe =
      normal_probe (length calls) s f (detection last.tool s)
        (streak-le-length (same_tool last) calls) (failing_among-le last calls) in
    rw (detect_same_tool_lem d last rest newest, threshold_normal last.tool f normal, probe)
      (elim (dec_le 3 s) [
        | yes long ↦ inl (loop.0 long, s, streak-IsRun last calls, ground arith)
        | no short ↦ inr (λ h. short (loop.1 h), ground arith)
      ])

-- For a named tool on the tolerance list it finds a loop exactly when the window has five calls and the
-- newest five have its tool, or three calls of the streak of its tool failed.
pub detect_same_tool_high :
    (d : ToolCallLoopDetector) (last : CallRecord) (rest : List CallRecord)
    → reverse d.recent_calls ≡ last ∷ rest
    → str_eq last.tool "" ≡ false
    → contains last.tool high_tolerance_tools ≡ true
    → IsFound (detect_same_tool d) ↔ (
        ((5 ≤ length (last ∷ rest)) × All (λ c. c.tool ≡ last.tool) (take 5 (last ∷ rest)))
        ⊎ (3 ≤ failing_among last (last ∷ rest)))
detect_same_tool_high d last rest newest named high =
    let s = streak (same_tool last) (last ∷ rest) in
    let f = failing_among last (last ∷ rest) in
    let loop =
      streak_iff (same_tool last) (λ c. c.tool ≡ last.tool) (same_tool_iff last) 5 (last ∷ rest) in
    let probe =
      high_probe_iff (length (last ∷ rest)) s f (detection last.tool s)
        (streak-le-length (same_tool last) (last ∷ rest)) (failing_among-le last (last ∷ rest))
        (detection-IsFound last.tool s named) in
    rw (detect_same_tool_lem d last rest newest, threshold_high last.tool f high)
      (
        λ h. elim (probe.0 h) [ inl long ↦ inl (loop.0 long) | inr failed ↦ inr failed ],
        λ h. probe.1 (elim h [ inl long ↦ inl (loop.1 long) | inr failed ↦ inr failed ]),
      )
