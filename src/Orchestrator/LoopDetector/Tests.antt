-- ===== src/Orchestrator/LoopDetector/Tests.antt =====
-- Runs of the detector of loop_detector.py.
use caqrs.Prelude.{
  ℕ, none, ◌≤◌, true, false, List, [], ◌∷◌, All, codes, contains, ◌≡◌, ◌↔◌, ◌⊎◌, refl,
}
use caqrs.Orchestrator.Listeners.{returned}
use caqrs.Orchestrator.LoopDetector.{
  ToolCallLoopDetector, CallRecord, init, detect_identical, detect_similar_failing,
  detect_same_tool, detect_absolute_limit,
}
use caqrs.Orchestrator.LoopDetector.Window.{
  Op, calling, idling, writing, probing_identical, run, Tracks, run-Tracks,
}
use caqrs.Orchestrator.LoopDetector.Verdicts.{
  IsLoop, IsRun, loop_answer, IsFound, Repeats, Fails, detect_identical_iff,
  detect_similar_failing_iff, detect_same_tool_normal, detect_same_tool_high,
}
use caqrs.Orchestrator.LoopDetector.Latch.{latch, detect_absolute_limit_iff}

abbrev query : CallRecord
query = record { tool = "sql"; params_key = codes "{}"; failed = false }

abbrev failed_query : CallRecord
failed_query = record { tool = "sql"; params_key = codes "{}"; failed = true }

abbrev fetch : CallRecord
fetch = record { tool = "fetch_url"; params_key = codes "{}"; failed = true }

-- Three equal calls, the last of them failed; and four failed fetches.
abbrev repeating : ToolCallLoopDetector
repeating = record init {
  recent_calls = fetch ∷ query ∷ query ∷ failed_query ∷ [];
  total_calls = 4;
}

abbrev fetching : ToolCallLoopDetector
fetching = record init { recent_calls = fetch ∷ fetch ∷ fetch ∷ fetch ∷ []; total_calls = 4 }

detect_identical_iff_test :
    IsFound (detect_identical repeating).1
    ↔ ((3 ≤ 4) × All (Repeats failed_query) (failed_query ∷ query ∷ query ∷ []))
detect_identical_iff_test =
    detect_identical_iff repeating failed_query (query ∷ query ∷ fetch ∷ []) refl refl

detect_similar_failing_iff_test :
    IsFound (detect_similar_failing fetching).1
    ↔ ((4 ≤ 4) × All (Fails fetch) (fetch ∷ fetch ∷ fetch ∷ fetch ∷ []))
detect_similar_failing_iff_test =
    detect_similar_failing_iff fetching fetch (fetch ∷ fetch ∷ fetch ∷ []) refl refl

detect_same_tool_normal_example :
    let calls : List CallRecord = failed_query ∷ query ∷ query ∷ fetch ∷ [] in
    (IsLoop failed_query calls
      × (n : ℕ) × IsRun failed_query n calls
      × (detect_same_tool repeating ≡ loop_answer "sql" n))
    ⊎ (¬ IsLoop failed_query calls × (detect_same_tool repeating ≡ returned none))
detect_same_tool_normal_example =
    detect_same_tool_normal repeating failed_query (query ∷ query ∷ fetch ∷ []) refl
      (unfold contains in refl)

detect_same_tool_high_test : IsFound (detect_same_tool fetching) ↔ (
    ((5 ≤ 4) × All (λ (c : CallRecord). c.tool ≡ "fetch_url") (fetch ∷ fetch ∷ fetch ∷ fetch ∷ []))
    ⊎ (3 ≤ 4))
detect_same_tool_high_test =
    detect_same_tool_high fetching fetch (fetch ∷ fetch ∷ fetch ∷ []) refl refl
      (unfold contains in refl)

abbrev usage : List Op
usage =
    calling "sql" (codes "{}") false
    ∷ calling "sql" (codes "{}") false
    ∷ calling "sql" (codes "{}") true
    ∷ probing_identical
    ∷ idling
    ∷ writing (codes "I will try the same query again.") (codes "i will try the same query again.")
    ∷ idling
    ∷ []

run-Tracks_example : Tracks (run usage init) (query ∷ query ∷ failed_query ∷ [])
unfolding codes
run-Tracks_example = run-Tracks usage init [] (record { window = refl; total = refl })

abbrev aborted : ToolCallLoopDetector
aborted = record init { hard_aborted = true }

latch_test : (run usage aborted).hard_aborted ≡ true
latch_test = latch usage aborted refl refl

detect_absolute_limit_iff_example :
    (detect_absolute_limit (run usage init) ≡ true) ↔ ((25 ≤ 3) ⊎ (12 ≤ 1))
detect_absolute_limit_iff_example = detect_absolute_limit_iff usage
