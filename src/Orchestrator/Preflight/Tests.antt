-- ===== src/Orchestrator/Preflight/Tests.antt =====
-- Runs of the scans of preflight.py.
use caqrs.Prelude.{◌≤◌, true, String, List, [], reverse, ◌∷◌, codes, All, ◌≡◌, ◌↔◌, refl, arith}
use caqrs.Orchestrator.Preflight.{
  HistoryText, tool_warning, text_warning, scan_tool_repetition, scan_text_repetition, is_near,
  number_text, digits,
}
use caqrs.Orchestrator.Preflight.Streaks.{
  Warns, eligible_of, scan_tool_repetition_iff, scan_text_repetition_iff,
}

abbrev tools : List String
tools = "sql" ∷ "fetch_url" ∷ "sql" ∷ "sql" ∷ "sql" ∷ []

scan_tool_repetition_iff_test :
    Warns (scan_tool_repetition tools 3) 3 (tool_warning "sql")
    ↔ ((3 ≤ 5) × All {A = String} (λ name. name ≡ "sql") ("sql" ∷ "sql" ∷ "sql" ∷ []))
scan_tool_repetition_iff_test =
    scan_tool_repetition_iff tools 3 "sql" ("sql" ∷ "sql" ∷ "fetch_url" ∷ "sql" ∷ []) (omega arith)
      refl

number_text-run : number_text 2048 ≡ codes "2048"
unfolding number_text digits codes
number_text-run = refl

abbrev short : HistoryText
short = record { text = codes "Done"; lowered = codes "done" }

abbrev stuck : HistoryText
stuck = record {
  text = codes "I will try that query  again";
  lowered = codes "i will try that query  again";
}

newest_stuck : reverse (eligible_of (stuck ∷ stuck ∷ short ∷ [])) ≡ stuck ∷ stuck ∷ []
unfolding codes
newest_stuck = refl

scan_text_repetition_iff_example :
    Warns (scan_text_repetition (stuck ∷ stuck ∷ short ∷ []) 2 (3, 4)) 2 text_warning
    ↔ ((2 ≤ 2) × All (λ t. is_near (3, 4) stuck t ≡ true) (stuck ∷ stuck ∷ []))
scan_text_repetition_iff_example =
    scan_text_repetition_iff (stuck ∷ stuck ∷ short ∷ []) 2 (3, 4) stuck (stuck ∷ []) (omega arith)
      (omega arith) newest_stuck
