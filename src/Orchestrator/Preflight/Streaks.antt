-- ===== src/Orchestrator/Preflight/Streaks.antt =====
-- When the scans of preflight.py warn.
use caqrs.Prelude.{
  Option, Reply, ℕ, ◌≤◌, ◌<◌, true, false, String, List, ◌∷◌, reverse, none, some, length, filter,
  take, All, streak, streak_iff, streak-le-length, length_newest, ltb, leb, str_eq, str_eq_iff,
  returned, ◌≡◌, ◌↔◌, refl, arith, ◌==◌, if◌then◌else◌,
}
use caqrs.Orchestrator.Preflight.{
  PreflightWarning, HistoryText, scan_tool_repetition, scan_text_repetition, tool_warning,
  text_warning, is_near, min_text_length,
}

-- The scan returned a warning of at least `n` repetitions.
abbrev pub Warns : Reply (Option PreflightWarning) → ℕ → (ℕ → PreflightWarning) → Type 0
Warns answer n warning = (m : ℕ) × (n ≤ m) × (answer ≡ returned (some (warning m)))

-- The shape of a scan, where its threshold is positive.
scan_iff :
    (n size s : ℕ) (warning : ℕ → PreflightWarning)
    → s ≤ size
    → Warns
        (if ltb size n
          then returned none
          else returned (if ltb s n then none else some (warning s)))
        n
        warning
      ↔ (n ≤ s)
scan_iff n size s warning fits = (λ h. ground arith, λ h. (s, h, ground arith))

scan_tool_repetition_lem :
    (history : List String) (threshold : ℕ) (last : String) (rest : List String)
    → 0 < threshold
    → reverse history ≡ last ∷ rest
    → let s = streak (λ name. str_eq name last) (last ∷ rest) in
      scan_tool_repetition history threshold ≡ (
        if ltb (length (last ∷ rest)) threshold
        then returned none
        else returned (if ltb s threshold then none else some (tool_warning last s)))
unfolding scan_tool_repetition
scan_tool_repetition_lem history threshold last rest positive newest =
    let z : (threshold == 0) ≡ false = ground arith in
    rw (z, newest, length_newest history last rest newest) refl

-- Where `last` is the newest tool of the history and the threshold is positive: the scan warns exactly
-- when the history is as long as the threshold and its newest tools, so many, are all `last`.
pub scan_tool_repetition_iff :
    (history : List String) (threshold : ℕ) (last : String) (rest : List String)
    → 0 < threshold
    → reverse history ≡ last ∷ rest
    → Warns (scan_tool_repetition history threshold) threshold (tool_warning last) ↔ (
        (threshold ≤ length (last ∷ rest))
        × All (λ name. name ≡ last) (take threshold (last ∷ rest)))
scan_tool_repetition_iff history threshold last rest positive newest =
    let s = streak (λ name. str_eq name last) (last ∷ rest) in
    let scan =
      scan_iff threshold (length (last ∷ rest)) s (tool_warning last)
        (streak-le-length (λ name. str_eq name last) (last ∷ rest)) in
    let loop =
      streak_iff (λ name. str_eq name last) (λ name. name ≡ last) (λ name. str_eq_iff name last)
        threshold (last ∷ rest) in
    rw (scan_tool_repetition_lem history threshold last rest positive newest)
      (λ h. loop.0 (scan.0 h), λ h. scan.1 (loop.1 h))

-- The texts that are long enough to count.
abbrev pub eligible_of : List HistoryText → List HistoryText
eligible_of = filter (λ t. leb min_text_length (length t.text))

scan_text_repetition_lem :
    (history : List HistoryText) (threshold : ℕ) (limit : ℕ × ℕ) (last : HistoryText)
    (rest : List HistoryText)
    → 0 < threshold
    → limit.0 ≤ limit.1
    → reverse (eligible_of history) ≡ last ∷ rest
    → let s = streak (is_near limit last) (last ∷ rest) in
      scan_text_repetition history threshold limit ≡ (
        if ltb (length (last ∷ rest)) threshold
        then returned none
        else returned (if ltb s threshold then none else some (text_warning s)))
unfolding scan_text_repetition
scan_text_repetition_lem history threshold limit last rest positive in_range newest =
    let z : (threshold == 0) ≡ false = ground arith in
    let y : ltb limit.1 limit.0 ≡ false = ground arith in
    rw (z, y, newest, length_newest (eligible_of history) last rest newest) refl

-- Where `last` is the newest text of at least twenty characters, the threshold is positive and the
-- limit is at most 1: the scan returns a warning, of at least as many repetitions as the threshold,
-- exactly when there are as many such texts as the threshold and the newest of them, so many, are each
-- as similar to `last` as the limit.
pub scan_text_repetition_iff :
    (history : List HistoryText) (threshold : ℕ) (limit : ℕ × ℕ) (last : HistoryText)
    (rest : List HistoryText)
    → 0 < threshold
    → limit.0 ≤ limit.1
    → reverse (eligible_of history) ≡ last ∷ rest
    → Warns (scan_text_repetition history threshold limit) threshold text_warning ↔ (
        (threshold ≤ length (last ∷ rest))
        × All (λ t. is_near limit last t ≡ true) (take threshold (last ∷ rest)))
scan_text_repetition_iff history threshold limit last rest positive in_range newest =
    let s = streak (is_near limit last) (last ∷ rest) in
    let scan =
      scan_iff threshold (length (last ∷ rest)) s text_warning
        (streak-le-length (is_near limit last) (last ∷ rest)) in
    let loop =
      streak_iff (is_near limit last) (λ t. is_near limit last t ≡ true) (λ t. (λ h. h, λ h. h))
        threshold (last ∷ rest) in
    rw (scan_text_repetition_lem history threshold limit last rest positive in_range newest)
      (λ h. loop.0 (scan.0 h), λ h. scan.1 (loop.1 h))
