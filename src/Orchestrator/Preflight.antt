-- ===== src/Orchestrator/Preflight.antt =====
-- src/caqrs/orchestrator/preflight.py: the warnings before a prompt. A threshold that is not positive
-- is 0 here. A text comes with what `str.lower` makes of it.
pub mod Streaks
mod Tests
use caqrs.Prelude.{
  ℕ, zero, suc, ◌<◌, ◌≡◌, refl, arith, inl, inr, Bool-cases, ◌+◌, ◌*◌, ◌/◌, ◌%◌, ◌-◌, Bool, true,
  false, String, Text, List, [], ◌∷◌, ◌++◌, map, reverse, Option, none, some, length, filter,
  streak, ltb, leb, ◌==◌, str_eq, codes, split, join_spaces, text_eq, any, count, Reply, returned,
  raised, if◌then◌else◌,
}
use caqrs.Orchestrator.LoopDetector.{distinct}

pub data PreflightWarningKind : Type 0 where
  repeated_tool repeated_text : PreflightWarningKind

pub record PreflightWarning : Type 0 where
  pub kind : PreflightWarningKind
  pub detail : Text

-- `f"{n}"`, from the last digit up; a number has at most as many digits as its own size.
unfoldable pub digits : ℕ → ℕ → Text
digits zero n = []
digits (suc fuel) n =
    let higher = digits fuel (n / 10) in
    if ltb n 10 then (b'0' + n) ∷ [] else higher ++ (b'0' + n % 10) ∷ []

-- Fuel above the number is enough.
digits_enough : (fuel more n : ℕ) → n < fuel → n < more → digits fuel n ≡ digits more n
unfolding digits
digits_enough zero more n h k = absurd (omega arith)
digits_enough (suc fuel) zero n h k = absurd (omega arith)
digits_enough (suc fuel) (suc more) n h k = elim (Bool-cases (ltb n 10)) [
  | inl one ↦ rw one refl
  | inr many ↦ rw (many, digits_enough fuel more (n / 10) (ground arith) (ground arith)) refl
]

unfoldable pub number_text : ℕ → Text
number_text n = digits (n + 1) n

unfoldable pub to_system_message : PreflightWarning → Text
to_system_message w = codes "[PREFLIGHT WARNING] " ++ w.detail

abbrev pub tool_warning : String → ℕ → PreflightWarning
tool_warning tool n = record {
  kind = repeated_tool;
  detail =
      codes "Tool \""
      ++ (codes tool
          ++ (codes "\" was used "
              ++ (number_text n
                  ++ codes " times in a row. Consider a different approach for the next call.")));
}

abbrev pub text_warning : ℕ → PreflightWarning
text_warning n = record {
  kind = repeated_text;
  detail =
      codes "Your last "
      ++ (number_text n
          ++ codes
              " responses are near-identical. Stop repeating; either give a substantively different response or clearly state that the task cannot be completed.");
}

-- The scan of the history, newest first.
abbrev pub tool_streak_in : ℕ → List String → Option PreflightWarning
tool_streak_in threshold [] = none
tool_streak_in threshold (last ∷ rest) =
    let n = streak (λ name. str_eq name last) (last ∷ rest) in
    if ltb n threshold then none else some (tool_warning last n)

unfoldable pub scan_tool_repetition : List String → ℕ → Reply (Option PreflightWarning)
scan_tool_repetition tool_history threshold =
    if threshold == 0
    then raised
    else if ltb (length tool_history) threshold
    then returned none
    else returned (tool_streak_in threshold (reverse tool_history))

pub record HistoryText : Type 0 where
  pub text : Text
  pub lowered : Text

-- `_normalise_for_jaccard`
unfoldable pub normalise_for_jaccard : HistoryText → Text
normalise_for_jaccard t = join_spaces (split t.lowered)

abbrev pub min_text_length : ℕ
min_text_length = 20

-- `_jaccard_word_similarity` as a numerator and a denominator.
unfoldable pub jaccard_word_similarity : Text → Text → ℕ × ℕ
jaccard_word_similarity a b =
    let set_a = distinct (split a) in
    let set_b = distinct (split b) in
    let union = distinct (split a ++ split b) in
    if text_eq a b
    then (1, 1)
    else if length a == 0
    then (0, 1)
    else if length b == 0
    then (0, 1)
    else if length union == 0
    then (0, 1)
    else (count (λ w. any (text_eq w) set_b) set_a, length union)

-- `>= similarity_threshold`, the threshold as a fraction.
abbrev pub is_near : ℕ × ℕ → HistoryText → HistoryText → Bool
is_near limit last t =
    let s = jaccard_word_similarity (normalise_for_jaccard last) (normalise_for_jaccard t) in
    leb (limit.0 * s.1) (s.0 * limit.1)

abbrev pub text_streak_in : ℕ → ℕ × ℕ → List HistoryText → Option PreflightWarning
text_streak_in threshold limit [] = none
text_streak_in threshold limit (last ∷ rest) =
    let n = streak (is_near limit last) (last ∷ rest) in
    if ltb n threshold then none else some (text_warning n)

unfoldable pub scan_text_repetition : List HistoryText → ℕ → ℕ × ℕ → Reply (Option PreflightWarning)
scan_text_repetition text_history threshold limit =
    let eligible = filter (λ t. leb min_text_length (length t.text)) text_history in
    if threshold == 0
    then raised
    else if ltb limit.1 limit.0
    then raised
    else if ltb (length eligible) threshold
    then returned none
    else returned (text_streak_in threshold limit (reverse eligible))

-- `"\n\n".join(…)`
unfoldable pub compose_preflight_message : List PreflightWarning → Text
compose_preflight_message [] = []
compose_preflight_message (w ∷ []) = to_system_message w
compose_preflight_message (w ∷ v ∷ rest) =
    to_system_message w ++ (b'\n' ∷ b'\n' ∷ compose_preflight_message (v ∷ rest))
