-- ===== src/Orchestrator/LoopDetector.antt =====
-- src/caqrs/orchestrator/loop_detector.py: the sliding-window detector of repeated tool calls. The
-- windows are lists, oldest first, as the deques are. A detection's message is text that is made of
-- its tool and its count, and is left out.
pub mod Window
mod Tests
pub mod Verdicts
pub mod Latch
use caqrs.Prelude.{
  ℕ, zero, suc, ◌+◌, ◌-◌, ◌*◌, Bool, true, false, not, String, Text, List, [], ◌∷◌, ◌++◌, Option,
  none, some, reverse, length, drop, take, filter, count, streak, any, leb, ltb, str_eq, contains,
  text_eq, split, join_spaces, ◌&&◌, ◌||◌, if◌then◌else◌,
}
use caqrs.Orchestrator.Listeners.{Reply, returned, raised}

pub record LoopDetection : Type 0 where
  pub tool : String
  pub count : ℕ

pub record CallRecord : Type 0 where
  pub tool : String
  pub params_key : Text
  pub failed : Bool

abbrev pub absolute_max : ℕ
absolute_max = 25

abbrev pub failed_absolute_max : ℕ
failed_absolute_max = 12

abbrev pub no_action_max : ℕ
no_action_max = 5

abbrev pub recent_calls_window : ℕ
recent_calls_window = 30

abbrev pub recent_step_texts_window : ℕ
recent_step_texts_window = 12

abbrev pub params_key_limit : ℕ
params_key_limit = 200

abbrev pub identical_threshold : ℕ
identical_threshold = 3

abbrev pub similar_failing_threshold : ℕ
similar_failing_threshold = 4

abbrev pub text_repeat_threshold : ℕ
text_repeat_threshold = 3

abbrev pub step_text_normalise_limit : ℕ
step_text_normalise_limit = 200

abbrev pub step_text_min_len : ℕ
step_text_min_len = 10

abbrev pub same_tool_base_normal : ℕ
same_tool_base_normal = 3

abbrev pub same_tool_base_high : ℕ
same_tool_base_high = 5

abbrev pub same_tool_failing_drop_trigger : ℕ
same_tool_failing_drop_trigger = 3

abbrev pub same_tool_failing_normal : ℕ
same_tool_failing_normal = 2

abbrev pub same_tool_failing_high : ℕ
same_tool_failing_high = 3

abbrev pub high_tolerance_tools : List String
high_tolerance_tools =
    "fetch_url" ∷ "read_file" ∷ "list_dir" ∷ "web_search" ∷ "github_api" ∷ "fetch_prices"
    ∷ "fetch_news" ∷ "fetch_macro" ∷ []

pub record ToolCallLoopDetector : Type 0 where
  pub recent_calls : List CallRecord
  pub total_calls : ℕ
  pub recent_step_texts : List Text
  pub consecutive_no_action : ℕ
  pub hard_aborted : Bool

-- `__init__`
abbrev pub init : ToolCallLoopDetector
init = record {
  recent_calls = [];
  total_calls = 0;
  recent_step_texts = [];
  consecutive_no_action = 0;
  hard_aborted = false;
}

-- `append` on a `deque(maxlen=…)`: the oldest elements make room.
unfoldable pub push {ℓ} : {A : Type ℓ} → ℕ → List A → A → List A
push maxlen xs x = let longer = xs ++ x ∷ [] in drop (length longer - maxlen) longer

-- `record`; `dumped` is `json.dumps(params, sort_keys=True, default=str)`.
unfoldable pub record_call : ToolCallLoopDetector → String → Text → Bool → ToolCallLoopDetector
record_call d tool dumped failed = record d {
  recent_calls =
      push recent_calls_window d.recent_calls
        (record { tool = tool; params_key = take params_key_limit dumped; failed = failed });
  total_calls = d.total_calls + 1;
  consecutive_no_action = 0;
}

unfoldable pub record_no_action : ToolCallLoopDetector → ToolCallLoopDetector × Bool
record_no_action d = (
  record d { consecutive_no_action = d.consecutive_no_action + 1 },
  leb no_action_max (d.consecutive_no_action + 1),
)

-- `record_step_text`; `lowered` is `text.lower()`.
unfoldable pub record_step_text : ToolCallLoopDetector → Text → Text → ToolCallLoopDetector
record_step_text d text lowered =
    let normalised = take step_text_normalise_limit (join_spaces (split lowered)) in
    if ltb (length text) step_text_min_len || text_eq text [] || text_eq normalised []
    then d
    else record d {
      recent_step_texts = push recent_step_texts_window d.recent_step_texts normalised;
    }

unfoldable pub detect_absolute_limit : ToolCallLoopDetector → Bool
detect_absolute_limit d =
    if leb absolute_max d.total_calls
    then true
    else leb failed_absolute_max (count (λ c. c.failed) d.recent_calls)

-- A `LoopDetection` wants a tool name that is not empty.
abbrev pub detection : String → ℕ → Reply (Option LoopDetection)
detection tool count =
    if str_eq tool "" then raised else returned (some (record { tool = tool; count = count }))

abbrev pub same_call : CallRecord → CallRecord → Bool
same_call last c = str_eq c.tool last.tool && text_eq c.params_key last.params_key

abbrev pub same_tool : CallRecord → CallRecord → Bool
same_tool last c = str_eq c.tool last.tool

abbrev pub same_failing : CallRecord → CallRecord → Bool
same_failing last c = same_tool last c && c.failed

-- `_hard_aborted = True`, then the detection.
abbrev pub abort :
    ToolCallLoopDetector → String → ℕ → ToolCallLoopDetector × Reply (Option LoopDetection)
abort d tool count = (record d { hard_aborted = true }, detection tool count)

-- The rest of `detect_identical`, on the calls newest first; the window is not empty there.
identical_in :
    ToolCallLoopDetector → List CallRecord → ToolCallLoopDetector × Reply (Option LoopDetection)
identical_in d [] = (d, returned none)
identical_in d (last ∷ rest) =
    let n = streak (same_call last) (last ∷ rest) in
    if leb identical_threshold n then abort d last.tool n else (d, returned none)

unfoldable pub detect_identical :
    ToolCallLoopDetector → ToolCallLoopDetector × Reply (Option LoopDetection)
unfolding identical_in
detect_identical d =
    if ltb (length d.recent_calls) identical_threshold
    then (d, returned none)
    else identical_in d (reverse d.recent_calls)

failing_in :
    ToolCallLoopDetector → List CallRecord → ToolCallLoopDetector × Reply (Option LoopDetection)
failing_in d [] = (d, returned none)
failing_in d (last ∷ rest) =
    let n = streak (same_failing last) (last ∷ rest) in
    if not last.failed
    then (d, returned none)
    else if leb similar_failing_threshold n
    then abort d last.tool n
    else (d, returned none)

unfoldable pub detect_similar_failing :
    ToolCallLoopDetector → ToolCallLoopDetector × Reply (Option LoopDetection)
unfolding failing_in
detect_similar_failing d =
    if ltb (length d.recent_calls) similar_failing_threshold
    then (d, returned none)
    else failing_in d (reverse d.recent_calls)

-- `_resolve_same_tool_threshold`
unfoldable pub resolve_same_tool_threshold : String → ℕ → ℕ
resolve_same_tool_threshold tool failing_count =
    let high = contains tool high_tolerance_tools in
    let base = if high then same_tool_base_high else same_tool_base_normal in
    let floor = if high then same_tool_failing_high else same_tool_failing_normal in
    if leb same_tool_failing_drop_trigger failing_count
    then (if ltb floor base then floor else base)
    else base

same_tool_in : List CallRecord → Reply (Option LoopDetection)
same_tool_in [] = returned none
same_tool_in (last ∷ rest) =
    let consecutive = streak (same_tool last) (last ∷ rest) in
    let failing_among = count (λ c. c.failed) (take consecutive (last ∷ rest)) in
    if leb (resolve_same_tool_threshold last.tool failing_among) consecutive
    then detection last.tool consecutive
    else returned none

unfoldable pub detect_same_tool : ToolCallLoopDetector → Reply (Option LoopDetection)
unfolding same_tool_in
detect_same_tool d =
    if ltb (length d.recent_calls) same_tool_base_normal
    then returned none
    else same_tool_in (reverse d.recent_calls)

-- The elements of `set(words)`, each once.
unfoldable pub distinct : List Text → List Text
distinct [] = []
distinct (word ∷ rest) =
    let others = distinct rest in if any (text_eq word) others then others else word ∷ others

-- `_jaccard_similarity` as a numerator and a denominator.
unfoldable pub jaccard_similarity : Text → Text → ℕ × ℕ
jaccard_similarity a b =
    let set_a = distinct (split a) in
    let set_b = distinct (split b) in
    let union = distinct (split a ++ split b) in
    if text_eq a b
    then (1, 1)
    else if text_eq a [] || text_eq b []
    then (0, 1)
    else if leb (length union) 0
    then (0, 1)
    else (count (λ w. any (text_eq w) set_b) set_a, length union)

-- `>= 0.7`. The words of a window's texts are at most 200, so the quotient of floats is on the same
-- side of the float 0.7 as the fraction is of 7/10.
abbrev pub is_similar : Text → Text → Bool
is_similar a b = let (n, d) = jaccard_similarity a b in leb (7 * d) (10 * n)

text_repetition_in : List Text → Option LoopDetection
text_repetition_in [] = none
text_repetition_in (last ∷ rest) =
    let repeats = streak (is_similar last) (last ∷ rest) in
    if leb text_repeat_threshold repeats
    then some (record { tool = "(no-tool)"; count = repeats })
    else none

unfoldable pub detect_text_repetition : ToolCallLoopDetector → Option LoopDetection
unfolding text_repetition_in
detect_text_repetition d =
    if ltb (length d.recent_step_texts) text_repeat_threshold
    then none
    else text_repetition_in (reverse d.recent_step_texts)

unfoldable pub reset : ToolCallLoopDetector → ToolCallLoopDetector
reset d = record d {
  recent_calls = [];
  total_calls = 0;
  recent_step_texts = [];
  consecutive_no_action = 0;
  hard_aborted = false;
}
