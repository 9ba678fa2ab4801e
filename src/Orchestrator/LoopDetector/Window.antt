-- ===== src/Orchestrator/LoopDetector/Window.antt =====
-- The windows of loop_detector.py against the whole history of calls.
use caqrs.Prelude.{
  ℕ, ◌+◌, ◌-◌, Bool, String, Text, ◌≡◌, refl, ap, List, [], ◌∷◌, ◌++◌, length, drop, take, arith,
  length-append, length-drop, drop-drop, drop-append_of_le, ◌∙◌, reverse,
}
use caqrs.Orchestrator.LoopDetector.{
  ToolCallLoopDetector, CallRecord, push, recent_calls_window, params_key_limit, record_call,
  record_no_action, record_step_text, detect_identical, detect_similar_failing, reset, identical_in,
  failing_in,
}

-- The calls that change the detector. Each carries the texts that the standard library makes of its
-- arguments.
pub data Op : Type 0 where
  calling : String → Text → Bool → Op
  idling : Op
  writing : Text → Text → Op
  probing_identical probing_failing : Op
  resetting : Op

unfoldable pub apply : Op → ToolCallLoopDetector → ToolCallLoopDetector
apply (calling tool dumped failed) d = record_call d tool dumped failed
apply idling d = (record_no_action d).0
apply (writing text lowered) d = record_step_text d text lowered
apply probing_identical d = (detect_identical d).0
apply probing_failing d = (detect_similar_failing d).0
apply resetting d = reset d

abbrev pub run : List Op → ToolCallLoopDetector → ToolCallLoopDetector
run [] d = d
run (op ∷ ops) d = run ops (apply op d)

-- Every call since the last reset, oldest first: nothing is forgotten.
abbrev pub note : Op → List CallRecord → List CallRecord
note (calling tool dumped failed) h =
    h ++ record { tool = tool; params_key = take params_key_limit dumped; failed = failed } ∷ []
note resetting h = []
note _ h = h

abbrev pub history : List Op → List CallRecord → List CallRecord
history [] h = h
history (op ∷ ops) h = history ops (note op h)

-- The last `n` elements.
abbrev pub last_n {ℓ} : {A : Type ℓ} → ℕ → List A → List A
last_n n h = drop (length h - n) h

pub push-last_n {ℓ} :
    {A : Type ℓ} (n : ℕ) (h : List A) (x : A) → push n (last_n n h) x ≡ last_n n (h ++ x ∷ [])
unfolding push
push-last_n n h x =
    let k = length h - n in
    let longer = h ++ x ∷ [] in
    let size : k + (length (drop k longer) - n) ≡ length longer - n =
      omega (arith, length-drop k longer, length-append h (x ∷ [])) in
    rw (
      drop-append_of_le k h (x ∷ []) (omega arith),
      drop-drop k (length (drop k longer) - n) longer,
      size,
    )

pub record Tracks (d : ToolCallLoopDetector) (h : List CallRecord) : Type 0 where
  pub window : d.recent_calls ≡ last_n recent_calls_window h
  pub total : d.total_calls ≡ length h

-- The probes that may abort change no other field.
abbrev pub SameButAbort : ToolCallLoopDetector → ToolCallLoopDetector → Type 0
SameButAbort d d' = d' ≡ record d { hard_aborted = d'.hard_aborted }

identical_in-SameButAbort :
    (d : ToolCallLoopDetector) (calls : List CallRecord) → SameButAbort d (identical_in d calls).0
unfolding identical_in
identical_in-SameButAbort d [] = refl
identical_in-SameButAbort d (last ∷ rest) = ground arith

failing_in-SameButAbort :
    (d : ToolCallLoopDetector) (calls : List CallRecord) → SameButAbort d (failing_in d calls).0
unfolding failing_in
failing_in-SameButAbort d [] = refl
failing_in-SameButAbort d (last ∷ rest) = ground arith

pub probe-SameButAbort :
    (d : ToolCallLoopDetector)
    → SameButAbort d (detect_identical d).0 × SameButAbort d (detect_similar_failing d).0
unfolding detect_identical detect_similar_failing
probe-SameButAbort d = (
  ground (arith, identical_in-SameButAbort d (reverse d.recent_calls)),
  ground (arith, failing_in-SameButAbort d (reverse d.recent_calls)),
)

Tracks-SameButAbort :
    (d d' : ToolCallLoopDetector) (h : List CallRecord)
    → SameButAbort d d'
    → Tracks d h
    → Tracks d' h
Tracks-SameButAbort d d' h same t = record {
  window = ap (λ (x : ToolCallLoopDetector). x.recent_calls) same ∙ t.window;
  total = ap (λ (x : ToolCallLoopDetector). x.total_calls) same ∙ t.total;
}

apply-Tracks :
    (op : Op) (d : ToolCallLoopDetector) (h : List CallRecord)
    → Tracks d h
    → Tracks (apply op d) (note op h)
unfolding apply record_call record_no_action record_step_text reset
apply-Tracks (calling tool dumped failed) d h t = record {
  window = rw t.window (push-last_n recent_calls_window h _);
  total = omega (arith, t.total, length-append h (_ ∷ []));
}
apply-Tracks idling d h t = record { window = t.window; total = t.total }
apply-Tracks (writing text lowered) d h t = record { window = ground arith; total = ground arith }
apply-Tracks probing_identical d h t = Tracks-SameButAbort d _ h (probe-SameButAbort d).0 t
apply-Tracks probing_failing d h t = Tracks-SameButAbort d _ h (probe-SameButAbort d).1 t
apply-Tracks resetting d h t = record { window = refl; total = refl }

-- Whatever is recorded, probed and reset, the window of calls is the newest thirty of all the calls
-- since the last reset, in order, and the total is their number.
pub run-Tracks :
    (ops : List Op) (d : ToolCallLoopDetector) (h : List CallRecord)
    → Tracks d h
    → Tracks (run ops d) (history ops h)
run-Tracks [] d h t = t
run-Tracks (op ∷ ops) d h t = run-Tracks ops (apply op d) (note op h) (apply-Tracks op d h t)
