-- ===== src/Orchestrator/EventLog/Jsonl.antt =====
-- `load_jsonl` of src/caqrs/orchestrator/event_log.py, and what it reads back of a log's file.
use caqrs.Prelude.{
  Text, is_space, ℕ, Bool, false, ◌≡◌, ◌≢◌, refl, List, [], ◌∷◌, ◌++◌, Option, none, some, ◌==◌,
  ◌||◌, if◌then◌else◌, reverse, any, All, arith, append_assoc, append-nil, ap, ◌∙◌,
}
use caqrs.Orchestrator.Listeners.{AllQuiet}
use caqrs.Orchestrator.Events.{CycleEvent}
use caqrs.Orchestrator.EventLog.{Codec, EventLog, extend}
use caqrs.Orchestrator.EventLog.Appends.{write_all, extend_quiet}

unfoldable pub lstrip : Text → Text
lstrip [] = []
lstrip (c ∷ cs) = let rest = lstrip cs in if is_space c then rest else c ∷ cs

-- `line.strip()`
unfoldable pub strip : Text → Text
unfolding lstrip
strip line = reverse (lstrip (reverse (lstrip line)))

-- A text file is read with universal newlines. A return and a line feed together are one end of line
-- there and two here: the line between them is blank, and the loop skips blank lines.
abbrev pub is_newline : ℕ → Bool
is_newline c = c == b'\n' || c == 13

-- The lines that iterating over the file gives, without their ends; `line` is what was read of the
-- current one. A last line that nothing ends is a line if it has characters.
unfoldable pub lines : Text → Text → List Text
lines [] [] = []
lines (c ∷ line) [] = (c ∷ line) ∷ []
lines line (c ∷ cs) =
    let ended = line ∷ lines [] cs in
    let longer = lines (line ++ c ∷ []) cs in if is_newline c then ended else longer

-- The loop of `load_jsonl`; `none` is the exception of `model_validate_json`.
unfoldable pub load_lines : Codec → List Text → Option (List CycleEvent)
load_lines codec [] = some []
load_lines codec (line ∷ rest) =
    let others = load_lines codec rest in
    let stripped = strip line in
    elim stripped [
      | [] ↦ others
      | c ∷ cs ↦ elim (codec.validate_json (c ∷ cs)) [
        | none ↦ none
        | some event ↦ elim others [ none ↦ none | some events ↦ some (event ∷ events) ]
      ]
    ]

-- A path that is no file reads as no events.
unfoldable pub load_jsonl : Codec → Option Text → Option (List CycleEvent)
load_jsonl codec none = some []
load_jsonl codec (some file) = load_lines codec (lines [] file)

-- What the log relies on of pydantic for an event: its JSON is one line that neither begins nor ends
-- with white space, and it is read back as the event.
pub record IsReadable (codec : Codec) (e : CycleEvent) : Type 0 where
  pub one_line : any is_newline (codec.dump_json e) ≡ false
  pub trimmed : strip (codec.dump_json e) ≡ codec.dump_json e
  pub not_empty : codec.dump_json e ≢ []
  pub round_trip : codec.validate_json (codec.dump_json e) ≡ some e

lines-append :
    (line cs rest : Text)
    → any is_newline cs ≡ false
    → lines line (cs ++ (b'\n' ∷ rest)) ≡ (line ++ cs) ∷ lines [] rest
unfolding lines
lines-append line [] rest h = rw append-nil
lines-append line (c ∷ cs) rest h =
    ground (arith, lines-append (line ++ c ∷ []) cs rest, append_assoc line (c ∷ []) cs)

-- The file of a log that was given these events.
abbrev pub text_of : Codec → List CycleEvent → Text
text_of codec [] = []
text_of codec (e ∷ rest) = codec.dump_json e ++ (b'\n' ∷ text_of codec rest)

write_all-text_of :
    (codec : Codec) (events : List CycleEvent) (file : Text)
    → write_all codec events (some file) ≡ some (file ++ text_of codec events)
write_all-text_of codec [] file = rw append-nil
write_all-text_of codec (e ∷ rest) file =
    write_all-text_of codec rest (file ++ (codec.dump_json e ++ (b'\n' ∷ [])))
    ∙ ap some (simp append_assoc)

text_of-append :
    (codec : Codec) (old new : List CycleEvent)
    → text_of codec (old ++ new) ≡ text_of codec old ++ text_of codec new
text_of-append codec [] new = refl
text_of-append codec (e ∷ rest) new = rw (text_of-append codec rest new) (simp append_assoc)

-- A line that is its own strip, is not blank and is the JSON of an event adds that event.
load_lines-cons :
    (codec : Codec) (line : Text) (rest : List Text) (e : CycleEvent) (events : List CycleEvent)
    → line ≢ []
    → strip line ≡ line
    → codec.validate_json line ≡ some e
    → load_lines codec rest ≡ some events
    → load_lines codec (line ∷ rest) ≡ some (e ∷ events)
unfolding load_lines
load_lines-cons codec [] rest e events filled trim valid h = absurd (filled refl)
load_lines-cons codec (c ∷ cs) rest e events filled trim valid h = ground arith

module _ (codec : Codec) where
  load_jsonl-text_of :
      (events : List CycleEvent)
      → All (IsReadable codec) events
      → load_lines codec (lines [] (text_of codec events)) ≡ some events
  load_jsonl-text_of [] h = unfold load_lines lines in refl
  load_jsonl-text_of (e ∷ rest) h =
      rw (lines-append [] (codec.dump_json e) (text_of codec rest) h.0.one_line) (
        load_lines-cons codec (codec.dump_json e) (lines [] (text_of codec rest)) e rest
          h.0.not_empty h.0.trimmed h.0.round_trip (load_jsonl-text_of rest h.1))

  -- A log whose file holds the events `old` and whose listeners never raise, where the JSON of each old
  -- and new event can be read back: after a bulk append of `new` the file is read back as the old
  -- events and then the new ones.
  pub load_jsonl-extend {ℓ} :
      {W : Type ℓ} (log : EventLog W) (old new : List CycleEvent) (w : W)
      → All (IsReadable codec) (old ++ new)
      → AllQuiet log.listeners
      → log.persist_to ≡ some (text_of codec old)
      → load_jsonl codec (extend codec log new w).1.persist_to ≡ some (old ++ new)
  unfolding load_jsonl
  load_jsonl-extend log old new w readable quiet file =
      let written = (extend_quiet codec log new w quiet).1.file in
      rw
        (
          written,
          file,
          write_all-text_of codec new (text_of codec old),
          ← text_of-append codec old new,
        )
        (load_jsonl-text_of (old ++ new) readable)
