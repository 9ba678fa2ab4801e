-- ===== src/Orchestrator/EventLog/Tests.antt =====
-- Runs of the log of event_log.py.
use caqrs.Prelude.{
  ℕ, ◌+◌, [], ◌∷◌, none, some, codes, is_space, text_eq, ◌≡◌, refl, take, if◌then◌else◌, returned,
  raised,
}
use caqrs.Orchestrator.Listeners.{Listener, notify}
use caqrs.Orchestrator.Events.{
  CycleEvent, CycleEventKind, kind_eq, cycle_started_event, state_transition_event,
}
use caqrs.Orchestrator.EventLog.{Codec, EventLog, append, extend, filter_by_kind, filter_by_cycle}
use caqrs.Orchestrator.EventLog.Appends.{IsExtended, extend-IsExtended, filter_by_kind-extend}
use caqrs.Orchestrator.EventLog.Jsonl.{
  IsReadable, text_of, load_jsonl, load_jsonl-extend, strip, lstrip,
}

abbrev started : CycleEvent
started = cycle_started_event "c-1" (some "gold")

abbrev moved : CycleEvent
moved = state_transition_event "c-1" "idle" "observing"

-- A codec that writes and reads these two events.
abbrev toy_codec : Codec
toy_codec = record {
  dump_json = λ e.
      if kind_eq e.kind CycleEventKind.cycle_started then codes "{started}" else codes "{moved}";
  validate_json = λ t.
      if text_eq t (codes "{started}")
      then some started
      else if text_eq t (codes "{moved}")
      then some moved
      else none;
}

-- The world counts what a listener was told; the second listener raises at a transition.
abbrev counter : Listener CycleEvent ℕ
counter e n = (returned tt, n + 1)

abbrev strict : Listener CycleEvent ℕ
strict e n =
    if kind_eq e.kind CycleEventKind.state_transition
    then (raised, n + 10)
    else (returned tt, n + 10)

abbrev log : EventLog ℕ
log = record {
  events = started ∷ [];
  persist_to = some (text_of toy_codec (started ∷ []));
  listeners = counter ∷ [];
}

abbrev broken_log : EventLog ℕ
broken_log = record log { listeners = counter ∷ strict ∷ [] }

-- The raising listener stops the bulk append after the event that it was told of.
extend-stops : (extend toy_codec broken_log (started ∷ moved ∷ started ∷ []) 0).0 ≡ raised
unfolding extend append notify cycle_started_event state_transition_event
extend-stops = refl

extend-IsExtended_example :
    (n : ℕ) × IsExtended toy_codec broken_log
      (extend toy_codec broken_log (moved ∷ started ∷ []) 0).1
      (take n (moved ∷ started ∷ []))
extend-IsExtended_example = extend-IsExtended toy_codec broken_log (moved ∷ started ∷ []) 0

filter_by_kind-extend_test :
    (filter_by_kind (extend toy_codec log (moved ∷ started ∷ []) 0).1 CycleEventKind.cycle_started
      ≡ started ∷ started ∷ [])
    × (filter_by_cycle (extend toy_codec log (moved ∷ started ∷ []) 0).1 "c-2" ≡ [])
unfolding filter_by_kind filter_by_cycle cycle_started_event state_transition_event
filter_by_kind-extend_test =
    filter_by_kind-extend toy_codec log (moved ∷ started ∷ []) CycleEventKind.cycle_started "c-2" 0
      ((λ e w. refl), tt)

started-IsReadable : IsReadable toy_codec started
unfolding codes strip lstrip cycle_started_event is_space text_eq state_transition_event
started-IsReadable = record {
  one_line = refl;
  trimmed = refl;
  not_empty = λ e. cc;
  round_trip = refl;
}

moved-IsReadable : IsReadable toy_codec moved
unfolding codes strip lstrip cycle_started_event is_space text_eq state_transition_event
moved-IsReadable = record {
  one_line = refl;
  trimmed = refl;
  not_empty = λ e. cc;
  round_trip = refl;
}

load_jsonl-extend_example :
    load_jsonl toy_codec (extend toy_codec log (moved ∷ started ∷ []) 0).1.persist_to
    ≡ some (started ∷ moved ∷ started ∷ [])
load_jsonl-extend_example =
    load_jsonl-extend toy_codec log (started ∷ []) (moved ∷ started ∷ []) 0
      (started-IsReadable, (moved-IsReadable, (started-IsReadable, tt))) ((λ e w. refl), tt) refl
