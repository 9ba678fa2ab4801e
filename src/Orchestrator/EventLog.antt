-- ===== src/Orchestrator/EventLog.antt =====
-- src/caqrs/orchestrator/event_log.py: the append-only log, its listeners and its JSONL file. The
-- file is the text that was appended to it; `model_dump_json` and `model_validate_json` belong to
-- pydantic and are the parameter `Codec`.
pub mod Appends
pub mod Jsonl
mod Tests
use caqrs.Prelude.{
  Text, ℕ, Bool, true, false, String, ◌≡◌, refl, List, [], ◌∷◌, ◌++◌, Option, none, some, length,
  filter, str_eq,
}
use caqrs.Orchestrator.Listeners.{Reply, returned, raised, Listener, notify}
use caqrs.Orchestrator.Events.{CycleEvent, CycleEventKind, kind_eq}

pub record Codec : Type 0 where
  pub dump_json : CycleEvent → Text
  pub validate_json : Text → Option CycleEvent

pub record EventLog {ℓ} (W : Type ℓ) : Type ℓ where
  pub events : List CycleEvent
  pub persist_to : Option Text
  pub listeners : List (Listener CycleEvent W)

-- What `append` writes to the file: the event's JSON and a line feed.
abbrev pub write : Codec → CycleEvent → Option Text → Option Text
write codec event none = none
write codec event (some file) = some (file ++ (codec.dump_json event ++ (b'\n' ∷ [])))

module _ {ℓ} {W : Type ℓ} where
  -- `__init__`; the argument is what the file at `persist_to` holds, if there is a path.
  unfoldable pub init : Option Text → EventLog W
  init persist_to = record { events = []; persist_to = persist_to; listeners = [] }

  -- The event is recorded and persisted before the listeners run.
  unfoldable pub append : Codec → EventLog W → CycleEvent → W → Reply (Unit {0}) × EventLog W × W
  append codec log event w =
      let (answer, w') = notify log.listeners event w in
      (
        answer,
        record log {
          events = log.events ++ event ∷ [];
          persist_to = write codec event log.persist_to;
        },
        w',
      )

  -- An exception of a listener ends the loop.
  unfoldable pub extend :
      Codec → EventLog W → List CycleEvent → W → Reply (Unit {0}) × EventLog W × W
  extend codec log [] w = (returned tt, log, w)
  extend codec log (event ∷ rest) w =
      let (answer, log', w') = append codec log event w in
      elim answer [ returned _ ↦ extend codec log' rest w' | raised ↦ (raised, log', w') ]

  unfoldable pub on_event : EventLog W → Listener CycleEvent W → EventLog W
  on_event log listener = record log { listeners = log.listeners ++ listener ∷ [] }

  unfoldable pub filter_by_kind : EventLog W → CycleEventKind → List CycleEvent
  filter_by_kind log kind = filter (λ e. kind_eq e.kind kind) log.events

  unfoldable pub filter_by_cycle : EventLog W → String → List CycleEvent
  filter_by_cycle log cycle_id = filter (λ e. str_eq e.cycle_id cycle_id) log.events
