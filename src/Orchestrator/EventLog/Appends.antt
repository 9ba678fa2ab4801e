-- ===== src/Orchestrator/EventLog/Appends.antt =====
-- What the log of event_log.py holds after a bulk append.
use caqrs.Prelude.{
  Text, inl, inr, ℕ, suc, String, ◌≡◌, refl, sym, List, [], ◌∷◌, ◌++◌, Option, filter, take,
  append_assoc, append-nil, filter-append, str_eq, ◌∙◌,
}
use caqrs.Orchestrator.Listeners.{returned, AllQuiet, notify_quiet, Reply-cases}
use caqrs.Orchestrator.Events.{CycleEvent, CycleEventKind, kind_eq}
use caqrs.Orchestrator.EventLog.{
  Codec, EventLog, write, append, extend, filter_by_kind, filter_by_cycle,
}

-- The file after the events of a list were written one after another.
abbrev pub write_all : Codec → List CycleEvent → Option Text → Option Text
write_all codec [] file = file
write_all codec (event ∷ rest) file = write_all codec rest (write codec event file)

-- A log holds the events of `log` and then `added`, in memory and in the file, and has its listeners.
pub record IsExtended {ℓ} {W : Type ℓ} (codec : Codec) (log log' : EventLog W)
    (added : List CycleEvent) : Type ℓ where
  pub events : log'.events ≡ log.events ++ added
  pub file : log'.persist_to ≡ write_all codec added log.persist_to
  pub listeners : log'.listeners ≡ log.listeners

module _ {ℓ} {W : Type ℓ} (codec : Codec) where
  append-IsExtended :
      (log : EventLog W) (event : CycleEvent) (w : W)
      → IsExtended codec log (append codec log event w).1 (event ∷ [])
  unfolding append
  append-IsExtended log event w = record { events = refl; file = refl; listeners = refl }

  IsExtended-trans :
      (a b c : EventLog W) (event : CycleEvent) (rest : List CycleEvent)
      → IsExtended codec a b (event ∷ [])
      → IsExtended codec b c rest
      → IsExtended codec a c (event ∷ rest)
  IsExtended-trans a b c event rest h k = record {
    events = k.events ∙ rw h.events (append_assoc a.events (event ∷ []) rest);
    file = k.file ∙ rw h.file;
    listeners = k.listeners ∙ h.listeners;
  }

  -- Whatever the listeners do, a bulk append leaves the old events in place and adds some number of
  -- the new ones from the front, the same ones in memory and in the file, and keeps the listeners.
  pub extend-IsExtended :
      (log : EventLog W) (new : List CycleEvent) (w : W)
      → (n : ℕ) × IsExtended codec log (extend codec log new w).1 (take n new)
  unfolding extend
  extend-IsExtended log [] w =
      (0, record { events = sym (append-nil log.events); file = refl; listeners = refl })
  extend-IsExtended log (event ∷ rest) w =
      let next = append codec log event w in
      let one = append-IsExtended log event w in
      let (n, more) = extend-IsExtended next.1 rest next.2 in
      elim (Reply-cases next.0) [
        | inl e ↦
            (suc n, rw (e, extend) (IsExtended-trans log next.1 _ event (take n rest) one more))
        | inr e ↦ (1, rw (e, extend) one)
      ]

  append_quiet :
      (log : EventLog W) (event : CycleEvent) (w : W)
      → AllQuiet log.listeners
      → (append codec log event w).0 ≡ returned tt
  unfolding append
  append_quiet log event w quiet = notify_quiet log.listeners event w quiet

  -- If the listeners never raise, a bulk append returns and adds every new event, in order, to the
  -- log and to its file, and keeps the listeners.
  pub extend_quiet :
      (log : EventLog W) (new : List CycleEvent) (w : W)
      → AllQuiet log.listeners
      → ((extend codec log new w).0 ≡ returned tt)
        × IsExtended codec log (extend codec log new w).1 new
  unfolding extend
  extend_quiet log [] w quiet =
      (refl, record { events = sym (append-nil log.events); file = refl; listeners = refl })
  extend_quiet log (event ∷ rest) w quiet =
      let next = append codec log event w in
      let one = append-IsExtended log event w in
      let (answer, more) = extend_quiet next.1 rest next.2 (rw one.listeners quiet) in
      rw (append_quiet log event w quiet, extend)
        (answer, IsExtended-trans log next.1 _ event rest one more)

  -- After a bulk append that no listener disturbs, the events of a kind are the earlier ones of that
  -- kind and then the new ones of it, and likewise the events of a cycle.
  pub filter_by_kind-extend :
      (log : EventLog W) (new : List CycleEvent) (kind : CycleEventKind) (cycle_id : String) (w : W)
      → AllQuiet log.listeners
      → (filter_by_kind (extend codec log new w).1 kind
          ≡ filter_by_kind log kind ++ filter (λ e. kind_eq e.kind kind) new)
        × (filter_by_cycle (extend codec log new w).1 cycle_id
            ≡ filter_by_cycle log cycle_id ++ filter (λ e. str_eq e.cycle_id cycle_id) new)
  unfolding filter_by_kind filter_by_cycle
  filter_by_kind-extend log new kind cycle_id w quiet =
      let added = (extend_quiet log new w quiet).1 in
      (
        rw added.events (filter-append _ log.events new),
        rw added.events (filter-append _ log.events new),
      )
