-- ===== src/Orchestrator/Listeners.antt =====
-- Listener callbacks, as `state_machine.py` and `event_log.py` keep them. A listener is code of the
-- caller: it acts on a world `W` of the caller's, and it may raise.
use caqrs.Prelude.{◌≡◌, refl, List, [], ◌∷◌}
pub use caqrs.Prelude.{Reply, returned, raised, Reply-cases}

abbrev pub Listener {ℓ κ} : Type ℓ → Type κ → Type (ℓ ⊔ κ)
Listener E W = E → W → Reply (Unit {0}) × W

module _ {ℓ κ} {E : Type ℓ} {W : Type κ} where
  -- `for listener in self._listeners: listener(record)`; an exception ends the loop.
  unfoldable pub notify : List (Listener E W) → E → W → Reply (Unit {0}) × W
  notify [] event w = (returned tt, w)
  notify (listener ∷ rest) event w =
      let (answer, w') = listener event w in
      elim answer [ returned _ ↦ notify rest event w' | raised ↦ (raised, w') ]

  -- A listener that never raises, whatever it is told and whatever the world is.
  abbrev pub IsQuiet : Listener E W → Type (ℓ ⊔ κ)
  IsQuiet listener = (e : E) (w : W) → (listener e w).0 ≡ returned tt

  abbrev pub AllQuiet : List (Listener E W) → Type (ℓ ⊔ κ)
  AllQuiet [] = Unit
  AllQuiet (listener ∷ rest) = IsQuiet listener × AllQuiet rest

  -- With quiet listeners every one is called, in order, and none of them ends the call.
  pub notify_quiet :
      (listeners : List (Listener E W)) (e : E) (w : W)
      → AllQuiet listeners
      → (notify listeners e w).0 ≡ returned tt
  unfolding notify
  notify_quiet [] e w h = refl
  notify_quiet (listener ∷ rest) e w h =
      rw (h.0 e w, notify) (notify_quiet rest e (listener e w).1 h.1)
