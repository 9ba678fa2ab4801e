-- ===== src/Orchestrator/Heartbeat/Tests.antt =====
-- A run of the tracker of heartbeat.py.
use caqrs.Prelude.{ℕ, List, [], ◌∷◌, none, ◌≡◌, refl, arith}
use caqrs.Orchestrator.Heartbeat.{Heartbeat, is_due, fire}
use caqrs.Orchestrator.Heartbeat.Spacing.{run, IsSpaced, run-IsSpaced}

abbrev turns : List (ℕ × ℕ)
turns = (5, 5) ∷ (8, 8) ∷ (15, 16) ∷ (25, 26) ∷ (26, 27) ∷ []

abbrev fresh : Heartbeat
fresh = record { interval = 10; last_fired_at = none }

run-fires : (run turns fresh []).1 ≡ 27 ∷ 16 ∷ 5 ∷ []
unfolding is_due fire
run-fires = refl

run-IsSpaced_example : IsSpaced 10 (run turns fresh []).1
run-IsSpaced_example =
    run-IsSpaced 10 turns
      (omega arith, (omega arith, (omega arith, (omega arith, (omega arith, tt)))))
