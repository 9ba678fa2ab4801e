-- ===== src/Orchestrator/Heartbeat/Spacing.antt =====
-- The fires of heartbeat.py in the loop that its documentation shows.
use caqrs.Prelude.{
  ℕ, ◌+◌, ◌≤◌, true, List, [], ◌∷◌, Option, none, some, ◌≡◌, refl, arith, All, if◌then◌else◌,
  Bool-cases, inl, inr,
}
use caqrs.Orchestrator.Heartbeat.{Heartbeat, is_due, fire}

-- One turn of the loop: the clock is read for `is_due`, and read again for `fire`.
abbrev pub turn : Heartbeat → ℕ → ℕ → Heartbeat
turn h asked fired = if is_due h asked then fire h fired else h

-- The fires of a run, newest first.
abbrev pub note : Heartbeat → ℕ → ℕ → List ℕ → List ℕ
note h asked fired times = if is_due h asked then fired ∷ times else times

abbrev pub run : List (ℕ × ℕ) → Heartbeat → List ℕ → Heartbeat × List ℕ
run [] h times = (h, times)
run ((asked, fired) ∷ turns) h times = run turns (turn h asked fired) (note h asked fired times)

-- Each fire is at least the interval after the one before it.
abbrev pub IsSpaced : ℕ → List ℕ → Type 0
IsSpaced interval [] = Unit
IsSpaced interval (t ∷ []) = Unit
IsSpaced interval (t ∷ u ∷ times) = (u + interval ≤ t) × IsSpaced interval (u ∷ times)

abbrev last_of : List ℕ → Option ℕ
last_of [] = none
last_of (t ∷ times) = some t

record Tracks (interval : ℕ) (h : Heartbeat) (times : List ℕ) : Type 0 where
  same : h.interval ≡ interval
  last : h.last_fired_at ≡ last_of times
  spaced : IsSpaced interval times

due_after :
    (h : Heartbeat) (asked u : ℕ)
    → h.last_fired_at ≡ some u
    → is_due h asked ≡ true
    → u + h.interval ≤ asked
unfolding is_due
due_after h asked u last due = ground (arith, last, due)

turn-Tracks :
    (interval : ℕ) (h : Heartbeat) (asked fired : ℕ) (times : List ℕ)
    → asked ≤ fired
    → Tracks interval h times
    → Tracks interval (turn h asked fired) (note h asked fired times)
unfolding fire
turn-Tracks interval h asked fired [] le t = elim (Bool-cases (is_due h asked)) [
  | inl due ↦ rw due (record { same = t.same; last = refl; spaced = tt })
  | inr not_due ↦ rw not_due t
]
turn-Tracks interval h asked fired (u ∷ times) le t = elim (Bool-cases (is_due h asked)) [
  | inl due ↦ rw due (record {
    same = t.same;
    last = refl;
    spaced = (omega (arith, due_after h asked u t.last due, t.same), t.spaced);
  })
  | inr not_due ↦ rw not_due t
]

run-Tracks :
    (interval : ℕ) (turns : List (ℕ × ℕ)) (h : Heartbeat) (times : List ℕ)
    → All (λ (x : ℕ × ℕ). x.0 ≤ x.1) turns
    → Tracks interval h times
    → Tracks interval (run turns h times).0 (run turns h times).1
run-Tracks interval [] h times ordered t = t
run-Tracks interval ((asked, fired) ∷ turns) h times ordered t =
    run-Tracks interval turns (turn h asked fired) (note h asked fired times) ordered.1
      (turn-Tracks interval h asked fired times ordered.0 t)

-- In the polling loop, where the clock is not behind between the question and the fire of one turn, two
-- fires of a new tracker are never less than the interval apart.
pub run-IsSpaced :
    (interval : ℕ) (turns : List (ℕ × ℕ))
    → All (λ (x : ℕ × ℕ). x.0 ≤ x.1) turns
    → IsSpaced interval (run turns (record { interval = interval; last_fired_at = none }) []).1
run-IsSpaced interval turns ordered =
    (run-Tracks interval turns (record { interval = interval; last_fired_at = none }) [] ordered
      (record { same = refl; last = refl; spaced = tt })).spaced
