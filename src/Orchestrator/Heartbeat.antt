-- ===== src/Orchestrator/Heartbeat.antt =====
-- src/caqrs/orchestrator/heartbeat.py: the tracker of fires. Times are microseconds; each call is given
-- the reading of the clock that it makes.
pub mod Spacing
mod Tests
use caqrs.Prelude.{
  ℕ, ◌+◌, Bool, true, false, Option, none, some, leb, Reply, returned, raised, if◌then◌else◌, ◌==◌,
}
use caqrs.Prelude.Int.{ℤ, pos, negsuc}

pub record Heartbeat : Type 0 where
  pub interval : ℕ
  pub last_fired_at : Option ℕ

-- `__init__`: the interval must be positive.
unfoldable pub init : ℤ → Reply Heartbeat
init (pos n) = if n == 0 then raised else returned (record { interval = n; last_fired_at = none })
init (negsuc n) = raised

-- `clock() - last >= interval`
unfoldable pub is_due : Heartbeat → ℕ → Bool
is_due h now = elim h.last_fired_at [ none ↦ true | some last ↦ leb (last + h.interval) now ]

unfoldable pub fire : Heartbeat → ℕ → Heartbeat
fire h now = record h { last_fired_at = some now }
