-- ===== src/Orchestrator.antt =====
-- src/caqrs/orchestrator: the state machine, the event log with its budget guard, the runner, the loop
-- detector and the cycle queue.
pub mod CycleRunner
pub mod Listeners
pub mod StateMachine
pub mod Events
pub mod EventLog
pub mod Budget
pub mod LoopDetector
pub mod CycleQueue
pub mod Heartbeat
pub mod Preflight
