-- ===== src/Policy.antt =====
-- src/caqrs/policy: the policy gateway and the tracker of the day's loss that feeds it.
pub mod Gateway
pub mod LossBudget
