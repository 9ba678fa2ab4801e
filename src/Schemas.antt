-- ===== src/Schemas.antt =====
-- src/caqrs/schemas: the artifacts that the policy gateway and the brokers read.
pub mod Decision
