-- ===== src/Entities.antt =====
-- src/caqrs/entities: canonical issuers, and the store that keeps them in memory.
pub mod Types
pub mod Store
pub mod Resolver
