-- ===== src/Names.antt =====
-- Unique names: controllers/coordination/name_registry.go keeps a lease for each name in use, and
-- controllers/webhooks/validation/duplicate_validator.go claims, moves and frees them.
pub mod Interface
pub mod Lease
pub mod Registry
pub mod Duplicate
pub mod Memory
mod Tests
