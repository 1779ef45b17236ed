-- ===== src/Webhooks.antt =====
-- controllers/webhooks: the admission validators of the resources.
pub mod Workloads
pub mod Tasks
pub mod Domains
pub mod SecurityGroups
pub mod Routes
pub mod Bindings
pub mod Tests
