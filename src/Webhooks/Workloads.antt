-- ===== src/Webhooks/Workloads.antt =====
-- controllers/webhooks/workloads and controllers/webhooks/services: the validators that combine
-- the duplicate validator with checks of their own. Each returns the name registry's new state
-- and the admission error, if any. `to_lower` is Go's `strings.ToLower`.
pub mod Apps
pub mod Orgs
pub mod Spaces
pub mod Services
pub mod Packages
pub mod Placement
pub mod Tests
