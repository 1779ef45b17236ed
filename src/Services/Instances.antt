-- ===== src/Services/Instances.antt =====
-- controllers/controllers/services/instances/managed/controller.go and instances/finalize.go: the
-- reconciler of managed service instances. Beside the object and the error, a reconciliation hands
-- back what it asked of the broker and what the broker answered, in order.
pub mod World
pub mod Provision
pub mod Release
pub mod Lifecycle
pub mod Delegate
pub mod Reconciler
pub mod Refines
pub mod Story
pub mod Released
