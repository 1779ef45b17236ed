-- ===== src/Services/Bindings.antt =====
-- controllers/controllers/services/bindings/controller.go and bindings/managed/controller.go: the
-- reconciler of service bindings, and the one of the bindings to managed instances.
pub mod World
pub mod Secrets
pub mod Unbind
pub mod Reconciler
pub mod UserProvided
pub mod Bound
pub mod Freed
pub mod Keys
pub mod Tests
