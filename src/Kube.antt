-- ===== src/Kube.antt =====
-- What every part of the program sees of the Kubernetes API: the errors that its calls return.
pub mod Errors
pub mod Conditions
pub mod Listed
pub mod NotReady
pub mod Reconcile
pub mod Tests
