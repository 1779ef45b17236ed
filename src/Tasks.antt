-- ===== src/Tasks.antt =====
-- Tasks: the CFTask controller and the reconciler that runs a task's workload as a job.
pub mod Controller
pub mod Requests
pub mod Lifecycle
pub mod Jobs
pub mod Runner
pub mod Expiry
pub mod Canceling
pub mod Observed
pub mod Initialized
pub mod Once
pub mod Created
pub mod Failures
pub mod Tests
