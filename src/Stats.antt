-- ===== src/Stats.antt =====
-- The state and the statistics of an app's instances: statefulset-runner's state collector and
-- api/actions/process_stats.go.
pub mod Pods
pub mod Agree
pub mod Records
pub mod Fetch
pub mod Reports
pub mod Shape
pub mod Tests
