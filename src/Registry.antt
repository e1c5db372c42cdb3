-- ===== src/Registry.antt =====
-- crates/coordinator/src/registry.rs: the coordinator's view of the cluster.
pub mod State
pub mod Members
pub mod Failover
pub mod Step
pub mod Invariant
pub mod Registration
pub mod Liveness
pub mod Placement
pub mod Routing
pub mod Staffing
pub mod Reaping
pub mod Draining
pub mod Snapshot
pub mod Tests
