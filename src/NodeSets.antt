-- ===== src/NodeSets.antt =====
-- internal/controller/nodeset: the reconciler of NodeSets.
pub mod Batches
pub mod Cordon
pub mod Condemn
pub mod Rolling
pub mod Ordinals
pub mod Scale
pub mod Records
pub mod Taints
pub mod Upkeep
pub mod Steps
pub mod Reconcile
pub mod Conditions
pub mod Publish
pub mod Daemon
pub mod Status
pub mod History
