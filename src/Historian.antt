-- ===== src/Historian.antt =====
-- src/python/gizmo_historian.py: the archive of samples.
pub mod Accumulator
pub mod Table
pub mod Payload
pub mod Archive
pub mod Store
pub mod Replication
pub mod Incoming
pub mod Replica
pub mod Sync
pub mod Reachable
pub mod Recorder
pub mod Capture
pub mod Rounds
pub mod Points
pub mod Coarse
pub mod Query
