-- ===== src/OpcUa.antt =====
-- src/python/gizmo_opcua.py: the authorised command gate of the OPC UA server, and its collection jobs.
-- Each child models a group of the methods of `GizmoOpcUaServer`.
pub mod Bounded
pub mod State
pub mod Audit
pub mod Gate
pub mod Methods
pub mod Dispatch
pub mod Readback
pub mod Advance
pub mod Forward
pub mod Restore
pub mod Keeps
pub mod Coherence
pub mod Samples
pub mod Reachable
pub mod Ranges
pub mod Health
