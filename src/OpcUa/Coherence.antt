-- ===== src/OpcUa/Coherence.antt =====
-- An invariant of the command gate in src/python/gizmo_opcua.py, between what clients read, the audit,
-- the active command and the fault lock.
pub mod Primitives
pub mod Steps
use gizmo.Prelude.{◌≡◌, Bool, true, false, Option, none, some, if◌then◌else◌}
use gizmo.OpcUa.State.{
  Audit, ActiveCommand, CommandState, Method, CommandPath, path_name, Server, base_gate_state,
}
use gizmo.OpcUa.Advance.{awaits_dispatch}
use gizmo.OpcUa.Restore.{is_open}
use gizmo.OpcUa.Gate.{is_restore_normal_state}

-- The audit entry is that of the command: "Accepted" until it is dispatched, "Running" from then on.
abbrev pub IsAuditOf : Option ActiveCommand → Audit → Type 0
IsAuditOf none a = is_open a.state ≡ false
IsAuditOf (some c) a =
    (a.id ≡ c.command_id)
    × (a.name ≡ path_name c.path)
    × (a.requester ≡ c.requester)
    × (a.parameters ≡ c.parameters)
    × (a.state
        ≡ (if awaits_dispatch c.verification then CommandState.accepted else CommandState.running))

-- Under a fault lock only RestoreNormalState may be active.
abbrev pub RespectsLock : Bool → Option ActiveCommand → Type 0
RespectsLock false active = Unit
RespectsLock true none = Unit
RespectsLock true (some c) = is_restore_normal_state c.path ≡ true

abbrev pub IsCoherent : Server → Type 0
IsCoherent s =
    (s.published.command_gate_state ≡ base_gate_state s)
    × (s.published.audit ≡ s.audit)
    × (s.published.calibration ≡ s.calibration_operation)
    × IsAuditOf s.active_command s.audit
    × RespectsLock s.command_fault_locked s.active_command
