-- ===== src/OpcUa/Gate.antt =====
-- The authorisation of a remote mutation: `_begin_remote_command` of src/python/gizmo_opcua.py.
pub mod Policy
use gizmo.Prelude.{
  ◌*◌, ◌+◌, Bool, true, false, not, ◌&&◌, Option, none, some, [], ◌++◌, if◌then◌else◌,
}
use gizmo.Text.{Text, text}
use gizmo.OpcUa.Bounded.{bounded}
use gizmo.OpcUa.State.{
  Role, GateMode, CommandState, Terminal, Method, CommandPath, path_name, is_maintenance,
  Verification, ActiveCommand, Server, World, second, command_parameter_limit,
  command_requester_limit, configured_timeout,
}
use gizmo.OpcUa.Audit.{
  publish_gate_state, publish_audit, persist_command_state, record_rejected, finish_command,
}

-- The identity that `GizmoInternalSession` carries.
pub record Session : Type 0 where
  pub gizmo_requester : Text
  pub gizmo_role : Role

pub data StatusCode : Type 0 where
  bad_user_access_denied bad_out_of_service bad_invalid_state bad_too_many_operations : StatusCode

pub data Begun : Type 0 where
  began : ActiveCommand → Begun
  refused : StatusCode → Begun

abbrev pub is_anonymous : Role → Bool
is_anonymous Role.anonymous = true
is_anonymous _ = false

abbrev pub is_maintainer : Role → Bool
is_maintainer Role.maintenance = true
is_maintainer _ = false

abbrev pub is_disabled : GateMode → Bool
is_disabled GateMode.disabled = true
is_disabled _ = false

abbrev pub is_maintenance_mode : GateMode → Bool
is_maintenance_mode GateMode.maintenance = true
is_maintenance_mode _ = false

-- `path == "Operations.RestoreNormalState"`
abbrev pub is_restore_normal_state : CommandPath → Bool
is_restore_normal_state (CommandPath.method Method.restore_normal_state) = true
is_restore_normal_state _ = false

-- `path == "Operations.AbortCalibration"`
abbrev pub is_abort_calibration : CommandPath → Bool
is_abort_calibration (CommandPath.method Method.abort_calibration) = true
is_abort_calibration _ = false

-- `self._active_command.verification in {"calibration", "calibration-timeout-restore"}`
abbrev pub is_calibrating : Verification → Bool
is_calibrating Verification.calibration = true
is_calibrating Verification.calibration_timeout_restore = true
is_calibrating _ = false

-- `self._command_policy_reason or "command gate is disabled"`
abbrev policy_reason : Text → Text
policy_reason [] = text "command gate is disabled"
policy_reason reason = reason

-- The first checks in order, with the status code and the reason of the one that fails.
unfoldable pub denial : Role → CommandPath → Server → Option (StatusCode × Text)
denial role path s =
    if is_anonymous role
    then some (bad_user_access_denied, text "authenticated operator or maintenance role required")
    else if is_disabled s.effective_gate_mode
    then some (bad_out_of_service, policy_reason s.command_policy_reason)
    else if is_maintenance path && not (is_maintainer role)
    then some (bad_user_access_denied, text "maintenance role required")
    else if is_maintenance path && not (is_maintenance_mode s.effective_gate_mode)
    then some (bad_invalid_state, text "maintenance command gate is locked")
    else if s.command_fault_locked && not (is_restore_normal_state path)
    then some
        (bad_invalid_state, text "command gate is fault-locked; RestoreNormalState is required")
    else none

unfoldable pub new_command : World → Session → CommandPath → Text → Server → ActiveCommand
new_command w session path parameters s = record {
  command_id = w.uuid;
  path = path;
  requester = bounded session.gizmo_requester command_requester_limit;
  role = session.gizmo_role;
  parameters = bounded parameters command_parameter_limit;
  requested_at = w.utc;
  deadline_monotonic = w.monotonic + configured_timeout w.command_timeout (60 * second);
  verification = Verification.dispatching;
  start_sequence = s.last_good_measurement_sequence;
  start_pid = s.zmon_pid;
  expected_hash = w.binary_hash;
  expected_value = none;
  terminal_calibration_state = none;
  accepted_result = [];
  restore_attempted = false;
}

-- The reservation: the new command becomes the active one and the audit says "Accepted".
unfoldable pub reserve : World → ActiveCommand → Server → Server
unfolding publish_gate_state publish_audit persist_command_state
reserve w command s = persist_command_state w (
    publish_gate_state (
      publish_audit (record s {
        active_command = some command;
        audit = record {
          id = command.command_id;
          name = path_name command.path;
          parameters = command.parameters;
          requester = command.requester;
          state = CommandState.accepted;
          request_time = some w.utc;
          completion_time = none;
          result = text "Accepted; awaiting dispatch";
        };
      })))

-- A command that is running makes way for AbortCalibration only, and only if it calibrates.
unfoldable pub supersede : World → Session → CommandPath → Server → Option Server
supersede w session path s = elim s.active_command [
  | none ↦ some s
  | some previous ↦
      if is_abort_calibration path && is_calibrating previous.verification
      then some (
          finish_command w previous.command_id Terminal.failed
            (text "Superseded by AbortCalibration from " ++ session.gizmo_requester) false s)
      else none
]

-- `_begin_remote_command`
unfoldable pub begin_remote_command : World → Session → CommandPath → Text → Server → Begun × Server
begin_remote_command w session path parameters s = elim (denial session.gizmo_role path s) [
  | some (status, reason) ↦
      (refused status, record_rejected w path parameters session.gizmo_requester reason s)
  | none ↦ elim (supersede w session path s) [
    | none ↦ (
      refused bad_invalid_state,
      record_rejected w path parameters session.gizmo_requester
          (text "another mutating command is already running") s,
    )
    | some free ↦
        let command = new_command w session path parameters free in
        (began command, reserve w command free)
  ]
]
