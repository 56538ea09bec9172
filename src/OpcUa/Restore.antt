-- ===== src/OpcUa/Restore.antt =====
-- `_restore_command_state` of src/python/gizmo_opcua.py: what a restarted server makes of the
-- command-state file.
pub mod RoundTrip
use gizmo.Prelude.{
  ℕ, Bool, true, false, not, Option, none, some, [], ◌++◌, leb, ◌==◌, if◌then◌else◌,
}
use gizmo.Text.{Text, text}
use gizmo.OpcUa.Bounded.{bounded}
use gizmo.OpcUa.State.{
  CommandState, CalibrationState, Restoration, Audit, CalibrationOperation, Payload, Server, World,
  command_result_limit, command_parameter_limit, command_requester_limit,
}
use gizmo.OpcUa.Audit.{
  publish_gate_state, publish_audit, publish_calibration_operation, persist_command_state,
}

-- What the file decodes to, with the defaults of `get` filled in. A state is `none` if its string is
-- none of the allowed ones, a time if it does not parse.
pub record Stored : Type 0 where
  pub schema : ℕ
  pub fault_locked : Bool
  pub id : Text
  pub name : Text
  pub parameters : Text
  pub requester : Text
  pub state : Option CommandState
  pub request_time : Option ℕ
  pub completion_time : Option ℕ
  pub result : Text
  pub calibration_state : Option CalibrationState
  pub progress : Option ℕ
  pub calibration_time : Option ℕ
  pub calibration_result : Text
  pub restoration : Option Restoration

-- `missing` is FileNotFoundError; `unreadable` any other error of reading or decoding.
pub data StateFile : Type 0 where
  missing : StateFile
  unreadable : Text → StateFile
  decoded : Stored → StateFile

abbrev pub initial_audit : Audit
initial_audit = record {
  id = [];
  name = [];
  parameters = [];
  requester = [];
  state = CommandState.idle;
  request_time = none;
  completion_time = none;
  result = [];
}

abbrev pub initial_calibration : CalibrationOperation
initial_calibration = record {
  state = CalibrationState.idle;
  progress = none;
  time = none;
  result = [];
  restoration = Restoration.not_required;
}

unfoldable pub stored_audit : Stored → CommandState → Audit
stored_audit f state = record {
  id = bounded f.id 64;
  name = bounded f.name 96;
  parameters = bounded f.parameters command_parameter_limit;
  requester = bounded f.requester command_requester_limit;
  state = state;
  request_time = f.request_time;
  completion_time = f.completion_time;
  result = bounded f.result command_result_limit;
}

-- A progress outside 0 to 100 is dropped.
abbrev stored_progress : Option ℕ → Option ℕ
stored_progress none = none
stored_progress (some p) = if leb p 100 then some p else none

unfoldable pub stored_calibration : Stored → CalibrationState → Restoration → CalibrationOperation
stored_calibration f state restoration = record {
  state = state;
  progress = stored_progress f.progress;
  time = f.calibration_time;
  result = bounded f.calibration_result command_result_limit;
  restoration = restoration;
}

-- The handler of a file that is no valid command state.
unfoldable pub invalid_state : Text → Server → Server
invalid_state error s = record s {
  command_fault_locked = true;
  audit = record s.audit {
    result = bounded (text "Stored command state is invalid: " ++ error) command_result_limit;
  };
}

unfoldable pub load_calibration : Stored → Server → Server
unfolding invalid_state
load_calibration f s = elim f.calibration_state [
  | none ↦ invalid_state (text "invalid persisted calibration state") s
  | some state ↦ elim f.restoration [
    | none ↦ invalid_state (text "invalid persisted restoration state") s
    | some restoration ↦ record s {
      calibration_operation = stored_calibration f state restoration;
      command_fault_locked = f.fault_locked;
    }
  ]
]

-- The `try` statement.
unfoldable pub load : StateFile → Server → Server
load StateFile.missing s = s
load (StateFile.unreadable error) s = invalid_state error s
load (StateFile.decoded f) s =
    if not (f.schema == 1)
    then invalid_state (text "unsupported command-state schema") s
    else elim f.state [
      | none ↦ invalid_state (text "invalid persisted command state") s
      | some state ↦ load_calibration f (record s { audit = stored_audit f state })
    ]

abbrev pub is_open : CommandState → Bool
is_open CommandState.accepted = true
is_open CommandState.running = true
is_open _ = false

-- A command that the restart interrupted has failed, and the gate is locked.
unfoldable pub interrupt : World → Server → Server
unfolding persist_command_state
interrupt w s =
    if is_open s.audit.state
    then persist_command_state w (record s {
      audit = record s.audit {
        state = CommandState.failed;
        completion_time = some w.utc;
        result =
            bounded
              (text
                "OPC UA server restarted before command completion; normal state requires verification")
              command_result_limit;
      };
      calibration_operation = record {
        state = CalibrationState.unknown;
        progress = none;
        time = some w.utc;
        result = text "Command interrupted by OPC UA server restart";
        restoration = Restoration.unknown;
      };
      command_fault_locked = true;
    })
    else s

-- `_restore_command_state`, on a server whose constructor has just set its fields
unfoldable pub restore_command_state : World → StateFile → Server → Server
unfolding publish_gate_state publish_audit publish_calibration_operation
restore_command_state w file s = publish_gate_state (
    publish_calibration_operation (
      publish_audit (
        interrupt w (
          load file
            (record s { audit = initial_audit; calibration_operation = initial_calibration })))))

-- How a payload comes back from the file.
unfoldable pub stored_of : Payload → Stored
stored_of p = record {
  schema = 1;
  fault_locked = p.fault_locked;
  id = p.audit.id;
  name = p.audit.name;
  parameters = p.audit.parameters;
  requester = p.audit.requester;
  state = some p.audit.state;
  request_time = p.audit.request_time;
  completion_time = p.audit.completion_time;
  result = p.audit.result;
  calibration_state = some p.calibration.state;
  progress = p.calibration.progress;
  calibration_time = p.calibration.time;
  calibration_result = p.calibration.result;
  restoration = some p.calibration.restoration;
}

abbrev pub file_of : Option Payload → StateFile
file_of none = StateFile.missing
file_of (some p) = StateFile.decoded (stored_of p)
