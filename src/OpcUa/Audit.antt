-- ===== src/OpcUa/Audit.antt =====
-- The bookkeeping of src/python/gizmo_opcua.py: publication, the command-state file, and the
-- methods that reject, start and finish a command.
use Prim.Native.Nat.{max}
use gizmo.Prelude.{ℕ, ◌+◌, Bool, true, false, Option, none, some, if◌then◌else◌}
use gizmo.Text.{Text, text_eq}
use gizmo.OpcUa.Bounded.{bounded}
use gizmo.OpcUa.State.{
  CalibrationState, CommandState, Restoration, Terminal, terminal_state, Verification, CommandPath,
  path_name, ActiveCommand, Payload, Server, World, second, command_result_limit,
  command_parameter_limit, command_requester_limit, base_gate_state,
}

-- `_publish_gate_state`
unfoldable pub publish_gate_state : Server → Server
publish_gate_state s = record s {
  published = record s.published { command_gate_state = base_gate_state s };
}

-- `_publish_audit`
unfoldable pub publish_audit : Server → Server
publish_audit s = record s { published = record s.published { audit = s.audit } }

-- `_publish_calibration_operation`
unfoldable pub publish_calibration_operation : Server → Server
publish_calibration_operation s = record s {
  published = record s.published { calibration = s.calibration_operation };
}

abbrev pub payload : Server → Payload
payload s = record {
  fault_locked = s.command_fault_locked;
  audit = s.audit;
  calibration = s.calibration_operation;
}

-- `_persist_command_state`: a write that fails is reported and leaves the old file
unfoldable pub persist_command_state : World → Server → Server
persist_command_state w s = record s {
  command_state_file = if w.disk then some (payload s) else s.command_state_file;
}

-- `_update("Configuration.LastCommandResult", ...)`
unfoldable pub update_last_command_result : Text → Bool → Server → Server
update_last_command_result result good s = record s {
  published = record s.published { last_command_result = result; last_command_good = good };
}

-- `_set_calibration_operation`; every call passes a result and a restoration
unfoldable pub set_calibration_operation :
    World → CalibrationState → Option ℕ → Text → Restoration → Bool → Server → Server
unfolding publish_calibration_operation persist_command_state
set_calibration_operation w state progress result restoration terminal s = persist_command_state w (
    publish_calibration_operation (record s {
      calibration_operation = record {
        state = state;
        progress = progress;
        time = if terminal then some w.utc else s.calibration_operation.time;
        result = bounded result command_result_limit;
        restoration = restoration;
      };
    }))

-- `_record_rejected`
unfoldable pub record_rejected : World → CommandPath → Text → Text → Text → Server → Server
unfolding publish_gate_state publish_audit persist_command_state
record_rejected w path parameters requester reason s = elim s.active_command [
  | some c ↦ s
  | none ↦ persist_command_state w (
      publish_gate_state (
        publish_audit (record s {
          audit = record {
            id = w.uuid;
            name = path_name path;
            parameters = bounded parameters command_parameter_limit;
            requester = bounded requester command_requester_limit;
            state = CommandState.rejected;
            request_time = some w.utc;
            completion_time = some w.utc;
            result = bounded reason command_result_limit;
          };
        })))
]

abbrev is_succeeded : Terminal → Bool
is_succeeded Terminal.succeeded = true
is_succeeded _ = false

-- The body of `_finish_command` behind its guard.
unfoldable pub close_command : World → Terminal → Text → Bool → Server → Server
unfolding publish_gate_state publish_audit persist_command_state update_last_command_result
close_command w state result fault_locked s =
    let audit = record s.audit {
      state = terminal_state state;
      completion_time = some w.utc;
      result = bounded result command_result_limit;
    } in
    persist_command_state w (
      publish_gate_state (
        publish_audit (
          update_last_command_result (bounded result command_result_limit) (is_succeeded state)
            (record s {
              audit = audit;
              active_command = none;
              command_fault_locked = if fault_locked then true else s.command_fault_locked;
            }))))

-- `_finish_command`: it does nothing unless `command_id` is the active command
unfoldable pub finish_command : World → Text → Terminal → Text → Bool → Server → Server
finish_command w command_id state result fault_locked s = elim s.active_command [
  | none ↦ s
  | some c ↦
      if text_eq c.command_id command_id then close_command w state result fault_locked s else s
]

-- The body of `_set_command_running` behind its guard.
unfoldable pub run_command :
    World
    → ActiveCommand
    → Verification
    → Text
    → ℕ
    → Option ℕ
    → Option CalibrationState
    → Server
    → Server
unfolding publish_gate_state publish_audit persist_command_state
run_command w active verification accepted_result timeout expected terminal s =
    let s' = persist_command_state w (
      publish_gate_state (
        publish_audit (record s {
          active_command = some (record active {
            verification = verification;
            accepted_result = bounded accepted_result command_result_limit;
            expected_value = expected;
            terminal_calibration_state = terminal;
            deadline_monotonic = w.monotonic + max second timeout;
          });
          audit = record s.audit {
            state = CommandState.running;
            result = bounded accepted_result command_result_limit;
          };
        }))) in
    record s' { next_run = record s'.next_run { measurement = 0; services = 0 } }

-- `_set_command_running`: `none` where it raises "command reservation was lost"
unfoldable pub set_command_running :
    World
    → Text
    → Verification
    → Text
    → ℕ
    → Option ℕ
    → Option CalibrationState
    → Server
    → Option Server
set_command_running w command_id verification accepted_result timeout expected terminal s =
    elim s.active_command [
      | none ↦ none
      | some active ↦
          if text_eq active.command_id command_id
          then some (run_command w active verification accepted_result timeout expected terminal s)
          else none
    ]
