-- ===== src/OpcUa/State.antt =====
-- The data of `GizmoOpcUaServer` in src/python/gizmo_opcua.py that the command gate reads and
-- writes. Times are microseconds: `utc` on the UTC clock, `monotonic` on the monotonic one.
-- Paths, role, mode, state and verification strings are enumerations of the spellings that
-- the source uses; free text is `Text`.
use Prim.Native.Nat.{max, min}
use gizmo.Prelude.{ℕ, ◌*◌, Bool, true, false, Option, none, some, List}
use gizmo.Text.{Text, text}

pub data Role : Type 0 where
  anonymous operator maintenance : Role

pub data GateMode : Type 0 where
  disabled operator maintenance : GateMode

-- `COMMAND_STATES`
pub data CommandState : Type 0 where
  idle accepted running succeeded failed rejected timed_out : CommandState

-- The states that `_finish_command` accepts; it raises on any other.
pub data Terminal : Type 0 where
  succeeded failed timed_out : Terminal

abbrev pub terminal_state : Terminal → CommandState
terminal_state Terminal.succeeded = CommandState.succeeded
terminal_state Terminal.failed = CommandState.failed
terminal_state Terminal.timed_out = CommandState.timed_out

pub data CalibrationState : Type 0 where
  idle starting running restoring completed failed aborted unknown : CalibrationState

pub data Restoration : Type 0 where
  not_required commanded verified failed unknown : Restoration

-- `CANONICAL_METHODS`
pub data Method : Type 0 where
  clear_latch start_calibration capture_adc normalize_magnitude set_system_time : Method
  restart_measurement_engine abort_calibration restore_normal_state : Method

-- `CANONICAL_WRITES`
pub data Setting : Type 0 where
  threshold_ohm averages_per_calculation : Setting

pub data CommandPath : Type 0 where
  method : Method → CommandPath
  setting : Setting → CommandPath

pub data Verification : Type 0 where
  dispatching pending_write clear_latch calibration calibration_timeout_restore : Verification
  capture_adc set_time restart restore threshold averages : Verification

pub data GateState : Type 0 where
  fault_locked busy disabled maintenance_locked ready : GateState

-- `ActiveCommand`. `path` stands for `name`, the last word of the path. `expected_value` is a
-- number in every use: a count, ohms, or microseconds of an epoch.
pub record ActiveCommand : Type 0 where
  pub command_id : Text
  pub path : CommandPath
  pub requester : Text
  pub role : Role
  pub parameters : Text
  pub requested_at : ℕ
  pub deadline_monotonic : ℕ
  pub verification : Verification
  pub start_sequence : ℕ
  pub start_pid : ℕ
  pub expected_hash : Text
  pub expected_value : Option ℕ
  pub terminal_calibration_state : Option CalibrationState
  pub accepted_result : Text
  pub restore_attempted : Bool

-- `_audit`
pub record Audit : Type 0 where
  pub id : Text
  pub name : Text
  pub parameters : Text
  pub requester : Text
  pub state : CommandState
  pub request_time : Option ℕ
  pub completion_time : Option ℕ
  pub result : Text

-- `_calibration_operation`
pub record CalibrationOperation : Type 0 where
  pub state : CalibrationState
  pub progress : Option ℕ
  pub time : Option ℕ
  pub result : Text
  pub restoration : Restoration

-- What `_persist_command_state` writes.
pub record Payload : Type 0 where
  pub fault_locked : Bool
  pub audit : Audit
  pub calibration : CalibrationOperation

-- The fields of a measurement snapshot that the gate reads.
pub record Measurement : Type 0 where
  pub sequence : ℕ
  pub good : Bool
  pub sampled_at : ℕ
  pub alarm_latched : Bool
  pub alarm_active : Bool
  pub threshold_ohm : Option ℕ
  pub averages_per_calculation : ℕ

-- The nodes of the address space that the gate publishes.
pub record Published : Type 0 where
  pub command_gate_state : GateState
  pub audit : Audit
  pub calibration : CalibrationOperation
  pub last_command_result : Text
  pub last_command_good : Bool

-- The categories whose next collection the gate brings forward: `_next_run[...] = 0.0`.
pub record NextRun : Type 0 where
  pub measurement : ℕ
  pub services : ℕ
  pub calibration : ℕ
  pub time : ℕ

-- The writable configuration nodes of both namespaces.
pub record Nodes : Type 0 where
  pub configuration_threshold : ℕ
  pub legacy_threshold : ℕ
  pub configuration_interval : ℕ
  pub legacy_measurements : ℕ
  pub legacy_set_time : Text
  pub legacy_clear_latch : Text
  pub legacy_calibrate : ℕ
  pub legacy_read_adc : ℕ
  pub legacy_normalize : ℕ
  pub legacy_csv_data : Text

pub record Server : Type 0 where
  pub effective_gate_mode : GateMode
  pub command_policy_reason : Text
  pub command_fault_locked : Bool
  pub active_command : Option ActiveCommand
  pub audit : Audit
  pub calibration_operation : CalibrationOperation
  pub command_state_file : Option Payload
  pub published : Published
  pub next_run : NextRun
  pub last_good_measurement_sequence : ℕ
  pub last_good_measurement_at : Option ℕ
  pub last_measurement_snapshot : Option Measurement
  pub zmon_pid : ℕ
  pub latest_time_snapshot : Option ℕ
  pub last_threshold : ℕ
  pub last_run_interval : ℕ
  pub last_time : Text
  pub adc_ready_at : Option ℕ
  pub nodes : Nodes
  -- the commands sent to the ZeroMQ server, the latest first
  pub requests : List Text

-- What a request to the ZeroMQ server comes back with: its reply, or an exception's text.
pub data Reply : Type 0 where
  replied raised : Text → Reply

-- What the environment answers in the course of one operation.
pub record World : Type 0 where
  pub utc : ℕ
  pub monotonic : ℕ
  pub uuid : Text
  pub reply : Text → Reply
  pub binary_hash : Text
  -- `adc.csv`: its modification time and its size, if it can be read
  pub adc_file : Option (ℕ × ℕ)
  pub adc_max_bytes : ℕ
  pub adc_text : Text
  -- `atomic_write` into the state directory succeeds
  pub disk : Bool
  pub disk_error : Text
  -- the magnitude flag reads back as 1
  pub flag_read_back : Bool
  -- timeouts from the environment, in microseconds; `none` if unset or not a number
  pub command_timeout : Option ℕ
  pub calibration_timeout : Option ℕ
  pub restore_timeout : Option ℕ

abbrev pub second : ℕ
second = 1_000_000

abbrev pub command_result_limit : ℕ
command_result_limit = 512

abbrev pub command_parameter_limit : ℕ
command_parameter_limit = 256

abbrev pub command_requester_limit : ℕ
command_requester_limit = 128

-- `_configured_timeout`: between one second and one day
unfoldable pub configured_timeout : Option ℕ → ℕ → ℕ
configured_timeout none default = min (max default second) (86_400 * second)
configured_timeout (some value) default = min (max value second) (86_400 * second)

-- `path.rsplit(".", 1)[-1]`
unfoldable pub path_name : CommandPath → Text
path_name (CommandPath.method Method.clear_latch) = text "ClearLatch"
path_name (CommandPath.method Method.start_calibration) = text "StartCalibration"
path_name (CommandPath.method Method.capture_adc) = text "CaptureAdc"
path_name (CommandPath.method Method.normalize_magnitude) = text "NormalizeMagnitude"
path_name (CommandPath.method Method.set_system_time) = text "SetSystemTime"
path_name (CommandPath.method Method.restart_measurement_engine) = text "RestartMeasurementEngine"
path_name (CommandPath.method Method.abort_calibration) = text "AbortCalibration"
path_name (CommandPath.method Method.restore_normal_state) = text "RestoreNormalState"
path_name (CommandPath.setting Setting.threshold_ohm) = text "ThresholdOhm"
path_name (CommandPath.setting Setting.averages_per_calculation) = text "AveragesPerCalculation"

-- `path in MAINTENANCE_METHODS`
abbrev pub is_maintenance : CommandPath → Bool
is_maintenance (CommandPath.method Method.clear_latch) = false
is_maintenance (CommandPath.method m) = true
is_maintenance (CommandPath.setting s) = false

-- `_base_gate_state`, of the three fields that it reads
unfoldable pub gate_state : Bool → Option ActiveCommand → GateMode → GateState
gate_state true active mode = GateState.fault_locked
gate_state false (some c) mode = GateState.busy
gate_state false none GateMode.disabled = GateState.disabled
gate_state false none GateMode.operator = GateState.maintenance_locked
gate_state false none GateMode.maintenance = GateState.ready

abbrev pub base_gate_state : Server → GateState
base_gate_state s = gate_state s.command_fault_locked s.active_command s.effective_gate_mode
