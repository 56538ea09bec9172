-- ===== src/Tests.antt =====
-- Concrete servers, commands and environments, and the theorems at them.
mod Archive
mod Servers
mod Gate
mod Advance
mod Recorder
mod Queries
mod Restart
mod Forward
mod Historian
mod Services
use gizmo.Prelude.{ℕ, Bool, true, false, Option, none, some, List, [], ◌∷◌}
use gizmo.Text.{Text, text}
use gizmo.OpcUa.State.{
  Role, GateMode, CommandState, CalibrationState, Restoration, Method, Setting, CommandPath,
  Verification, ActiveCommand, Audit, CalibrationOperation, Measurement, Published, NextRun, Nodes,
  Server, Reply, World, gate_state,
}
use gizmo.OpcUa.Gate.{Session}
use gizmo.OpcUa.Restore.{initial_audit, initial_calibration}

abbrev pub world : World
world = record {
  utc = 1_700_000_000_000_000;
  monotonic = 5_000_000;
  uuid = text "c1";
  reply = λ command. Reply.replied (text "ok");
  binary_hash = text "ab";
  adc_file = none;
  adc_max_bytes = 1000;
  adc_text = [];
  disk = true;
  disk_error = [];
  flag_read_back = true;
  command_timeout = none;
  calibration_timeout = none;
  restore_timeout = none;
}

abbrev pub maintainer : Session
maintainer = record { gizmo_requester = text "alice"; gizmo_role = Role.maintenance }

abbrev pub stranger : Session
stranger = record { gizmo_requester = text "anonymous"; gizmo_role = Role.anonymous }

abbrev pub measurement : Measurement
measurement = record {
  sequence = 8;
  good = true;
  sampled_at = 1_700_000_001_000_000;
  alarm_latched = false;
  alarm_active = false;
  threshold_ohm = some 500;
  averages_per_calculation = 100;
}

-- A command that waits for its readback.
abbrev pub command : Method → Verification → ActiveCommand
command m v = record {
  command_id = text "c0";
  path = CommandPath.method m;
  requester = text "alice";
  role = Role.maintenance;
  parameters = [];
  requested_at = 1_700_000_000_000_000;
  deadline_monotonic = 60_000_000;
  verification = v;
  start_sequence = 5;
  start_pid = 41;
  expected_hash = text "ab";
  expected_value = none;
  terminal_calibration_state = none;
  accepted_result = [];
  restore_attempted = false;
}

abbrev pub running_audit : Audit
running_audit = record {
  id = text "c0";
  name = text "RestoreNormalState";
  parameters = [];
  requester = text "alice";
  state = CommandState.running;
  request_time = some 1_700_000_000_000_000;
  completion_time = none;
  result = text "ok";
}

-- A server in maintenance mode, with a good measurement behind it.
abbrev pub server : Bool → Option ActiveCommand → Audit → Server
server locked active audit = record {
  effective_gate_mode = GateMode.maintenance;
  command_policy_reason = [];
  command_fault_locked = locked;
  active_command = active;
  audit = audit;
  calibration_operation = initial_calibration;
  command_state_file = none;
  published = record {
    command_gate_state = gate_state locked active GateMode.maintenance;
    audit = audit;
    calibration = initial_calibration;
    last_command_result = [];
    last_command_good = true;
  };
  next_run = record { measurement = 0; services = 0; calibration = 0; time = 0 };
  last_good_measurement_sequence = 8;
  last_good_measurement_at = some 1_700_000_001_000_000;
  last_measurement_snapshot = some measurement;
  zmon_pid = 42;
  latest_time_snapshot = none;
  last_threshold = 500;
  last_run_interval = 100;
  last_time = [];
  adc_ready_at = none;
  nodes = record {
    configuration_threshold = 500;
    legacy_threshold = 500;
    configuration_interval = 100;
    legacy_measurements = 100;
    legacy_set_time = [];
    legacy_clear_latch = [];
    legacy_calibrate = 0;
    legacy_read_adc = 0;
    legacy_normalize = 0;
    legacy_csv_data = [];
  };
  requests = [];
}
