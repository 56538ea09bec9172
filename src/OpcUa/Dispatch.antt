-- ===== src/OpcUa/Dispatch.antt =====
-- `_remote_call` and `_remote_write` of src/python/gizmo_opcua.py. What the OPC UA library answers
-- is a parameter: `is_good` and `status_text` are the status that it gives to a method's outcome, and
-- each write carries whether the library accepts it.
use package.text.Mathlib.Text.{◌==◌ as str_eq}
use gizmo.Prelude.{
  ℕ, Bool, false, Option, none, some, List, [], ◌∷◌, ◌++◌, map, String, if◌then◌else◌,
}
use gizmo.Text.{Text, text, text_eq, decimal}
use gizmo.OpcUa.Bounded.{bounded}
use gizmo.OpcUa.State.{
  Terminal, Method, Setting, CommandPath, Verification, ActiveCommand, Server, World,
  command_parameter_limit,
}
use gizmo.OpcUa.Audit.{finish_command}
use gizmo.OpcUa.Gate.{
  Session, StatusCode, bad_user_access_denied, bad_too_many_operations, began, refused,
  begin_remote_command,
}
use gizmo.OpcUa.Methods.{
  Outcome, Arguments, clear_latch_method, start_calibration_method, capture_adc_method,
  normalize_magnitude_method, set_system_time_method, restart_measurement_engine_method,
  abort_calibration_method, restore_normal_state_method, fail_command,
}

-- The identifier without "GIZMo.", if it is one of `CANONICAL_METHODS`.
unfoldable pub canonical_method : String → Option Method
canonical_method identifier =
    if str_eq identifier "GIZMo.Operations.ClearLatch"
    then some Method.clear_latch
    else if str_eq identifier "GIZMo.Operations.StartCalibration"
    then some Method.start_calibration
    else if str_eq identifier "GIZMo.Operations.CaptureAdc"
    then some Method.capture_adc
    else if str_eq identifier "GIZMo.Operations.NormalizeMagnitude"
    then some Method.normalize_magnitude
    else if str_eq identifier "GIZMo.Operations.SetSystemTime"
    then some Method.set_system_time
    else if str_eq identifier "GIZMo.Operations.RestartMeasurementEngine"
    then some Method.restart_measurement_engine
    else if str_eq identifier "GIZMo.Operations.AbortCalibration"
    then some Method.abort_calibration
    else if str_eq identifier "GIZMo.Operations.RestoreNormalState"
    then some Method.restore_normal_state
    else none

-- The identifier without "GIZMo.", if it is one of `CANONICAL_WRITES`.
unfoldable pub canonical_write : String → Option Setting
canonical_write identifier =
    if str_eq identifier "GIZMo.Configuration.ThresholdOhm"
    then some Setting.threshold_ohm
    else if str_eq identifier "GIZMo.Configuration.AveragesPerCalculation"
    then some Setting.averages_per_calculation
    else none

-- `_method_parameters`: compact JSON, or "{}" where there is nothing to say
unfoldable pub method_parameters : Method → Arguments → Text
method_parameters Method.start_calibration (Arguments.reads_per_point n) =
    bounded (text "{\"reads_per_point\":" ++ decimal n ++ text "}") command_parameter_limit
method_parameters Method.set_system_time (Arguments.requested_time t iso) =
    bounded (text "{\"requested_time\":\"" ++ iso ++ text "\"}") command_parameter_limit
method_parameters Method.set_system_time (Arguments.reads_per_point n) =
    bounded (text "{\"requested_time\":\"" ++ decimal n ++ text "\"}") command_parameter_limit
method_parameters m arguments = text "{}"

-- `_current_command`: `none` where it raises
unfoldable pub current_command : Text → Server → Option ActiveCommand
current_command command_id s = elim s.active_command [
  | none ↦ none
  | some active ↦ if text_eq active.command_id command_id then some active else none
]

-- The library calls the method's callback; wrong arguments raise before the body runs, but for
-- `set_system_time_method`, which tests its own.
unfoldable pub run_method : World → ActiveCommand → Method → Arguments → Server → Outcome × Server
run_method w c Method.clear_latch Arguments.empty s = clear_latch_method w c s
run_method w c Method.start_calibration (Arguments.reads_per_point n) s =
    start_calibration_method w c n s
run_method w c Method.capture_adc Arguments.empty s = capture_adc_method w c s
run_method w c Method.normalize_magnitude Arguments.empty s = normalize_magnitude_method w c s
run_method w c Method.set_system_time (Arguments.requested_time t iso) s =
    set_system_time_method w c t s
run_method w c Method.set_system_time (Arguments.reads_per_point n) s =
    fail_command w c (text "requested_time must be an OPC UA DateTime") false s
run_method w c Method.restart_measurement_engine Arguments.empty s =
    restart_measurement_engine_method w c s
run_method w c Method.abort_calibration Arguments.empty s = abort_calibration_method w c s
run_method w c Method.restore_normal_state Arguments.empty s = restore_normal_state_method w c s
run_method w c m arguments s = (Outcome.failed, s)

unfoldable pub dispatch : World → Text → Method → Arguments → Server → Outcome × Server
dispatch w command_id m arguments s = elim (current_command command_id s) [
  | none ↦ (Outcome.failed, s)
  | some c ↦ run_method w c m arguments s
]

pub data CallResult : Type 0 where
  called : Outcome → CallResult
  call_error : StatusCode → CallResult

pub record Call : Type 0 where
  pub identifier : String
  pub arguments : Arguments

module _ (is_good : Outcome → Bool) (status_text : Outcome → Text) where
  -- What follows a successful reservation in `_remote_call`.
  unfoldable pub dispatch_reserved :
      World → ActiveCommand → Method → Arguments → Server → CallResult × Server
  dispatch_reserved w command m arguments s =
      let (outcome, after) = dispatch w command.command_id m arguments s in
      (
        CallResult.called outcome,
        if is_good outcome
            then after
            else finish_command w command.command_id Terminal.failed
                (text "Method dispatch failed: " ++ status_text outcome) false after,
      )

  -- One round of the loop in `_remote_call`.
  unfoldable pub remote_call_one : World → Session → Call → Server → CallResult × Server
  remote_call_one w session call s = elim (canonical_method call.identifier) [
    | none ↦ (CallResult.call_error bad_user_access_denied, s)
    | some m ↦
        let (begun, reserved) =
          begin_remote_command w session (CommandPath.method m) (method_parameters m call.arguments)
            s in
        elim begun [
          | refused status ↦ (CallResult.call_error status, reserved)
          | began command ↦ dispatch_reserved w command m call.arguments reserved
        ]
  ]

  -- `_remote_call`, with the world as each request finds it
  unfoldable pub remote_call : Session → List (World × Call) → Server → List CallResult × Server
  remote_call session [] s = ([], s)
  remote_call session ((w, call) ∷ rest) s =
      let (result, s') = remote_call_one w session call s in
      let (results, s'') = remote_call session rest s' in (result ∷ results, s'')

pub data WriteResult : Type 0 where
  good : WriteResult
  write_error : StatusCode → WriteResult
  -- the library refused the write
  library_error : WriteResult

pub record Write : Type 0 where
  pub identifier : String
  pub value : ℕ
  pub accepted : Bool
  pub status_text : Text

-- The library stores the value in the node.
unfoldable pub store_node : Setting → ℕ → Server → Server
store_node Setting.threshold_ohm v s = record s {
  nodes = record s.nodes { configuration_threshold = v };
}
store_node Setting.averages_per_calculation v s = record s {
  nodes = record s.nodes { configuration_interval = v };
}

-- `command.verification = "pending-write"; command.expected_value = requested`, on the object that
-- the reservation made. It is the active command if no other step has finished it meanwhile.
unfoldable pub mark_pending : ActiveCommand → ℕ → Server → Server
mark_pending command requested s = elim s.active_command [
  | none ↦ s
  | some active ↦
      if text_eq active.command_id command.command_id
      then record s {
        active_command = some (record active {
          verification = Verification.pending_write;
          expected_value = some requested;
        });
      }
      else s
]

unfoldable pub write_one : World → Session → Write → Server → WriteResult × Server
write_one w session write s = elim (canonical_write write.identifier) [
  | none ↦ (WriteResult.write_error bad_user_access_denied, s)
  | some setting ↦
      let (begun, reserved) =
        begin_remote_command w session (CommandPath.setting setting)
          (bounded (text "{\"value\":" ++ decimal write.value ++ text "}") command_parameter_limit)
          s in
      elim begun [
        | refused status ↦ (WriteResult.write_error status, reserved)
        | began command ↦
            if write.accepted
            then (
              WriteResult.good,
              mark_pending command write.value (store_node setting write.value reserved),
            )
            else (
              WriteResult.library_error,
              finish_command w command.command_id Terminal.failed
                  (text "OPC UA write failed: " ++ write.status_text) false reserved,
            )
      ]
]

-- `_remote_write`: exactly one write at a time
unfoldable pub remote_write : World → Session → List Write → Server → List WriteResult × Server
remote_write w session (write ∷ []) s =
    let (result, s') = write_one w session write s in (result ∷ [], s')
remote_write w session writes s =
    (map (λ _. WriteResult.write_error bad_too_many_operations) writes, s)
