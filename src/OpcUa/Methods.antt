-- ===== src/OpcUa/Methods.antt =====
-- The bodies of the canonical methods of src/python/gizmo_opcua.py. A method returns its result
-- text or raises; what it wrote before it raises stays written.
use gizmo.Prelude.{
  ℕ, ◌*◌, ◌/◌, ◌+◌, Bool, true, false, not, ◌||◌, Option, none, some, [], ◌∷◌, ◌++◌, leb, ltb,
  length, if◌then◌else◌,
}
use gizmo.Text.{Text, text, strip, lower, starts_with, decimal}
use gizmo.OpcUa.Bounded.{bounded}
use gizmo.OpcUa.State.{
  CalibrationState, Restoration, Terminal, Verification, ActiveCommand, Server, World, Reply,
  replied, raised, second, command_result_limit, configured_timeout,
}
use gizmo.OpcUa.Audit.{
  set_calibration_operation, finish_command, set_command_running, update_last_command_result,
}

pub data Outcome : Type 0 where
  returned : Text → Outcome
  failed : Outcome

-- The input arguments of a call, by the variants that the methods declare.
pub data Arguments : Type 0 where
  empty : Arguments
  reads_per_point : ℕ → Arguments
  -- an OPC UA DateTime: microseconds of the epoch, and its ISO text
  requested_time : ℕ → Text → Arguments

-- `request`: the command goes out, and the reply or the exception comes back
unfoldable pub request : World → Text → Server → Reply × Server
request w command s = (w.reply command, record s { requests = command ∷ s.requests })

-- `text or "empty command response"`
abbrev or_empty : Text → Text
or_empty [] = text "empty command response"
or_empty t = t

-- `_require_accepted_reply`
unfoldable pub require_accepted_reply : Text → Reply
require_accepted_reply reply =
    let t = strip reply in
    if leb (length t) 0
      || starts_with (lower t) (text "command failed")
      || starts_with (lower t) (text "unknown command")
    then raised (or_empty t)
    else replied t

abbrev accept : Reply → Reply
accept (raised e) = raised e
accept (replied r) = require_accepted_reply r

-- `self._require_accepted_reply(self.request(command))`
unfoldable pub accepted_request : World → Text → Server → Reply × Server
unfolding request
accepted_request w command s = let (reply, sent) = request w command s in (accept reply, sent)

-- `_command_result`
unfoldable pub command_result : World → Text → Server → Outcome × Server
unfolding update_last_command_result
command_result w result s =
    let b = bounded result command_result_limit in (returned b, update_last_command_result b true s)

-- `except Exception as error: self._finish_command(..., "Failed", ...); raise`
unfoldable pub fail_command : World → ActiveCommand → Text → Bool → Server → Outcome × Server
fail_command w command message fault_locked s =
    (failed, finish_command w command.command_id Terminal.failed message fault_locked s)

-- `_set_command_running` and the method's result; a lost reservation goes to the handler.
unfoldable pub run_and_return :
    World
    → ActiveCommand
    → Verification
    → Text
    → ℕ
    → Option ℕ
    → Option CalibrationState
    → (Text → Server → Outcome × Server)
    → Server
    → Outcome × Server
run_and_return w command verification accepted timeout expected terminal handler s =
    elim (set_command_running w command.command_id verification accepted timeout expected terminal
      s) [
        | none ↦ handler (text "command reservation was lost") s
        | some running ↦ command_result w accepted running
      ]

abbrev pub command_timeout : World → ℕ
command_timeout w = configured_timeout w.command_timeout (60 * second)

abbrev pub restore_timeout : World → ℕ
restore_timeout w = configured_timeout w.restore_timeout (90 * second)

-- `try: reply = self._require_accepted_reply(self.request(command)); ... except: handler`
unfoldable pub try_request :
    World
    → Text
    → (Text → Server → Outcome × Server)
    → (Text → Server → Outcome × Server)
    → Server
    → Outcome × Server
try_request w command handler body s =
    let (reply, sent) = accepted_request w command s in
    elim reply [ raised e ↦ handler e sent | replied r ↦ body r sent ]

-- A handler that only finishes the command.
unfoldable pub fail_with : World → ActiveCommand → Text → Text → Server → Outcome × Server
fail_with w command message error s = fail_command w command (message ++ error) false s

-- A handler that fails the calibration operation too.
unfoldable pub fail_calibration :
    World → ActiveCommand → Text → Restoration → Bool → Text → Server → Outcome × Server
fail_calibration w command message restoration lock error s =
    fail_command w command (message ++ error) lock (
      set_calibration_operation w CalibrationState.failed none (message ++ error) restoration true
        s)

-- `clear_latch_method`
unfoldable pub clear_latch_method : World → ActiveCommand → Server → Outcome × Server
clear_latch_method w command =
    let handler = fail_with w command (text "ClearLatch failed: ") in
    try_request w (text "clear_latch") handler λ reply.
      run_and_return w command Verification.clear_latch
        (text "Accepted: " ++ reply ++ text "; awaiting fresh alarm readback") (command_timeout w)
        none none handler

abbrev reads_out_of_range : Text
reads_out_of_range = text "reads_per_point must be between 1 and 1000000"

-- The `try` statement of `start_calibration_method`.
unfoldable pub start_calibration : World → ActiveCommand → ℕ → Server → Outcome × Server
start_calibration w command reads =
    let handler =
      fail_calibration w command (text "StartCalibration failed: ") Restoration.unknown false in
    try_request w (text "CAL " ++ decimal reads) handler λ reply sent.
      let accepted =
        text "Accepted: " ++ reply ++ text "; calibration progress is not observable" in
      run_and_return w command Verification.calibration accepted
        (configured_timeout w.calibration_timeout (1800 * second)) (some reads)
        (some CalibrationState.completed) handler
        (set_calibration_operation w CalibrationState.running none accepted Restoration.unknown
          false sent)

-- `start_calibration_method`
unfoldable pub start_calibration_method : World → ActiveCommand → ℕ → Server → Outcome × Server
start_calibration_method w command reads s =
    if ltb reads 1 || ltb 1_000_000 reads
    then fail_command w command reads_out_of_range false s
    else start_calibration w command reads (
        set_calibration_operation w CalibrationState.starting none
          (text "Calibration requested with " ++ decimal reads ++ text " reads per point")
          Restoration.unknown false s)

-- `capture_adc_method`
unfoldable pub capture_adc_method : World → ActiveCommand → Server → Outcome × Server
capture_adc_method w command =
    let handler = fail_with w command (text "CaptureAdc failed: ") in
    try_request w (text "read_adc") handler λ reply sent.
      run_and_return w command Verification.capture_adc
        (text "Accepted: " ++ reply ++ text "; awaiting bounded ADC file and normal acquisition")
        (command_timeout w) (some command.requested_at) none handler
        (record sent { adc_ready_at = some (w.monotonic + 5 * second) })

-- `normalize_magnitude_method`. `atomic_write` raises where the disk refuses.
unfoldable pub normalize_magnitude_method : World → ActiveCommand → Server → Outcome × Server
normalize_magnitude_method w command s =
    if not w.disk
    then fail_with w command (text "NormalizeMagnitude failed: ") w.disk_error s
    else if not w.flag_read_back
    then fail_with w command (text "NormalizeMagnitude failed: ")
        (text "normalization request did not read back") s
    else let result = text "Magnitude normalization requested and state-file write verified" in
      let finished = finish_command w command.command_id Terminal.succeeded result false s in
      command_result w result
        (record finished { next_run = record finished.next_run { calibration = 0 } })

-- The `try` statement of `set_system_time_method`.
unfoldable pub set_system_time : World → ActiveCommand → ℕ → Server → Outcome × Server
set_system_time w command epoch_seconds =
    let handler = fail_with w command (text "SetSystemTime failed: ") in
    try_request w (text "set_time_epoch " ++ decimal epoch_seconds) handler λ reply sent.
      run_and_return w command Verification.set_time
        (text "Accepted: " ++ reply ++ text "; awaiting clock and acquisition readback")
        (command_timeout w) (some epoch_seconds) none handler
        (record sent { next_run = record sent.next_run { time = 0 } })

-- `set_system_time_method`, on an OPC UA DateTime
unfoldable pub set_system_time_method : World → ActiveCommand → ℕ → Server → Outcome × Server
set_system_time_method w command requested s =
    let epoch_seconds = requested / second in
    if ltb epoch_seconds 946_684_800 || ltb 4_102_444_800 epoch_seconds
    then fail_command w command (text "requested_time must be between 2000 and 2100") false s
    else set_system_time w command epoch_seconds s

abbrev pub run_request : Server → Text
run_request s = text "run " ++ decimal s.last_run_interval

-- `restart_measurement_engine_method`
unfoldable pub restart_measurement_engine_method : World → ActiveCommand → Server → Outcome × Server
restart_measurement_engine_method w command s =
    let handler = fail_with w command (text "RestartMeasurementEngine failed: ") in
    try_request w (run_request s) handler
      (λ reply.
        run_and_return w command Verification.restart
          (text "Accepted: "
            ++ reply
            ++ text "; awaiting new PID, executable hash, and fresh measurement")
          (command_timeout w) none none handler)
      s

-- What `abort_calibration_method` and `restore_normal_state_method` share: they differ in two
-- messages and in the calibration state that follows.
unfoldable pub restoring_method :
    World → ActiveCommand → Text → Text → CalibrationState → Server → Outcome × Server
restoring_method w command commanded failure terminal s =
    let handler = fail_calibration w command failure Restoration.failed true in
    try_request w (run_request s) handler
      (λ reply.
        run_and_return w command Verification.restore
          (text "Accepted: " ++ reply ++ text "; awaiting verified normal acquisition")
          (restore_timeout w) none (some terminal) handler)
      (set_calibration_operation w CalibrationState.restoring none commanded Restoration.commanded
        false s)

-- `abort_calibration_method`
unfoldable pub abort_calibration_method : World → ActiveCommand → Server → Outcome × Server
abort_calibration_method w command =
    restoring_method w command (text "Calibration abort accepted; commanding normal acquisition")
      (text "AbortCalibration restoration failed: ") CalibrationState.aborted

-- `restore_normal_state_method`
unfoldable pub restore_normal_state_method : World → ActiveCommand → Server → Outcome × Server
restore_normal_state_method w command =
    restoring_method w command (text "Normal acquisition requested")
      (text "RestoreNormalState failed: ") CalibrationState.idle
