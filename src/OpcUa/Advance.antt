-- ===== src/OpcUa/Advance.antt =====
-- `_advance_active_command` of src/python/gizmo_opcua.py: readback verification, timeouts and the
-- automatic restoration of normal acquisition.
pub mod ReadsBack
pub mod Evidence
pub mod Timeout
pub mod Lock
use gizmo.Prelude.{
  ℕ, ◌*◌, ◌+◌, Bool, true, false, not, ◌&&◌, Option, none, some, [], ◌++◌, leb, ltb, ◌==◌,
  if◌then◌else◌,
}
use gizmo.Text.{Text, text, text_eq, decimal}
use gizmo.OpcUa.Bounded.{bounded}
use gizmo.OpcUa.State.{
  CalibrationState, Restoration, Terminal, Verification, ActiveCommand, Server, World, replied,
  raised, second, command_result_limit,
}
use gizmo.OpcUa.Audit.{
  publish_audit, persist_command_state, set_calibration_operation, finish_command,
}
use gizmo.OpcUa.Methods.{accepted_request, run_request, restore_timeout}
use gizmo.OpcUa.Readback.{
  fresh_measurement_for, is_empty, normal_mode_verified, latch_readback, threshold_reads_back,
  averages_read_back, time_reads_back, adc_reads_back,
}

abbrev expected_number : ActiveCommand → ℕ
expected_number c = elim c.expected_value [ none ↦ 0 | some n ↦ n ]

abbrev adc_size : World → ℕ
adc_size w = elim w.adc_file [ none ↦ 0 | some (mtime, size) ↦ size ]

abbrev pub succeed : World → ActiveCommand → Text → Server → Server
succeed w c result s = finish_command w c.command_id Terminal.succeeded result false s

-- `command.terminal_calibration_state or "Idle"`
abbrev terminal_or_idle : Option CalibrationState → CalibrationState
terminal_or_idle none = CalibrationState.idle
terminal_or_idle (some t) = t

-- The branch of "calibration" in normal mode.
unfoldable pub finish_calibration : World → ActiveCommand → Text → Server → Server
finish_calibration w c evidence s =
    let result =
      text
        "Calibration sweep completed and normal acquisition resumed; new tables remain subject to independent validation and activation; "
      ++ evidence in
    let s' =
      set_calibration_operation w CalibrationState.completed (some 100) result Restoration.verified
        true s in
    succeed w c result (record s' { next_run = record s'.next_run { calibration = 0 } })

-- The branch of "calibration-timeout-restore" in normal mode.
unfoldable pub finish_timeout_restore : World → ActiveCommand → Text → Server → Server
finish_timeout_restore w c evidence s =
    let result =
      text "Calibration timed out; normal acquisition restoration verified; " ++ evidence in
    finish_command w c.command_id Terminal.timed_out result false
      (set_calibration_operation w CalibrationState.failed none result Restoration.verified true s)

-- The branch of "restore" in normal mode: it alone opens the fault lock.
unfoldable pub finish_restore : World → ActiveCommand → Text → Server → Server
finish_restore w c evidence s =
    let result = text "Normal acquisition restoration verified; " ++ evidence in
    succeed w c result (
      set_calibration_operation w (terminal_or_idle c.terminal_calibration_state) none result
        Restoration.verified true (record s { command_fault_locked = false }))

-- The branches under `if verified`, by what the command waits for; `none` where none of them
-- returns.
unfoldable pub advance_verified :
    World → ActiveCommand → Verification → Text → Server → Option Server
advance_verified w c Verification.threshold evidence s =
    if threshold_reads_back c s
    then some (
        succeed w c
          (text "Threshold readback "
            ++ decimal (expected_number c)
            ++ text " ohm verified; "
            ++ evidence)
          s)
    else none
advance_verified w c Verification.averages evidence s =
    if averages_read_back c s
    then some (
        succeed w c
          (text "Averaging readback "
            ++ decimal (expected_number c)
            ++ text " verified; "
            ++ evidence)
          s)
    else none
advance_verified w c Verification.restart evidence s =
    some (succeed w c (text "Measurement-engine restart verified; " ++ evidence) s)
advance_verified w c Verification.calibration evidence s = some (finish_calibration w c evidence s)
advance_verified w c Verification.calibration_timeout_restore evidence s =
    some (finish_timeout_restore w c evidence s)
advance_verified w c Verification.restore evidence s = some (finish_restore w c evidence s)
advance_verified w c Verification.set_time evidence s =
    if time_reads_back c s
    then some (succeed w c (text "System-time and acquisition readback verified; " ++ evidence) s)
    else none
advance_verified w c Verification.capture_adc evidence s =
    if adc_reads_back w c
    then some (
        succeed w c
          (text "ADC capture "
            ++ decimal (adc_size w)
            ++ text " bytes and normal acquisition verified; "
            ++ evidence)
          s)
    else none
advance_verified w c v evidence s = none

-- The automatic restoration of a calibration that has run out of time.
unfoldable pub command_restoration : World → ℕ → ActiveCommand → Text → Server → Server
command_restoration w now c reply s =
    let result =
      bounded (text "Calibration timed out; restoration commanded: " ++ reply)
        command_result_limit in
    let commanded =
      set_calibration_operation w CalibrationState.restoring none result Restoration.commanded false
        (record s {
          active_command = some (record c {
            restore_attempted = true;
            verification = Verification.calibration_timeout_restore;
            start_sequence = s.last_good_measurement_sequence;
            start_pid = s.zmon_pid;
            deadline_monotonic = now + restore_timeout w;
          });
          audit = record s.audit { result = result };
        }) in
    let s' = persist_command_state w (publish_audit commanded) in
    record s' { next_run = record s'.next_run { measurement = 0; services = 0 } }

-- `fault`: the verifications whose timeout locks the gate
abbrev pub locks_gate : Verification → Bool
locks_gate Verification.calibration = true
locks_gate Verification.calibration_timeout_restore = true
locks_gate Verification.restore = true
locks_gate Verification.restart = true
locks_gate _ = false

abbrev pub fails_calibration : Verification → Bool
fails_calibration Verification.calibration = true
fails_calibration Verification.calibration_timeout_restore = true
fails_calibration Verification.restore = true
fails_calibration _ = false

unfoldable pub time_out : World → ActiveCommand → Text → Server → Server
time_out w c evidence s =
    let result = text "Command verification timed out: " ++ evidence in
    finish_command w c.command_id Terminal.timed_out result (locks_gate c.verification) (
      if fails_calibration c.verification
      then set_calibration_operation w CalibrationState.failed none result Restoration.failed true s
      else s)

abbrev pub is_calibration : Verification → Bool
is_calibration Verification.calibration = true
is_calibration _ = false

-- What follows the test of the deadline.
unfoldable pub overdue : World → ℕ → ActiveCommand → Text → Server → Server
overdue w now c evidence s =
    if is_calibration c.verification && not c.restore_attempted
    then (let (reply, sent) = accepted_request w (run_request s) s in
        elim reply [
          | replied r ↦ command_restoration w now c r sent
          | raised e ↦ time_out w c (text "automatic normal-state restoration failed: " ++ e) sent
        ])
    else time_out w c evidence s

-- A command that waits for its readback.
unfoldable pub advance_waiting : World → ℕ → ActiveCommand → Server → Server
advance_waiting w now c s =
    let (verified, evidence) = normal_mode_verified w c s in
    let late = if ltb now c.deadline_monotonic then s else overdue w now c evidence s in
    if verified
    then elim (advance_verified w c c.verification evidence s) [ some s' ↦ s' | none ↦ late ]
    else late

abbrev pub awaits_dispatch : Verification → Bool
awaits_dispatch Verification.dispatching = true
awaits_dispatch Verification.pending_write = true
awaits_dispatch _ = false

abbrev pub is_clear_latch : Verification → Bool
is_clear_latch Verification.clear_latch = true
is_clear_latch _ = false

-- `_advance_active_command`
unfoldable pub advance_active_command : World → ℕ → Server → Server
advance_active_command w now s = elim s.active_command [
  | none ↦ s
  | some c ↦
      if awaits_dispatch c.verification
      then s
      else if is_clear_latch c.verification
      then elim (latch_readback c s) [
        | some result ↦ succeed w c result s
        | none ↦ advance_waiting w now c s
      ]
      else advance_waiting w now c s
]
