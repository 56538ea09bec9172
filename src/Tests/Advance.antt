-- ===== src/Tests/Advance.antt =====
-- The verification loop at concrete commands.
use gizmo.Prelude.{◌≡◌, ◌↔◌, ◌⊎◌, refl, true, false, none, some, arith}
use gizmo.Text.{text, text_eq}
use gizmo.OpcUa.State.{ActiveCommand, CommandState, Method, Server, Verification, path_name}
use gizmo.OpcUa.Gate.{is_restore_normal_state}
use gizmo.OpcUa.Audit.{finish_command, close_command, set_calibration_operation}
use gizmo.OpcUa.Readback.{normal_mode_verified, fresh_measurement_for}
use gizmo.OpcUa.Advance.{advance_verified, finish_restore, advance_waiting, advance_active_command}
use gizmo.OpcUa.Advance.ReadsBack.{IsNormalMode, verified_iff_IsNormalMode}
use gizmo.OpcUa.Advance.Evidence.{Evidence, success-Evidence}
use gizmo.OpcUa.Advance.Timeout.{IsRestoring, deadline_ends}
use gizmo.OpcUa.Advance.Lock.{lock_opens_by_restoration}
use gizmo.OpcUa.Forward.{
  forward_configuration_writes, ◌>>◌, send_threshold, forward_threshold, finish_unchanged,
  forward_interval, forward_time, forward_clear_latch, forward_calibrate, forward_read_adc,
  forward_normalize, forward_step, finish_adc_capture, loop_turn,
}
use gizmo.Tests.{world, server, command, running_audit}

abbrev restoring : ActiveCommand
restoring = command Method.restore_normal_state Verification.restore

abbrev locked_server : Server
locked_server = server true (some restoring) running_audit

verified_iff_IsNormalMode_example :
    ((normal_mode_verified world restoring locked_server).0 ≡ true)
    ↔ IsNormalMode world restoring locked_server
verified_iff_IsNormalMode_example = verified_iff_IsNormalMode world restoring locked_server

restored :
    (advance_active_command world 6_000_000 locked_server).audit.state ≡ CommandState.succeeded
unfolding advance_active_command advance_waiting normal_mode_verified fresh_measurement_for
    advance_verified finish_restore finish_command close_command set_calibration_operation text_eq
    text
restored = refl

success-Evidence_example : Evidence world restoring locked_server
success-Evidence_example =
    success-Evidence world 6_000_000 restoring locked_server refl (ground arith) restored

abbrev calibrating : ActiveCommand
calibrating = record (command Method.start_calibration Verification.calibration) { start_pid = 42 }

abbrev calibrating_server : Server
calibrating_server = server false (some calibrating) running_audit

deadline_ends_example :
    let t = advance_active_command world 60_000_000 calibrating_server in
    (t.active_command ≡ none)
    ⊎ ((Verification.calibration ≡ Verification.calibration)
        × IsRestoring world 60_000_000 calibrating t
        × ((advance_active_command world 90_000_000_000 t).active_command ≡ none))
deadline_ends_example =
    deadline_ends world world 60_000_000 90_000_000_000 calibrating calibrating_server refl refl
      (omega arith) (omega arith)

opened : (loop_turn world 6_000_000 locked_server).command_fault_locked ≡ false
unfolding loop_turn forward_step finish_adc_capture forward_configuration_writes ◌>>◌ send_threshold
    forward_threshold finish_unchanged forward_interval forward_time forward_clear_latch
    forward_calibrate forward_read_adc forward_normalize advance_active_command advance_waiting
    normal_mode_verified fresh_measurement_for advance_verified finish_restore finish_command
    close_command set_calibration_operation text_eq text
opened = refl

lock_opens_by_restoration_example :
    (c : ActiveCommand) × ((forward_step world
        (finish_adc_capture world 6_000_000 locked_server)).active_command
      ≡ some c)
    × (is_restore_normal_state c.path ≡ true)
    × IsNormalMode world c (forward_step world (finish_adc_capture world 6_000_000 locked_server))
lock_opens_by_restoration_example =
    lock_opens_by_restoration world 6_000_000 locked_server
      (refl, refl, refl, (refl, unfold path_name in refl, refl, refl, refl), refl) refl opened
