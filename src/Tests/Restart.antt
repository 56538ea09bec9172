-- ===== src/Tests/Restart.antt =====
-- Restarts from concrete command-state files, and bounded texts.
use gizmo.Prelude.{◌≤◌, ◌≡◌, refl, arith, length, true, false, none, some}
use gizmo.Text.{text, strip, lstrip, rstrip, is_space}
use gizmo.OpcUa.Bounded.{bounded, squash, truncate, is_control}
use gizmo.OpcUa.Bounded.Laws.{IsClean, bounded-IsClean, length-bounded, bounded-bounded}
use gizmo.OpcUa.State.{CalibrationState, CommandState, Payload, Server}
use gizmo.OpcUa.Audit.{payload}
use gizmo.OpcUa.Restore.{
  file_of, initial_audit, initial_calibration, is_open, restore_command_state,
}
use gizmo.OpcUa.Restore.RoundTrip.{IsPrinted, restore-file_of}
use gizmo.Tests.{world, server, running_audit}

abbrev interrupted : Payload
interrupted = record {
  fault_locked = false;
  audit = running_audit;
  calibration = initial_calibration;
}

abbrev booting : Server
booting = server false none initial_audit

interrupted-IsPrinted : IsPrinted interrupted
unfolding bounded squash truncate strip lstrip rstrip is_control is_space text
interrupted-IsPrinted = record {
  id = refl;
  name = refl;
  parameters = refl;
  requester = refl;
  result = refl;
  calibration_result = refl;
  progress = λ n e. ground (arith, e);
}

restore-file_of_example :
    let t = restore_command_state world (file_of (some interrupted)) booting in
    (is_open interrupted.audit.state ≡ false
      → (payload t ≡ interrupted) × (t.command_state_file ≡ booting.command_state_file))
    × (is_open interrupted.audit.state ≡ true
        → (t.audit.state ≡ CommandState.failed)
          × (t.audit.id ≡ interrupted.audit.id)
          × (t.calibration_operation.state ≡ CalibrationState.unknown)
          × (t.command_fault_locked ≡ true)
          × (world.disk ≡ true → t.command_state_file ≡ some (payload t)))
restore-file_of_example = restore-file_of world interrupted booting interrupted-IsPrinted refl

bounded-IsClean_example : IsClean (bounded (text "a\nb") 8)
bounded-IsClean_example = bounded-IsClean (text "a\nb") 8

length-bounded_example : length (bounded (text "measurement") 8) ≤ 8
length-bounded_example = length-bounded (text "measurement") 8 (omega arith)

bounded-bounded_example :
    bounded (bounded (text "measurement ") 8) 8 ≡ bounded (text "measurement ") 8
bounded-bounded_example = bounded-bounded (text "measurement ") 8 (omega arith)
