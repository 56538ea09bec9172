-- ===== src/Tests/Gate.antt =====
-- The command gate at concrete requests.
use gizmo.Prelude.{◌≡◌, ◌↔◌, refl, Bool, true, false, none, [], ◌∷◌}
use gizmo.Text.{Text, text}
use gizmo.OpcUa.State.{Method, CommandPath, Server}
use gizmo.OpcUa.Methods.{Outcome, Arguments}
use gizmo.OpcUa.Dispatch.{Call, Write, remote_call, remote_write}
use gizmo.OpcUa.Gate.{denial, begin_remote_command}
use gizmo.OpcUa.Gate.Policy.{
  IsAdmitted, IsUntouched, has_begun, begun_iff_IsAdmitted, refused-IsUntouched,
}
use gizmo.OpcUa.Restore.{StateFile, restore_command_state, initial_audit}
use gizmo.OpcUa.Reachable.{started, next, called, Reachable-IsCoherent}
use gizmo.OpcUa.Coherence.{IsCoherent}
use gizmo.OpcUa.Advance.Lock.{remote_keeps_lock}
use gizmo.Tests.{world, maintainer, stranger, server}

abbrev idle : Server
idle = server false none initial_audit

abbrev clear_latch : CommandPath
clear_latch = CommandPath.method Method.clear_latch

begun_iff_IsAdmitted_example :
    (has_begun (begin_remote_command world maintainer clear_latch [] idle).0 ≡ true)
    ↔ IsAdmitted maintainer.gizmo_role clear_latch idle
begun_iff_IsAdmitted_example = begun_iff_IsAdmitted world maintainer clear_latch [] idle

stranger_refused : has_begun (begin_remote_command world stranger clear_latch [] idle).0 ≡ false
unfolding begin_remote_command denial
stranger_refused = refl

refused-IsUntouched_example :
    IsUntouched idle (begin_remote_command world stranger clear_latch [] idle).1
refused-IsUntouched_example =
    refused-IsUntouched world stranger clear_latch [] idle stranger_refused

is_good : Outcome → Bool
is_good (Outcome.returned t) = true
is_good Outcome.failed = false

status_text : Outcome → Text
status_text o = text "BadInvalidArgument"

abbrev booted : Server
booted = restore_command_state world StateFile.missing idle

abbrev clear_latch_call : Call
clear_latch_call = record { identifier = "Operations.ClearLatch"; arguments = Arguments.empty }

abbrev write_threshold : Write
write_threshold = record {
  identifier = "Configuration.ThresholdOhm";
  value = 700;
  accepted = true;
  status_text = [];
}

Reachable-IsCoherent_example :
    IsCoherent
      (remote_call is_good status_text maintainer ((world, clear_latch_call) ∷ []) booted).1
Reachable-IsCoherent_example = Reachable-IsCoherent is_good status_text (
    next (started world StateFile.missing idle (record { inactive = refl; unlocked = refl }))
      (called maintainer ((world, clear_latch_call) ∷ []) booted))

abbrev locked : Server
locked = server true none initial_audit

remote_keeps_lock_example :
    ((remote_call is_good status_text maintainer
        ((world, clear_latch_call) ∷ [])
        locked).1.command_fault_locked
      ≡ true)
    × ((remote_write world maintainer (write_threshold ∷ []) locked).1.command_fault_locked ≡ true)
remote_keeps_lock_example =
    remote_keeps_lock is_good status_text world maintainer ((world, clear_latch_call) ∷ [])
      (write_threshold ∷ []) locked refl
