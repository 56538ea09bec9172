-- ===== src/OpcUa/Coherence/Primitives.antt =====
-- The bookkeeping methods of src/python/gizmo_opcua.py and the coherence of the gate.
use gizmo.Prelude.{ℕ, ◌≡◌, refl, Bool, false, Option, some, arith, Option-cases, inl, inr}
use gizmo.Text.{Text}
use gizmo.OpcUa.State.{
  ActiveCommand, CalibrationState, CommandPath, Restoration, Terminal, Verification, Server, World,
}
use gizmo.OpcUa.Audit.{
  set_calibration_operation, record_rejected, close_command, finish_command, run_command,
  set_command_running, update_last_command_result,
}
use gizmo.OpcUa.Advance.{awaits_dispatch}
use gizmo.OpcUa.Coherence.{IsCoherent}

pub set_calibration_operation-IsCoherent :
    (w : World) (state : CalibrationState) (progress : Option ℕ) (result : Text)
    (restoration : Restoration) (terminal : Bool) (s : Server)
    → IsCoherent s
    → IsCoherent (set_calibration_operation w state progress result restoration terminal s)
unfolding set_calibration_operation
set_calibration_operation-IsCoherent w state progress result restoration terminal s h =
    (h.0, h.1, refl, h.3, h.4)

pub update_last_command_result-IsCoherent :
    (result : Text) (good : Bool) (s : Server)
    → IsCoherent s
    → IsCoherent (update_last_command_result result good s)
unfolding update_last_command_result
update_last_command_result-IsCoherent result good s h = h

pub record_rejected-IsCoherent :
    (w : World) (path : CommandPath) (parameters requester reason : Text) (s : Server)
    → IsCoherent s
    → IsCoherent (record_rejected w path parameters requester reason s)
unfolding record_rejected
record_rejected-IsCoherent w path parameters requester reason s h = ground arith

pub close_command-IsCoherent :
    (w : World) (state : Terminal) (result : Text) (fault_locked : Bool) (s : Server)
    → IsCoherent s
    → IsCoherent (close_command w state result fault_locked s)
unfolding close_command
close_command-IsCoherent w state result fault_locked s h = ground arith

pub finish_command-IsCoherent :
    (w : World) (command_id : Text) (state : Terminal) (result : Text) (fault_locked : Bool)
    (s : Server)
    → IsCoherent s
    → IsCoherent (finish_command w command_id state result fault_locked s)
unfolding finish_command
finish_command-IsCoherent w command_id state result fault_locked s h =
    ground (arith, close_command-IsCoherent w state result fault_locked s)

pub run_command-IsCoherent :
    (w : World) (active : ActiveCommand) (verification : Verification) (accepted : Text)
    (timeout : ℕ) (expected : Option ℕ) (terminal : Option CalibrationState) (s : Server)
    → awaits_dispatch verification ≡ false
    → s.active_command ≡ some active
    → IsCoherent s
    → IsCoherent (run_command w active verification accepted timeout expected terminal s)
unfolding run_command
run_command-IsCoherent w active verification accepted timeout expected terminal s v a h =
    ground arith

-- Where the reservation still stands, the server after `_set_command_running` is coherent.
pub set_command_running-IsCoherent :
    (w : World) (command_id : Text) (verification : Verification) (accepted : Text) (timeout : ℕ)
    (expected : Option ℕ) (terminal : Option CalibrationState) (s : Server) {s' : Server}
    → set_command_running w command_id verification accepted timeout expected terminal s ≡ some s'
    → awaits_dispatch verification ≡ false
    → IsCoherent s
    → IsCoherent s'
unfolding set_command_running
set_command_running-IsCoherent w command_id verification accepted timeout expected terminal s e v
      h =
    elim (Option-cases s.active_command) [
      | inl n ↦ ground arith
      | inr (c, a) ↦ ground (
        arith,
        run_command-IsCoherent w c verification accepted timeout expected terminal s v a h,
      )
    ]
