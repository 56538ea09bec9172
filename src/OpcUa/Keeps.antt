-- ===== src/OpcUa/Keeps.antt =====
-- Predicates on the server of src/python/gizmo_opcua.py that each bookkeeping step keeps: the interface
-- by which the methods, the reservations and the forwarding take an invariant.
pub mod Methods
pub mod Remote
pub mod Forward
pub mod Advance
use gizmo.Prelude.{ℕ, ◌≡◌, Bool, false, not, ◌&&◌, Option, none, some, List}
use gizmo.Text.{Text}
use gizmo.OpcUa.State.{
  ActiveCommand, CalibrationState, NextRun, Nodes, Restoration, Terminal, Verification, CommandPath,
  Server, World,
}
use gizmo.OpcUa.Audit.{
  set_calibration_operation, record_rejected, finish_command, set_command_running,
  update_last_command_result,
}
use gizmo.OpcUa.Gate.{Session, new_command, reserve, is_restore_normal_state}
use gizmo.OpcUa.Dispatch.{mark_pending}
use gizmo.OpcUa.Advance.{awaits_dispatch}

pub record Keeps (P : Server → Type 0) : Type 0 where
  pub set_calibration :
      (w : World) (state : CalibrationState) (progress : Option ℕ) (result : Text)
      (restoration : Restoration) (terminal : Bool) (s : Server)
      → P s
      → P (set_calibration_operation w state progress result restoration terminal s)
  pub finish :
      (w : World) (command_id : Text) (state : Terminal) (result : Text) (lock : Bool) (s : Server)
      → P s
      → P (finish_command w command_id state result lock s)
  pub start :
      (w : World) (command_id : Text) (verification : Verification) (accepted : Text) (timeout : ℕ)
      (expected : Option ℕ) (terminal : Option CalibrationState) (s s' : Server)
      → set_command_running w command_id verification accepted timeout expected terminal s ≡ some s'
      → awaits_dispatch verification ≡ false
      → P s
      → P s'
  pub last_result :
      (result : Text) (good : Bool) (s : Server)
      → P s
      → P (update_last_command_result result good s)
  pub nodes_set : (n : Nodes) (s : Server) → P s → P (record s { nodes = n })
  pub sent : (r : List Text) (s : Server) → P s → P (record s { requests = r })
  pub adc_ready : (at : Option ℕ) (s : Server) → P s → P (record s { adc_ready_at = at })
  pub rescheduled : (n : NextRun) (s : Server) → P s → P (record s { next_run = n })

-- The steps by which a reservation begins, for remote calls and writes.
pub record KeepsReservation (P : Server → Type 0) : Type 0 where
  pub rejected :
      (w : World) (path : CommandPath) (parameters requester reason : Text) (s : Server)
      → P s
      → P (record_rejected w path parameters requester reason s)
  -- a reservation is made where nothing is active and the lock lets the path through
  pub reserved :
      (w : World) (session : Session) (path : CommandPath) (parameters : Text) (s t : Server)
      → s.active_command ≡ none
      → (s.command_fault_locked && not (is_restore_normal_state path)) ≡ false
      → P s
      → P (reserve w (new_command w session path parameters t) s)
  -- a write is marked pending on the command that it has reserved
  pub marked :
      (command : ActiveCommand) (value : ℕ) (s : Server)
      → s.active_command ≡ some command
      → command.verification ≡ Verification.dispatching
      → P s
      → P (mark_pending command value s)
