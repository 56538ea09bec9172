-- ===== src/OpcUa/Coherence/Steps.antt =====
-- The operations of the gate in src/python/gizmo_opcua.py, as instances of what `Keeps` asks for.
use gizmo.Prelude.{ℕ, ◌≡◌, false, not, ◌&&◌, none, some, arith}
use gizmo.Text.{Text}
use gizmo.OpcUa.State.{ActiveCommand, CommandPath, Verification, Server, World, gate_state}
use gizmo.Text.Equality.{text_eq_refl}
use gizmo.OpcUa.Audit.{
  set_calibration_operation, finish_command, close_command, persist_command_state, publish_audit,
}
use gizmo.OpcUa.Advance.{finish_restore, command_restoration}
use gizmo.OpcUa.Gate.{Session, new_command, reserve, is_restore_normal_state}
use gizmo.OpcUa.Dispatch.{mark_pending}
use gizmo.OpcUa.Keeps.{Keeps, KeepsReservation}
use gizmo.OpcUa.Keeps.Forward.{KeepsValues}
use gizmo.OpcUa.Keeps.Advance.{KeepsRestoration}
use gizmo.OpcUa.Coherence.{IsCoherent}
use gizmo.OpcUa.Coherence.Primitives.{
  set_calibration_operation-IsCoherent, record_rejected-IsCoherent, finish_command-IsCoherent,
  set_command_running-IsCoherent, update_last_command_result-IsCoherent,
}

reserve-IsCoherent :
    (w : World) (session : Session) (path : CommandPath) (parameters : Text) (s t : Server)
    → s.active_command ≡ none
    → (s.command_fault_locked && not (is_restore_normal_state path)) ≡ false
    → IsCoherent s
    → IsCoherent (reserve w (new_command w session path parameters t) s)
unfolding reserve new_command
reserve-IsCoherent w session path parameters s t free lock h = ground arith

mark_pending-IsCoherent :
    (command : ActiveCommand) (value : ℕ) (s : Server)
    → s.active_command ≡ some command
    → command.verification ≡ Verification.dispatching
    → IsCoherent s
    → IsCoherent (mark_pending command value s)
unfolding mark_pending gate_state
mark_pending-IsCoherent command value s active fresh h = ground arith

pub IsCoherent-Keeps : Keeps IsCoherent
IsCoherent-Keeps = record {
  set_calibration = set_calibration_operation-IsCoherent;
  finish = finish_command-IsCoherent;
  start = λ w id v a t e term s s' eq now h.
      set_command_running-IsCoherent w id v a t e term s eq now h;
  last_result = update_last_command_result-IsCoherent;
  nodes_set = λ n s h. h;
  sent = λ r s h. h;
  adc_ready = λ a s h. h;
  rescheduled = λ n s h. h;
}

pub IsCoherent-KeepsReservation : KeepsReservation IsCoherent
IsCoherent-KeepsReservation = record {
  rejected = record_rejected-IsCoherent;
  reserved = reserve-IsCoherent;
  marked = mark_pending-IsCoherent;
}

pub IsCoherent-KeepsValues : KeepsValues IsCoherent
IsCoherent-KeepsValues = record {
  threshold = λ v s r h. h;
  interval = λ v s a b h. h;
  clock = λ t s h. h;
}

restored-IsCoherent :
    (w : World) (c : ActiveCommand) (evidence : Text) (s : Server)
    → s.active_command ≡ some c
    → IsCoherent s
    → IsCoherent (finish_restore w c evidence s)
unfolding finish_restore set_calibration_operation finish_command close_command gate_state
restored-IsCoherent w c evidence s a h = ground (arith, text_eq_refl c.command_id)

restoring-IsCoherent :
    (w : World) (now : ℕ) (c : ActiveCommand) (reply : Text) (s : Server)
    → s.active_command ≡ some c
    → c.verification ≡ Verification.calibration
    → IsCoherent s
    → IsCoherent (command_restoration w now c reply s)
unfolding command_restoration set_calibration_operation persist_command_state publish_audit
    gate_state
restoring-IsCoherent w now c reply s a v h = ground arith

pub IsCoherent-KeepsRestoration : (w : World) (s : Server) → KeepsRestoration IsCoherent w s
IsCoherent-KeepsRestoration w s = record {
  restored = λ c e a v n h. restored-IsCoherent w c e s a h;
  restoring = λ now c r t a v h. restoring-IsCoherent w now c r t a v h;
}
