-- ===== src/OpcUa/Forward/Resolved.antt =====
-- Servers of src/python/gizmo_opcua.py on which no write is pending.
use gizmo.Prelude.{ℕ, ◌≡◌, inl, inr, Bool, false, Option, none, some, arith, Option-cases}
use gizmo.Text.{Text}
use gizmo.OpcUa.State.{ActiveCommand, CalibrationState, Terminal, Verification, Server, World}
use gizmo.OpcUa.Audit.{
  set_calibration_operation, close_command, finish_command, run_command, set_command_running,
  update_last_command_result,
}
use gizmo.OpcUa.Advance.{awaits_dispatch}
use gizmo.OpcUa.Forward.{is_pending_write}
use gizmo.OpcUa.Keeps.{Keeps}
use gizmo.OpcUa.Keeps.Forward.{KeepsValues}

abbrev pub has_pending : Option ActiveCommand → Bool
has_pending none = false
has_pending (some c) = is_pending_write c.verification

-- No write is pending.
abbrev pub IsResolved : Server → Type 0
IsResolved s = has_pending s.active_command ≡ false

pub finish_command-IsResolved :
    (w : World) (command_id : Text) (state : Terminal) (result : Text) (lock : Bool) (s : Server)
    → IsResolved s
    → IsResolved (finish_command w command_id state result lock s)
unfolding finish_command close_command
finish_command-IsResolved w command_id state result lock s h = ground arith

pub set_command_running-IsResolved :
    (w : World) (command_id : Text) (v : Verification) (accepted : Text) (timeout : ℕ)
    (expected : Option ℕ) (terminal : Option CalibrationState) (s s' : Server)
    → set_command_running w command_id v accepted timeout expected terminal s ≡ some s'
    → awaits_dispatch v ≡ false
    → IsResolved s'
unfolding set_command_running run_command
set_command_running-IsResolved w command_id v accepted timeout expected terminal s s' e n =
    elim (Option-cases s.active_command) [
      | inl m ↦ ground (arith, m, e)
      | inr (c, a) ↦ ground (arith, a, e, n)
    ]

pub IsResolved-Keeps : Keeps IsResolved
unfolding set_calibration_operation update_last_command_result
IsResolved-Keeps = record {
  set_calibration = λ w st p r re t s h. h;
  finish = finish_command-IsResolved;
  start = λ w id v a t e term s s' eq now h.
      set_command_running-IsResolved w id v a t e term s s' eq now;
  last_result = λ r g s h. h;
  nodes_set = λ n s h. h;
  sent = λ r s h. h;
  adc_ready = λ a s h. h;
  rescheduled = λ n s h. h;
}

pub IsResolved-KeepsValues : KeepsValues IsResolved
IsResolved-KeepsValues = record {
  threshold = λ v s r h. h;
  interval = λ v s a b h. h;
  clock = λ t s h. h;
}
