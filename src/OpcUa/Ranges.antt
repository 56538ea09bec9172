-- ===== src/OpcUa/Ranges.antt =====
-- The threshold and the averaging count in force, which src/python/gizmo_opcua.py takes from its
-- writable nodes and sends on.
use gizmo.Prelude.{ℕ, ◌≤◌, ◌≡◌, Bool, Option, some, List, [], ◌∷◌, arith, if_ind, String}
use package.text.Mathlib.Text.{◌==◌ as str_eq}
use gizmo.Text.{Text}
use gizmo.OpcUa.State.{
  ActiveCommand, CalibrationState, CommandPath, Terminal, Verification, Server, World,
}
use gizmo.OpcUa.Audit.{
  set_calibration_operation, record_rejected, finish_command, close_command, set_command_running,
  run_command, update_last_command_result, publish_audit, persist_command_state,
}
use gizmo.OpcUa.Gate.{reserve}
use gizmo.OpcUa.Methods.{Outcome}
use gizmo.OpcUa.Dispatch.{mark_pending}
use gizmo.OpcUa.Advance.{finish_restore, command_restoration}
use gizmo.OpcUa.Samples.{apply_measurement, apply_time, apply_services}
use gizmo.OpcUa.Keeps.{Keeps, KeepsReservation}
use gizmo.OpcUa.Keeps.Forward.{KeepsValues}
use gizmo.OpcUa.Keeps.Remote.{remote_call-Keeps, remote_write-Keeps}
use gizmo.OpcUa.Keeps.Advance.{KeepsRestoration, loop_turn-Keeps}
use gizmo.OpcUa.Reachable.{Step, called, wrote, turned, measured, timed, listed}

-- The values in force are ones that the ZeroMQ server accepts.
abbrev pub InRange : Server → Type 0
InRange s =
    (s.last_threshold ≤ 1_000_000) × (1 ≤ s.last_run_interval) × (s.last_run_interval ≤ 1_000_000)

finish_command-InRange :
    (w : World) (command_id : Text) (state : Terminal) (result : Text) (lock : Bool) (s : Server)
    → InRange s
    → InRange (finish_command w command_id state result lock s)
unfolding finish_command close_command
finish_command-InRange w command_id state result lock s h = ground arith

set_command_running-InRange :
    (w : World) (command_id : Text) (v : Verification) (accepted : Text) (timeout : ℕ)
    (expected : Option ℕ) (terminal : Option CalibrationState) (s s' : Server)
    → set_command_running w command_id v accepted timeout expected terminal s ≡ some s'
    → InRange s
    → InRange s'
unfolding set_command_running run_command
set_command_running-InRange w command_id v accepted timeout expected terminal s s' e h =
    ground arith

record_rejected-InRange :
    (w : World) (path : CommandPath) (parameters requester reason : Text) (s : Server)
    → InRange s
    → InRange (record_rejected w path parameters requester reason s)
unfolding record_rejected
record_rejected-InRange w path parameters requester reason s h = ground arith

mark_pending-InRange :
    (c : ActiveCommand) (v : ℕ) (s : Server) → InRange s → InRange (mark_pending c v s)
unfolding mark_pending
mark_pending-InRange c v s h = ground arith

InRange-Keeps : Keeps InRange
unfolding set_calibration_operation update_last_command_result
InRange-Keeps = record {
  set_calibration = λ w st p r re t s h. h;
  finish = finish_command-InRange;
  start =
      λ w id v a t e term s s' eq now h. set_command_running-InRange w id v a t e term s s' eq h;
  last_result = λ r g s h. h;
  nodes_set = λ n s h. h;
  sent = λ r s h. h;
  adc_ready = λ a s h. h;
  rescheduled = λ n s h. h;
}

InRange-KeepsReservation : KeepsReservation InRange
unfolding reserve
InRange-KeepsReservation = record {
  rejected = record_rejected-InRange;
  reserved = λ w session path p s t f l h. h;
  marked = λ c v s a f h. mark_pending-InRange c v s h;
}

InRange-KeepsValues : KeepsValues InRange
InRange-KeepsValues = record {
  threshold = λ v s r h. (r, h.1, h.2);
  interval = λ v s a b h. (h.0, a, b);
  clock = λ t s h. h;
}

InRange-KeepsRestoration : (w : World) (s : Server) → KeepsRestoration InRange w s
unfolding finish_restore command_restoration set_calibration_operation publish_audit
    persist_command_state
InRange-KeepsRestoration w s = record {
  restored = λ c e a v n h. finish_command-InRange w _ _ _ _ _ h;
  restoring = λ now c r t a v h. h;
}

apply_services-InRange :
    (services : List (String × ℕ)) (s : Server) → InRange s → InRange (apply_services services s)
unfolding apply_services
apply_services-InRange [] s h = h
apply_services-InRange ((unit, pid) ∷ services) s h =
    apply_services-InRange services _ (if_ind InRange (str_eq unit "gizmo-zmon.service") _ _ h h)

-- No request, no turn of the main loop and no sample takes the threshold in force out of 0 to
-- 1,000,000 or the averaging count out of 1 to 1,000,000, once they are within.
pub Step-InRange :
    (is_good : Outcome → Bool) (status_text : Outcome → Text) {s t : Server}
    → Step is_good status_text s t
    → InRange s
    → InRange t
unfolding apply_measurement apply_time
Step-InRange is_good status_text (called session calls s) h =
    remote_call-Keeps InRange-Keeps InRange-KeepsReservation is_good status_text session calls s h
Step-InRange is_good status_text (wrote w session writes s) h =
    remote_write-Keeps InRange-Keeps InRange-KeepsReservation w session writes s h
Step-InRange is_good status_text (turned w now s) h =
    loop_turn-Keeps InRange-Keeps InRange-KeepsValues InRange-KeepsRestoration w now s h
Step-InRange is_good status_text (measured m s) h = if_ind InRange m.good _ _ h h
Step-InRange is_good status_text (timed o s) h = h
Step-InRange is_good status_text (listed services s) h = apply_services-InRange services s h
