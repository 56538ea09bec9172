-- ===== src/OpcUa/Restore/RoundTrip.antt =====
-- A restart from the command-state file of the server before.
use mathlib.Core.Path.{ap₂}
use gizmo.Prelude.{ℕ, ◌≤◌, ◌≡◌, true, false, none, some, arith, Option-cases, inl, inr}
use gizmo.OpcUa.Bounded.{bounded}
use gizmo.OpcUa.State.{CalibrationState, CommandState, Payload, Server, World}
use gizmo.OpcUa.Audit.{payload}
use gizmo.OpcUa.Restore.{
  StateFile, stored_audit, stored_calibration, load, load_calibration, interrupt, is_open,
  restore_command_state, stored_of, file_of, initial_audit, initial_calibration,
}

-- Text that is within its limit and has nothing for `_bounded` to change; a progress is a percentage.
pub record IsPrinted (p : Payload) : Type 0 where
  pub id : bounded p.audit.id 64 ≡ p.audit.id
  pub name : bounded p.audit.name 96 ≡ p.audit.name
  pub parameters : bounded p.audit.parameters 256 ≡ p.audit.parameters
  pub requester : bounded p.audit.requester 128 ≡ p.audit.requester
  pub result : bounded p.audit.result 512 ≡ p.audit.result
  pub calibration_result : bounded p.calibration.result 512 ≡ p.calibration.result
  pub progress : (n : ℕ) → p.calibration.progress ≡ some n → n ≤ 100

stored_audit-stored_of :
    (p : Payload) → IsPrinted p → stored_audit (stored_of p) p.audit.state ≡ p.audit
unfolding stored_audit stored_of
stored_audit-stored_of p h = ground (arith, h.id, h.name, h.parameters, h.requester, h.result)

stored_calibration-stored_of :
    (p : Payload)
    → IsPrinted p
    → stored_calibration (stored_of p) p.calibration.state p.calibration.restoration ≡ p.calibration
unfolding stored_calibration stored_of
stored_calibration-stored_of p h = elim (Option-cases p.calibration.progress) [
  | inl n ↦ ground (arith, h.calibration_result)
  | inr (n, e) ↦ ground (arith, h.calibration_result, h.progress n e)
]

-- What the file of `p` loads.
abbrev holding : Payload → Server → Server
holding p s = record s {
  audit = p.audit;
  calibration_operation = p.calibration;
  command_fault_locked = p.fault_locked;
}

load-stored_of :
    (p : Payload) (s : Server)
    → IsPrinted p
    → load (StateFile.decoded (stored_of p)) s ≡ holding p s
unfolding load load_calibration stored_of
load-stored_of p s h =
    ap₂
      (λ a c. record s {
        audit = a;
        calibration_operation = c;
        command_fault_locked = p.fault_locked;
      })
      (stored_audit-stored_of p h) (stored_calibration-stored_of p h)

-- A server that starts from the payload of a command that is over has the audit, the calibration
-- operation and the lock of the payload, and leaves the file alone. From the payload of a command
-- that was accepted or running it starts with the command failed, the calibration operation
-- unknown and the gate locked, and with the same written back if the disk lets it.
pub restore-file_of :
    (w : World) (p : Payload) (s : Server)
    → IsPrinted p
    → s.active_command ≡ none
    → let t = restore_command_state w (file_of (some p)) s in
      (is_open p.audit.state ≡ false
        → (payload t ≡ p) × (t.command_state_file ≡ s.command_state_file))
      × (is_open p.audit.state ≡ true
          → (t.audit.state ≡ CommandState.failed)
            × (t.audit.id ≡ p.audit.id)
            × (t.calibration_operation.state ≡ CalibrationState.unknown)
            × (t.command_fault_locked ≡ true)
            × (w.disk ≡ true → t.command_state_file ≡ some (payload t)))
unfolding restore_command_state interrupt
restore-file_of w p s h a =
    let start = record s { audit = initial_audit; calibration_operation = initial_calibration } in
    let e : load (StateFile.decoded (stored_of p)) start ≡ holding p s = load-stored_of p start h in
    rw e ((λ c. ground arith), (λ o. ground arith))
