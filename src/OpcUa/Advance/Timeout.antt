-- ===== src/OpcUa/Advance/Timeout.antt =====
-- The deadlines of `_advance_active_command` in src/python/gizmo_opcua.py.
use gizmo.Prelude.{
  ℕ, ◌+◌, ◌*◌, ◌≤◌, ◌≡◌, ◌⊎◌, refl, Bool, true, false, not, ◌&&◌, Option, none, some, arith,
  Option-cases, inl, inr, ltb, if◌then◌else◌, if_ind, if_cases,
}
use gizmo.Text.{Text}
use gizmo.Text.Equality.{text_eq_refl}
use gizmo.OpcUa.State.{
  ActiveCommand, CalibrationState, Restoration, Terminal, Verification, Server, World, second,
  configured_timeout,
}
use gizmo.OpcUa.Audit.{
  set_calibration_operation, finish_command, close_command, publish_audit, persist_command_state,
  publish_calibration_operation,
}
use gizmo.OpcUa.Methods.{accepted_request, run_request, restore_timeout}
use gizmo.OpcUa.Keeps.Methods.{Reply-cases}
use gizmo.OpcUa.Keeps.Advance.{is_calibration_eq}
use gizmo.OpcUa.Readback.{normal_mode_verified, latch_readback}
use gizmo.OpcUa.Advance.{
  advance_verified, finish_calibration, finish_timeout_restore, finish_restore, succeed, time_out,
  overdue, fails_calibration, locks_gate, command_restoration, advance_waiting,
  advance_active_command, awaits_dispatch, is_clear_latch, is_calibration,
}

-- No command is active.
abbrev IsIdle : Server → Type 0
IsIdle s = s.active_command ≡ none

finish_command-IsIdle :
    (w : World) (c : ActiveCommand) (st : Terminal) (r : Text) (l : Bool) (s : Server)
    → s.active_command ≡ some c
    → IsIdle (finish_command w c.command_id st r l s)
unfolding finish_command close_command
finish_command-IsIdle w c st r l s a = ground (arith, text_eq_refl c.command_id)

set_calibration-active :
    (w : World) (st : CalibrationState) (p : Option ℕ) (r : Text) (re : Restoration) (t : Bool)
    (s : Server) {c : ActiveCommand}
    → s.active_command ≡ some c
    → (set_calibration_operation w st p r re t s).active_command ≡ some c
unfolding set_calibration_operation
set_calibration-active w st p r re t s a = a

time_out-IsIdle :
    (w : World) (c : ActiveCommand) (e : Text) (s : Server)
    → s.active_command ≡ some c
    → IsIdle (time_out w c e s)
unfolding time_out
time_out-IsIdle w c e s a = finish_command-IsIdle w c _ _ (locks_gate c.verification) _ (
    if_ind (λ (t : Server). t.active_command ≡ some c) (fails_calibration c.verification) _ _
      (set_calibration-active w _ _ _ _ _ s a) a)

-- The calibration has run out of time, its restoration is under way and has a deadline of its own.
pub record IsRestoring (w : World) (now : ℕ) (c : ActiveCommand) (s : Server) : Type 0 where
  pub begun : ActiveCommand
  pub active : s.active_command ≡ some begun
  pub same : begun.command_id ≡ c.command_id
  pub waits : begun.verification ≡ Verification.calibration_timeout_restore
  pub attempted : begun.restore_attempted ≡ true
  pub deadline : begun.deadline_monotonic ≡ now + restore_timeout w
  pub operation : s.calibration_operation.state ≡ CalibrationState.restoring

configured_timeout-le : (t : Option ℕ) (d : ℕ) → configured_timeout t d ≤ 86_400 * second
unfolding configured_timeout
configured_timeout-le none d = omega arith
configured_timeout-le (some v) d = omega arith

command_restoration-IsRestoring :
    (w : World) (now : ℕ) (c : ActiveCommand) (r : Text) (s : Server)
    → IsRestoring w now c (command_restoration w now c r s)
unfolding command_restoration set_calibration_operation publish_audit persist_command_state
    publish_calibration_operation
command_restoration-IsRestoring w now c r s = record {
  begun = _;
  active = refl;
  same = refl;
  waits = refl;
  attempted = refl;
  deadline = refl;
  operation = refl;
}

accepted_request-active :
    (w : World) (command : Text) (s : Server) {c : ActiveCommand}
    → s.active_command ≡ some c
    → (accepted_request w command s).1.active_command ≡ some c
unfolding accepted_request
accepted_request-active w command s a = a

some-IsIdle : (s t : Server) → some s ≡ some t → IsIdle s → IsIdle t
some-IsIdle s t h i = ground arith

finish_calibration-IsIdle :
    (w : World) (c : ActiveCommand) (e : Text) (s : Server)
    → s.active_command ≡ some c
    → IsIdle (finish_calibration w c e s)
unfolding finish_calibration
finish_calibration-IsIdle w c e s a =
    finish_command-IsIdle w c _ _ false _ (set_calibration-active w _ _ _ _ _ s a)

finish_timeout_restore-IsIdle :
    (w : World) (c : ActiveCommand) (e : Text) (s : Server)
    → s.active_command ≡ some c
    → IsIdle (finish_timeout_restore w c e s)
unfolding finish_timeout_restore
finish_timeout_restore-IsIdle w c e s a =
    finish_command-IsIdle w c _ _ false _ (set_calibration-active w _ _ _ _ _ s a)

finish_restore-IsIdle :
    (w : World) (c : ActiveCommand) (e : Text) (s : Server)
    → s.active_command ≡ some c
    → IsIdle (finish_restore w c e s)
unfolding finish_restore
finish_restore-IsIdle w c e s a =
    finish_command-IsIdle w c _ _ false _ (set_calibration-active w _ _ _ _ _ _ a)

module _ (w : World) (now : ℕ) (c : ActiveCommand) where
  -- Idle, or, if the command calibrates, restoring.
  abbrev Ended : Server → Type 0
  Ended t = IsIdle t ⊎ ((is_calibration c.verification ≡ true) × IsRestoring w now c t)

  overdue-Ended : (e : Text) (s : Server) → s.active_command ≡ some c → Ended (overdue w now c e s)
  unfolding overdue
  overdue-Ended e s a =
      if_cases Ended (is_calibration c.verification && not c.restore_attempted) _ _
        (λ t. elim (Reply-cases (accepted_request w (run_request s) s).0) [
          | inl (x, p) ↦ rw p (inl (time_out-IsIdle w c _ _ (accepted_request-active w _ s a)))
          | inr (x, p) ↦ rw p (inr (ground arith, command_restoration-IsRestoring w now c x _))
        ])
        (λ _. inl (time_out-IsIdle w c e s a))

  if_succeed-IsIdle :
      (b : Bool) (m : Text) (s t : Server)
      → s.active_command ≡ some c
      → (if b then some (succeed w c m s) else none) ≡ some t
      → IsIdle t
  if_succeed-IsIdle b m s t a h =
      ground (arith, finish_command-IsIdle w c Terminal.succeeded m false s a)

  advance_verified-IsIdle :
      (v : Verification) (e : Text) (s t : Server)
      → s.active_command ≡ some c
      → advance_verified w c v e s ≡ some t
      → IsIdle t
  unfolding advance_verified
  advance_verified-IsIdle Verification.threshold e s t a h = if_succeed-IsIdle _ _ s t a h
  advance_verified-IsIdle Verification.averages e s t a h = if_succeed-IsIdle _ _ s t a h
  advance_verified-IsIdle Verification.set_time e s t a h = if_succeed-IsIdle _ _ s t a h
  advance_verified-IsIdle Verification.capture_adc e s t a h = if_succeed-IsIdle _ _ s t a h
  advance_verified-IsIdle Verification.restart e s t a h = if_succeed-IsIdle true _ s t a h
  advance_verified-IsIdle Verification.calibration e s t a h =
      some-IsIdle _ t h (finish_calibration-IsIdle w c e s a)
  advance_verified-IsIdle Verification.calibration_timeout_restore e s t a h =
      some-IsIdle _ t h (finish_timeout_restore-IsIdle w c e s a)
  advance_verified-IsIdle Verification.restore e s t a h =
      some-IsIdle _ t h (finish_restore-IsIdle w c e s a)
  advance_verified-IsIdle _ e s t a h = cc

  advance_waiting-Ended :
      (s : Server)
      → s.active_command ≡ some c
      → c.deadline_monotonic ≤ now
      → Ended (advance_waiting w now c s)
  unfolding advance_waiting
  advance_waiting-Ended s a d =
      let evidence = (normal_mode_verified w c s).1 in
      let late = if ltb now c.deadline_monotonic then s else overdue w now c evidence s in
      let ended : Ended late =
        if_cases Ended (ltb now c.deadline_monotonic) _ _ (λ t. absurd (ground arith))
          (λ _. overdue-Ended evidence s a) in
      if_ind Ended (normal_mode_verified w c s).0 _ _
        (elim (Option-cases (advance_verified w c c.verification evidence s)) [
          | inl n ↦ rw n ended
          | inr (t, e) ↦ rw e (inl (advance_verified-IsIdle c.verification evidence s t a e))
        ])
        ended

  pub advance_active_command-Ended :
      (s : Server)
      → s.active_command ≡ some c
      → awaits_dispatch c.verification ≡ false
      → c.deadline_monotonic ≤ now
      → Ended (advance_active_command w now s)
  unfolding advance_active_command
  advance_active_command-Ended s a v d =
      rw (a, v, advance_active_command)
        (if_ind Ended (is_clear_latch c.verification) _ _
          (elim (Option-cases (latch_readback c s)) [
            | inl n ↦ rw n (advance_waiting-Ended s a d)
            | inr (m, e) ↦ rw e (inl (finish_command-IsIdle w c Terminal.succeeded m false s a))
          ])
          (advance_waiting-Ended s a d))

-- The turn of the verification loop at a dispatched command's deadline leaves no active command
-- or, where the command calibrates, has begun its restoration: the same command, marked as
-- attempted, waits for normal mode until the restore timeout from that turn on, and the
-- calibration reads Restoring; a turn a day later then leaves none, whatever the replies, the
-- measurements and the configured timeouts.
pub deadline_ends :
    (w w' : World) (now now' : ℕ) (c : ActiveCommand) (s : Server)
    → s.active_command ≡ some c
    → awaits_dispatch c.verification ≡ false
    → c.deadline_monotonic ≤ now
    → now + 86_400 * second ≤ now'
    → let t = advance_active_command w now s in
      (t.active_command ≡ none)
      ⊎ ((c.verification ≡ Verification.calibration)
          × IsRestoring w now c t
          × ((advance_active_command w' now' t).active_command ≡ none))
deadline_ends w w' now now' c s a v d later = elim (advance_active_command-Ended w now c s a v d) [
  | inl idle ↦ inl idle
  | inr (k, r) ↦
      let over : r.begun.deadline_monotonic ≤ now' =
        omega (arith, r.deadline, configured_timeout-le w.restore_timeout (90 * second)) in
      inr (
        is_calibration_eq c.verification k,
        r,
        elim (advance_active_command-Ended w' now' r.begun _ r.active (rw (r.waits) refl) over) [
          | inl idle ↦ idle
          | inr (k', _) ↦ absurd (ground (arith, r.waits, k'))
        ],
      )
]
