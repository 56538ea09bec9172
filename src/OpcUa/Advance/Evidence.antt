-- ===== src/OpcUa/Advance/Evidence.antt =====
-- The successes of `_advance_active_command` in src/python/gizmo_opcua.py, and what they rest on.
use gizmo.Prelude.{
  ℕ, ◌≡◌, ◌≢◌, ◌⊎◌, refl, Bool, true, false, not, ◌&&◌, Option, none, some, arith, Option-cases,
  Bool-cases, inl, inr, ltb, if◌then◌else◌, if_ind,
}
use gizmo.Text.{Text}
use gizmo.OpcUa.State.{
  ActiveCommand, CommandState, CalibrationState, Restoration, Terminal, Verification, Server, World,
}
use gizmo.OpcUa.Audit.{
  set_calibration_operation, finish_command, close_command, publish_audit, persist_command_state,
}
use gizmo.OpcUa.Methods.{accepted_request, run_request}
use gizmo.OpcUa.Keeps.Methods.{Reply-cases}
use gizmo.OpcUa.Readback.{normal_mode_verified, latch_readback}
use gizmo.OpcUa.Advance.{
  finish_timeout_restore, locks_gate, fails_calibration, is_calibration, advance_verified, time_out,
  overdue, command_restoration, advance_waiting, advance_active_command, awaits_dispatch,
  is_clear_latch,
}
use gizmo.OpcUa.Advance.ReadsBack.{
  IsFresh, IsNormalMode, verified-IsNormalMode, ReadsBack, threshold_reads_back-ReadsBack,
  averages_read_back-ReadsBack, time_reads_back-ReadsBack, adc_reads_back-ReadsBack, LatchReadsBack,
  latch_readback_sound,
}

if_some-true : (b : Bool) (s t : Server) → (if b then some s else none) ≡ some t → b ≡ true
if_some-true b s t h = ground arith

-- No step but a success writes "Succeeded".
abbrev Unsucceeded : Server → Type 0
Unsucceeded s = s.audit.state ≢ CommandState.succeeded

set_calibration-state :
    (w : World) (st : CalibrationState) (p : Option ℕ) (r : Text) (re : Restoration) (t : Bool)
    (s : Server)
    → (set_calibration_operation w st p r re t s).audit.state ≡ s.audit.state
unfolding set_calibration_operation
set_calibration-state w st p r re t s = refl

finish_command-Unsucceeded :
    (w : World) (id : Text) (st : Terminal) (r : Text) (l : Bool) (s : Server)
    → st ≢ Terminal.succeeded
    → Unsucceeded s
    → Unsucceeded (finish_command w id st r l s)
unfolding finish_command close_command
finish_command-Unsucceeded w id st r l s n u = ground arith

finish_timeout_restore-ne-succeeded :
    (w : World) (c : ActiveCommand) (e : Text) (s : Server)
    → Unsucceeded s
    → Unsucceeded (finish_timeout_restore w c e s)
unfolding finish_timeout_restore
finish_timeout_restore-ne-succeeded w c e s u =
    finish_command-Unsucceeded w c.command_id _ _ false _ (ground arith)
      (rw set_calibration-state u)

time_out-Unsucceeded :
    (w : World) (c : ActiveCommand) (e : Text) (s : Server)
    → Unsucceeded s
    → Unsucceeded (time_out w c e s)
unfolding time_out
time_out-Unsucceeded w c e s u =
    finish_command-Unsucceeded w c.command_id _ _ (locks_gate c.verification) _ (ground arith)
      (if_ind Unsucceeded (fails_calibration c.verification) _ _ (rw set_calibration-state u) u)

command_restoration-Unsucceeded :
    (w : World) (now : ℕ) (c : ActiveCommand) (r : Text) (s : Server)
    → Unsucceeded s
    → Unsucceeded (command_restoration w now c r s)
unfolding command_restoration set_calibration_operation publish_audit persist_command_state
command_restoration-Unsucceeded w now c r s u = u

accepted_request-Unsucceeded :
    (w : World) (command : Text) (s : Server)
    → Unsucceeded s
    → Unsucceeded (accepted_request w command s).1
unfolding accepted_request
accepted_request-Unsucceeded w command s u = u

overdue-Unsucceeded :
    (w : World) (now : ℕ) (c : ActiveCommand) (e : Text) (s : Server)
    → Unsucceeded s
    → Unsucceeded (overdue w now c e s)
unfolding overdue
overdue-Unsucceeded w now c e s u =
    if_ind Unsucceeded (is_calibration c.verification && not c.restore_attempted) _ _
      (elim (Reply-cases (accepted_request w (run_request s) s).0) [
        | inl (x, p) ↦ rw p (time_out-Unsucceeded w c _ _ (accepted_request-Unsucceeded w _ s u))
        | inr (x, p) ↦
            rw p
              (command_restoration-Unsucceeded w now c x _ (accepted_request-Unsucceeded w _ s u))
      ])
      (time_out-Unsucceeded w c e s u)

-- Where a verified command succeeds, what it waited for has read back.
advance_verified-ReadsBack :
    (w : World) (c : ActiveCommand) (v : Verification) (e : Text) (s t : Server)
    → s.audit.state ≢ CommandState.succeeded
    → advance_verified w c v e s ≡ some t
    → t.audit.state ≡ CommandState.succeeded
    → ReadsBack w c s v
unfolding advance_verified
advance_verified-ReadsBack w c Verification.threshold e s t n h a =
    threshold_reads_back-ReadsBack w c s (if_some-true _ _ t h)
advance_verified-ReadsBack w c Verification.averages e s t n h a =
    averages_read_back-ReadsBack w c s (if_some-true _ _ t h)
advance_verified-ReadsBack w c Verification.restart e s t n h a = tt
advance_verified-ReadsBack w c Verification.calibration e s t n h a = tt
advance_verified-ReadsBack w c Verification.calibration_timeout_restore e s t n h a =
    finish_timeout_restore-ne-succeeded w c e s n (ground arith)
advance_verified-ReadsBack w c Verification.restore e s t n h a = tt
advance_verified-ReadsBack w c Verification.set_time e s t n h a =
    time_reads_back-ReadsBack w c s (if_some-true _ _ t h)
advance_verified-ReadsBack w c Verification.capture_adc e s t n h a =
    adc_reads_back-ReadsBack w c s (if_some-true _ _ t h)
advance_verified-ReadsBack w c _ e s t n h a = cc

-- The evidence behind a success of command `c`.
abbrev pub Evidence : World → ActiveCommand → Server → Type 0
Evidence w c s =
    (IsNormalMode w c s × ReadsBack w c s c.verification)
    ⊎ ((c.verification ≡ Verification.clear_latch) × IsFresh c s × LatchReadsBack c s)

advance_waiting-Evidence :
    (w : World) (now : ℕ) (c : ActiveCommand) (s : Server)
    → Unsucceeded s
    → (advance_waiting w now c s).audit.state ≡ CommandState.succeeded
    → IsNormalMode w c s × ReadsBack w c s c.verification
unfolding advance_waiting
advance_waiting-Evidence w now c s u h =
    let evidence = (normal_mode_verified w c s).1 in
    let late = if ltb now c.deadline_monotonic then s else overdue w now c evidence s in
    let unlate : Unsucceeded late =
      if_ind Unsucceeded (ltb now c.deadline_monotonic) _ _ u
        (overdue-Unsucceeded w now c evidence s u) in
    elim (Bool-cases (normal_mode_verified w c s).0) [
      | inr f ↦ absurd (unlate (rw (f, advance_waiting) at h))
      | inl v ↦ elim (Option-cases (advance_verified w c c.verification evidence s)) [
        | inl n ↦ absurd (unlate (rw (v, n, advance_waiting) at h))
        | inr (t, e) ↦ (
          verified-IsNormalMode w c s v,
          advance_verified-ReadsBack w c c.verification evidence s t u e
              (rw (v, e, advance_waiting) at h),
        )
      ]
    ]

-- A turn of the verification loop that ends an active command as Succeeded has seen normal mode
-- and, in the last measurement, in the clock or in the capture file, the value that the command
-- waits for; or, for ClearLatch, it has seen a good measurement since the command began, and a
-- last measurement, which may be another one and of any quality, with the latch clear or the alarm
-- still active.
pub success-Evidence :
    (w : World) (now : ℕ) (c : ActiveCommand) (s : Server)
    → s.active_command ≡ some c
    → s.audit.state ≢ CommandState.succeeded
    → (advance_active_command w now s).audit.state ≡ CommandState.succeeded
    → Evidence w c s
unfolding advance_active_command
success-Evidence w now c s a u h = elim (Bool-cases (awaits_dispatch c.verification)) [
  | inl d ↦ absurd (u (rw (a, d, advance_active_command) at h))
  | inr d ↦ elim (Bool-cases (is_clear_latch c.verification)) [
    | inr l ↦ inl (advance_waiting-Evidence w now c s u (rw (a, d, l, advance_active_command) at h))
    | inl l ↦ elim (Option-cases (latch_readback c s)) [
      | inl n ↦
          inl (advance_waiting-Evidence w now c s u (rw (a, d, l, n, advance_active_command) at h))
      | inr (m, e) ↦ let (f, r) = latch_readback_sound c s e in inr (ground arith, f, r)
    ]
  ]
]
