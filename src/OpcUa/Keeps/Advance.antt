-- ===== src/OpcUa/Keeps/Advance.antt =====
-- `_advance_active_command`, built of steps that keep `P`.
use gizmo.Prelude.{
  ℕ, ◌≡◌, refl, arith, Bool, true, false, not, ◌&&◌, Option, none, some, ltb, if◌then◌else◌, if_ind,
  if_cases, Option-cases, inl, inr,
}
use gizmo.Text.{Text}
use gizmo.OpcUa.State.{ActiveCommand, Terminal, Verification, Server, World}
use gizmo.OpcUa.Methods.{accepted_request, run_request}
use gizmo.OpcUa.Readback.{
  normal_mode_verified, latch_readback, threshold_reads_back, averages_read_back, time_reads_back,
  adc_reads_back,
}
use gizmo.OpcUa.Advance.{
  finish_calibration, finish_timeout_restore, finish_restore, advance_verified, command_restoration,
  fails_calibration, locks_gate, time_out, overdue, is_calibration, advance_waiting,
  awaits_dispatch, is_clear_latch, advance_active_command, succeed, succeed,
}
use gizmo.OpcUa.Forward.{loop_turn}
use gizmo.OpcUa.Keeps.{Keeps}
use gizmo.OpcUa.Keeps.Methods.{Reply-cases, accepted_request-Keeps}
use gizmo.OpcUa.Keeps.Forward.{KeepsValues, forward_step-Keeps, finish_adc_capture-Keeps}

-- The two steps of `_advance_active_command` on `s` that write the active command or the lock
-- themselves.
pub record KeepsRestoration (P : Server → Type 0) (w : World) (s : Server) : Type 0 where
  pub restored :
      (c : ActiveCommand) (evidence : Text)
      → s.active_command ≡ some c
      → c.verification ≡ Verification.restore
      → (normal_mode_verified w c s).0 ≡ true
      → P s
      → P (finish_restore w c evidence s)
  pub restoring :
      (now : ℕ) (c : ActiveCommand) (reply : Text) (t : Server)
      → t.active_command ≡ some c
      → c.verification ≡ Verification.calibration
      → P t
      → P (command_restoration w now c reply t)

pub is_calibration_eq : (v : Verification) → is_calibration v ≡ true → v ≡ Verification.calibration
is_calibration_eq v h = ground arith

accepted_request-active :
    (w : World) (command : Text) (s : Server) {c : ActiveCommand}
    → s.active_command ≡ some c
    → (accepted_request w command s).1.active_command ≡ some c
unfolding accepted_request
accepted_request-active w command s a = a

module _ {P : Server → Type 0} (k : Keeps P) where
  time_out-Keeps :
      (w : World) (c : ActiveCommand) (e : Text) (s : Server) → P s → P (time_out w c e s)
  unfolding time_out
  time_out-Keeps w c e s h =
      k.finish w c.command_id Terminal.timed_out _ (locks_gate c.verification) _
        (if_ind P (fails_calibration c.verification) _ _ (k.set_calibration w _ _ _ _ _ s h) h)

  overdue-Keeps :
      (w : World) (now : ℕ) (c : ActiveCommand) (e : Text) (s : Server) (r : KeepsRestoration P w s)
      → s.active_command ≡ some c
      → P s
      → P (overdue w now c e s)
  unfolding overdue
  overdue-Keeps w now c e s r a h =
      if_cases P (is_calibration c.verification && not c.restore_attempted) _ _
        (λ t. elim (Reply-cases (accepted_request w (run_request s) s).0) [
          | inl (x, p) ↦ rw p (time_out-Keeps w c _ _ (accepted_request-Keeps k w _ s h))
          | inr (x, p) ↦ rw p (
              r.restoring now c x _ (accepted_request-active w _ s a)
                (is_calibration_eq c.verification (ground arith))
                (accepted_request-Keeps k w _ s h))
        ])
        (λ _. time_out-Keeps w c e s h)

  abbrev KeepsSome : Option Server → Type 0
  KeepsSome none = Unit
  KeepsSome (some s) = P s

  succeed-Keeps :
      (w : World) (c : ActiveCommand) (m : Text) (b : Bool) (s : Server)
      → P s
      → KeepsSome (if b then some (succeed w c m s) else none)
  succeed-Keeps w c m true s h = k.finish w c.command_id Terminal.succeeded m false s h
  succeed-Keeps w c m false s h = tt

  finish_calibration-Keeps :
      (w : World) (c : ActiveCommand) (e : Text) (s : Server) → P s → P (finish_calibration w c e s)
  unfolding finish_calibration
  finish_calibration-Keeps w c e s h =
      k.finish w c.command_id Terminal.succeeded _ false _
        (k.rescheduled _ _ (k.set_calibration w _ _ _ _ _ s h))

  finish_timeout_restore-Keeps :
      (w : World) (c : ActiveCommand) (e : Text) (s : Server)
      → P s
      → P (finish_timeout_restore w c e s)
  unfolding finish_timeout_restore
  finish_timeout_restore-Keeps w c e s h =
      k.finish w c.command_id Terminal.timed_out _ false _ (k.set_calibration w _ _ _ _ _ s h)

  advance_verified-Keeps :
      (w : World) (c : ActiveCommand) (v : Verification) (e : Text) (s : Server)
      (r : KeepsRestoration P w s)
      → s.active_command ≡ some c
      → c.verification ≡ v
      → (normal_mode_verified w c s).0 ≡ true
      → P s
      → KeepsSome (advance_verified w c v e s)
  unfolding advance_verified
  advance_verified-Keeps w c Verification.threshold e s r a q n h =
      succeed-Keeps w c _ (threshold_reads_back c s) s h
  advance_verified-Keeps w c Verification.averages e s r a q n h =
      succeed-Keeps w c _ (averages_read_back c s) s h
  advance_verified-Keeps w c Verification.restart e s r a q n h = succeed-Keeps w c _ true s h
  advance_verified-Keeps w c Verification.calibration e s r a q n h =
      finish_calibration-Keeps w c e s h
  advance_verified-Keeps w c Verification.calibration_timeout_restore e s r a q n h =
      finish_timeout_restore-Keeps w c e s h
  advance_verified-Keeps w c Verification.restore e s r a q n h = r.restored c e a q n h
  advance_verified-Keeps w c Verification.set_time e s r a q n h =
      succeed-Keeps w c _ (time_reads_back c s) s h
  advance_verified-Keeps w c Verification.capture_adc e s r a q n h =
      succeed-Keeps w c _ (adc_reads_back w c) s h
  advance_verified-Keeps w c _ e s r a q n h = tt

  advance_waiting-Keeps :
      (w : World) (now : ℕ) (c : ActiveCommand) (s : Server) (r : KeepsRestoration P w s)
      → s.active_command ≡ some c
      → P s
      → P (advance_waiting w now c s)
  unfolding advance_waiting
  advance_waiting-Keeps w now c s r a h =
      let evidence = (normal_mode_verified w c s).1 in
      let late = if ltb now c.deadline_monotonic then s else overdue w now c evidence s in
      let kept : P late =
        if_ind P (ltb now c.deadline_monotonic) _ _ h (overdue-Keeps w now c evidence s r a h) in
      if_cases P (normal_mode_verified w c s).0 _ _
        (λ t. elim (Option-cases (advance_verified w c c.verification evidence s)) [
          | inl n ↦ rw n kept
          | inr (s', p) ↦
              let done : KeepsSome (some s') =
                rw p at (advance_verified-Keeps w c c.verification evidence s r a refl t h) in
              rw p done
        ])
        (λ _. kept)

  pub advance_active_command-Keeps :
      (w : World) (now : ℕ) (s : Server)
      → KeepsRestoration P w s
      → P s
      → P (advance_active_command w now s)
  unfolding advance_active_command
  advance_active_command-Keeps w now s r h = elim (Option-cases s.active_command) [
    | inl n ↦ rw (n, advance_active_command) h
    | inr (c, a) ↦
        rw (a, advance_active_command)
          (if_ind P (awaits_dispatch c.verification) _ _ h (
            if_ind P (is_clear_latch c.verification) _ _ (latch c a)
              (advance_waiting-Keeps w now c s r a h)))
  ]
    where
      latch :
          (c : ActiveCommand)
          → s.active_command ≡ some c
          → P (elim (latch_readback c s) [
            | some result ↦ succeed w c result s
            | none ↦ advance_waiting w now c s
          ])
      latch c a = elim (Option-cases (latch_readback c s)) [
        | inl n ↦ rw n (advance_waiting-Keeps w now c s r a h)
        | inr (m, p) ↦ rw p (k.finish w c.command_id Terminal.succeeded m false s h)
      ]

  module _ (v : KeepsValues P) (r : (w : World) (t : Server) → KeepsRestoration P w t) where
    pub loop_turn-Keeps : (w : World) (now : ℕ) (s : Server) → P s → P (loop_turn w now s)
    unfolding loop_turn
    loop_turn-Keeps w now s h =
        advance_active_command-Keeps w now _ (r w _)
          (forward_step-Keeps k v w _ (finish_adc_capture-Keeps k w now s h))
