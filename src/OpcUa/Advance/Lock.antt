-- ===== src/OpcUa/Advance/Lock.antt =====
-- The fault lock of the command gate in src/python/gizmo_opcua.py, and who may open it.
use gizmo.Prelude.{ℕ, ◌≡◌, ◌⊎◌, Bool, true, false, Option, none, some, List, arith, inl, inr}
use gizmo.Text.{Text}
use gizmo.OpcUa.State.{ActiveCommand, CommandPath, Verification, Server, World}
use gizmo.OpcUa.Audit.{
  set_calibration_operation, record_rejected, finish_command, close_command, set_command_running,
  run_command, update_last_command_result, publish_audit, persist_command_state,
}
use gizmo.OpcUa.Gate.{Session, reserve, is_restore_normal_state}
use gizmo.OpcUa.Methods.{Outcome}
use gizmo.OpcUa.Dispatch.{Call, Write, mark_pending, remote_call, remote_write}
use gizmo.OpcUa.Advance.{command_restoration, advance_active_command}
use gizmo.OpcUa.Forward.{forward_step, finish_adc_capture, loop_turn}
use gizmo.OpcUa.Keeps.{Keeps, KeepsReservation}
use gizmo.OpcUa.Keeps.Forward.{KeepsValues, forward_step-Keeps, finish_adc_capture-Keeps}
use gizmo.OpcUa.Keeps.Remote.{remote_call-Keeps, remote_write-Keeps}
use gizmo.OpcUa.Keeps.Advance.{advance_active_command-Keeps}
use gizmo.OpcUa.Coherence.{IsCoherent, RespectsLock}
use gizmo.OpcUa.Coherence.Steps.{IsCoherent-Keeps, IsCoherent-KeepsValues}
use gizmo.OpcUa.Advance.ReadsBack.{IsNormalMode, verified_iff_IsNormalMode}

-- The lock is closed, or something already known has happened.
module _ (E : Type 0) where
  abbrev Locked : Server → Type 0
  Locked s = (s.command_fault_locked ≡ true) ⊎ E

  finish_command-Locked :
      (w : World) (id : Text) (st : _) (r : Text) (l : Bool) (s : Server)
      → Locked s
      → Locked (finish_command w id st r l s)
  unfolding finish_command close_command
  finish_command-Locked w id st r l s (inr e) = inr e
  finish_command-Locked w id st r l s (inl h) = inl (ground arith)

  set_command_running-Locked :
      (w : World) (id : Text) (v : Verification) (a : Text) (t : ℕ) (e : Option ℕ) (term : _)
      (s s' : Server)
      → set_command_running w id v a t e term s ≡ some s'
      → Locked s
      → Locked s'
  unfolding set_command_running run_command
  set_command_running-Locked w id v a t e term s s' q (inr x) = inr x
  set_command_running-Locked w id v a t e term s s' q (inl h) = inl (ground arith)

  record_rejected-Locked :
      (w : World) (p : CommandPath) (a b r : Text) (s : Server)
      → Locked s
      → Locked (record_rejected w p a b r s)
  unfolding record_rejected
  record_rejected-Locked w p a b r s (inr e) = inr e
  record_rejected-Locked w p a b r s (inl h) = inl (ground arith)

  mark_pending-Locked :
      (c : ActiveCommand) (v : ℕ) (s : Server) → Locked s → Locked (mark_pending c v s)
  unfolding mark_pending
  mark_pending-Locked c v s (inr e) = inr e
  mark_pending-Locked c v s (inl h) = inl (ground arith)

  set_calibration-Locked :
      (w : World) (st : _) (p : Option ℕ) (r : Text) (re : _) (t : Bool) (s : Server)
      → Locked s
      → Locked (set_calibration_operation w st p r re t s)
  unfolding set_calibration_operation
  set_calibration-Locked w st p r re t s h = h

  reserve-Locked : (w : World) (c : ActiveCommand) (s : Server) → Locked s → Locked (reserve w c s)
  unfolding reserve
  reserve-Locked w c s h = h

  update_last-Locked :
      (r : Text) (g : Bool) (s : Server) → Locked s → Locked (update_last_command_result r g s)
  unfolding update_last_command_result
  update_last-Locked r g s h = h

  Locked-Keeps : Keeps Locked
  Locked-Keeps = record {
    set_calibration = set_calibration-Locked;
    finish = finish_command-Locked;
    start = λ w id v a t e term s s' q now h. set_command_running-Locked w id v a t e term s s' q h;
    last_result = update_last-Locked;
    nodes_set = λ n s h. h;
    sent = λ r s h. h;
    adc_ready = λ a s h. h;
    rescheduled = λ n s h. h;
  }

  Locked-KeepsReservation : KeepsReservation Locked
  Locked-KeepsReservation = record {
    rejected = record_rejected-Locked;
    reserved = λ w session path p s t f l h. reserve-Locked w _ s h;
    marked = λ c v s a f h. mark_pending-Locked c v s h;
  }

  Locked-KeepsValues : KeepsValues Locked
  Locked-KeepsValues = record {
    threshold = λ v s r h. h;
    interval = λ v s a b h. h;
    clock = λ t s h. h;
  }

  command_restoration-Locked :
      (w : World) (now : ℕ) (c : ActiveCommand) (r : Text) (s : Server)
      → Locked s
      → Locked (command_restoration w now c r s)
  unfolding command_restoration set_calibration_operation publish_audit persist_command_state
  command_restoration-Locked w now c r s h = h

-- A restoration that has been verified on `t`.
abbrev pub Opening : World → Server → Type 0
Opening w t =
    (c : ActiveCommand) × (t.active_command ≡ some c)
    × (c.verification ≡ Verification.restore)
    × IsNormalMode w c t

advance-Locked :
    (w : World) (now : ℕ) (t : Server)
    → t.command_fault_locked ≡ true
    → Locked (Opening w t) (advance_active_command w now t)
advance-Locked w now t h =
    advance_active_command-Keeps (Locked-Keeps (Opening w t)) w now t
      (record {
        restored = λ c e a v n _. inr (c, a, v, (verified_iff_IsNormalMode w c t).0 n);
        restoring = λ now c r s a v k. command_restoration-Locked (Opening w t) w now c r s k;
      })
      (inl h)

locked-or : {E : Type 0} (b : Bool) → (b ≡ true) ⊎ E → b ≡ false → E
locked-or b (inl h) f = cc
locked-or b (inr e) f = e

RespectsLock-path :
    (b : Bool) (a : Option ActiveCommand) (c : ActiveCommand)
    → b ≡ true
    → a ≡ some c
    → RespectsLock b a
    → is_restore_normal_state c.path ≡ true
RespectsLock-path true (some d) c h e r = ground arith
RespectsLock-path true none c h e r = cc
RespectsLock-path false a c h e r = cc

-- The fault lock opens in a turn of the main loop only if RestoreNormalState is the active command
-- and normal mode is verified at that moment.
pub lock_opens_by_restoration :
    (w : World) (now : ℕ) (s : Server)
    → IsCoherent s
    → s.command_fault_locked ≡ true
    → (loop_turn w now s).command_fault_locked ≡ false
    → let t = forward_step w (finish_adc_capture w now s) in
      (c : ActiveCommand) × (t.active_command ≡ some c)
      × (is_restore_normal_state c.path ≡ true)
      × IsNormalMode w c t
unfolding loop_turn
lock_opens_by_restoration w now s coherent locked opened =
    let t = forward_step w (finish_adc_capture w now s) in
    let coherent' : IsCoherent t =
      forward_step-Keeps IsCoherent-Keeps IsCoherent-KeepsValues w _
        (finish_adc_capture-Keeps IsCoherent-Keeps w now s coherent) in
    let kept : (t.command_fault_locked ≡ true) ⊎ ⊥ =
      forward_step-Keeps (Locked-Keeps ⊥) (Locked-KeepsValues ⊥) w _
        (finish_adc_capture-Keeps (Locked-Keeps ⊥) w now s (inl locked)) in
    let locked' : t.command_fault_locked ≡ true = elim kept [ inl h ↦ h | inr e ↦ absurd e ] in
    let (c, a, v, n) = locked-or _ (advance-Locked w now t locked') opened in
    (c, a, RespectsLock-path t.command_fault_locked t.active_command c locked' a coherent'.4, n)

-- No remote call and no remote write opens the fault lock, whoever sends it.
pub remote_keeps_lock :
    (is_good : Outcome → Bool) (status_text : Outcome → Text) (w : World) (session : Session)
    (calls : List (World × Call)) (writes : List Write) (s : Server)
    → s.command_fault_locked ≡ true
    → ((remote_call is_good status_text session calls s).1.command_fault_locked ≡ true)
      × ((remote_write w session writes s).1.command_fault_locked ≡ true)
remote_keeps_lock is_good status_text w session calls writes s h = (
  elim (remote_call-Keeps (Locked-Keeps ⊥) (Locked-KeepsReservation ⊥) is_good status_text session
      calls s (inl h)) [ inl k ↦ k | inr e ↦ absurd e ],
  elim (remote_write-Keeps (Locked-Keeps ⊥) (Locked-KeepsReservation ⊥) w session writes s
      (inl h)) [ inl k ↦ k | inr e ↦ absurd e ],
)
