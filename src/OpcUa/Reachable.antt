-- ===== src/OpcUa/Reachable.antt =====
-- The steps of a running server of src/python/gizmo_opcua.py, and the servers that they lead to.
use gizmo.Prelude.{
  ℕ, ◌≡◌, refl, Bool, true, false, Option, none, some, List, [], ◌∷◌, String, arith, if_ind,
}
use package.text.Mathlib.Text.{◌==◌ as str_eq}
use gizmo.Text.{Text}
use gizmo.OpcUa.State.{ActiveCommand, Audit, Measurement, Server, World}
use gizmo.OpcUa.Gate.{Session}
use gizmo.OpcUa.Methods.{Outcome}
use gizmo.OpcUa.Dispatch.{Call, Write, remote_call, remote_write}
use gizmo.OpcUa.Forward.{loop_turn}
use gizmo.OpcUa.Samples.{apply_measurement, apply_time, apply_services}
use gizmo.OpcUa.Restore.{
  StateFile, load, interrupt, is_open, initial_audit, initial_calibration, restore_command_state,
  load_calibration, invalid_state,
}
use gizmo.OpcUa.Keeps.Remote.{remote_call-Keeps, remote_write-Keeps}
use gizmo.OpcUa.Keeps.Advance.{loop_turn-Keeps}
use gizmo.OpcUa.Coherence.{IsAuditOf, RespectsLock, IsCoherent}
use gizmo.OpcUa.Coherence.Steps.{
  IsCoherent-Keeps, IsCoherent-KeepsReservation, IsCoherent-KeepsValues,
  IsCoherent-KeepsRestoration,
}

-- A server whose constructor has not yet read the command-state file.
pub record IsFresh (s : Server) : Type 0 where
  pub inactive : s.active_command ≡ none
  pub unlocked : s.command_fault_locked ≡ false

module _ (is_good : Outcome → Bool) (status_text : Outcome → Text) where
  -- The steps of a running server: requests of clients, turns of the main loop, and samples.
  pub data Step : Server → Server → Type 0 where
    called :
        (session : Session) (calls : List (World × Call)) (s : Server)
        → Step s (remote_call is_good status_text session calls s).1
    wrote :
        (w : World) (session : Session) (writes : List Write) (s : Server)
        → Step s (remote_write w session writes s).1
    turned : (w : World) (now : ℕ) (s : Server) → Step s (loop_turn w now s)
    measured : (m : Measurement) (s : Server) → Step s (apply_measurement m s)
    timed : (observed_at : ℕ) (s : Server) → Step s (apply_time observed_at s)
    listed : (services : List (String × ℕ)) (s : Server) → Step s (apply_services services s)

  -- The servers that a start from any command-state file leads to.
  pub data Reachable : Server → Type 0 where
    started :
        (w : World) (file : StateFile) (s : Server)
        → IsFresh s
        → Reachable (restore_command_state w file s)
    next : {s t : Server} → Reachable s → Step s t → Reachable t

load-active :
    (file : StateFile) (s : Server) → s.active_command ≡ none → (load file s).active_command ≡ none
unfolding load load_calibration invalid_state
load-active StateFile.missing s h = h
load-active (StateFile.unreadable e) s h = h
load-active (StateFile.decoded f) s h = ground arith

interrupt-closed :
    (w : World) (s : Server)
    → s.active_command ≡ none
    → ((interrupt w s).active_command ≡ none) × (is_open (interrupt w s).audit.state ≡ false)
unfolding interrupt
interrupt-closed w s h = ground arith

idle-IsCoherent :
    (lock : Bool) (active : Option ActiveCommand) (a : Audit)
    → active ≡ none
    → is_open a.state ≡ false
    → IsAuditOf active a × RespectsLock lock active
idle-IsCoherent true none a e h = (h, tt)
idle-IsCoherent false none a e h = (h, tt)
idle-IsCoherent lock (some c) a e h = cc

pub restore_command_state-IsCoherent :
    (w : World) (file : StateFile) (s : Server)
    → IsFresh s
    → IsCoherent (restore_command_state w file s)
unfolding restore_command_state
restore_command_state-IsCoherent w file s h =
    let start = record s { audit = initial_audit; calibration_operation = initial_calibration } in
    let t = interrupt w (load file start) in
    let (inactive, closed) =
      interrupt-closed w (load file start) (load-active file start h.inactive) in
    let (a, l) = idle-IsCoherent t.command_fault_locked t.active_command t.audit inactive closed in
    (refl, refl, refl, a, l)

apply_services-IsCoherent :
    (services : List (String × ℕ)) (s : Server)
    → IsCoherent s
    → IsCoherent (apply_services services s)
unfolding apply_services
apply_services-IsCoherent [] s h = h
apply_services-IsCoherent ((unit, pid) ∷ services) s h =
    apply_services-IsCoherent services _
      (if_ind IsCoherent (str_eq unit "gizmo-zmon.service") _ _ h h)

module _ (is_good : Outcome → Bool) (status_text : Outcome → Text) where
  Step-IsCoherent : {s t : Server} → Step is_good status_text s t → IsCoherent s → IsCoherent t
  unfolding apply_measurement apply_time
  Step-IsCoherent (called session calls s) h =
      remote_call-Keeps IsCoherent-Keeps IsCoherent-KeepsReservation is_good status_text session
        calls s h
  Step-IsCoherent (wrote w session writes s) h =
      remote_write-Keeps IsCoherent-Keeps IsCoherent-KeepsReservation w session writes s h
  Step-IsCoherent (turned w now s) h =
      loop_turn-Keeps IsCoherent-Keeps IsCoherent-KeepsValues IsCoherent-KeepsRestoration w now s h
  Step-IsCoherent (measured m s) h = if_ind IsCoherent m.good _ _ h h
  Step-IsCoherent (timed o s) h = h
  Step-IsCoherent (listed services s) h = apply_services-IsCoherent services s h

  -- In every reachable server the published gate state, audit and calibration are those of the
  -- server, the audit tells of the active command or of none that is open, and under a fault lock
  -- nothing but RestoreNormalState is active.
  pub Reachable-IsCoherent : {s : Server} → Reachable is_good status_text s → IsCoherent s
  Reachable-IsCoherent (started w file s fresh) = restore_command_state-IsCoherent w file s fresh
  Reachable-IsCoherent (next r step) = Step-IsCoherent step (Reachable-IsCoherent r)
