-- ===== src/OpcUa/Gate/Policy.antt =====
-- The policy that `_begin_remote_command` of src/python/gizmo_opcua.py enforces, stated by itself.
use gizmo.Prelude.{
  ◌≡◌, ◌≢◌, ◌⊎◌, ◌↔◌, Bool, true, false, Option, none, some, arith, Option-cases, inl, inr,
}
use gizmo.Text.{Text}
use gizmo.OpcUa.State.{
  ActiveCommand, GateMode, Method, CommandPath, Role, Verification, is_maintenance, Server, World,
}
use gizmo.OpcUa.Audit.{record_rejected}
use gizmo.OpcUa.Gate.{Session, Begun, began, refused, denial, supersede, begin_remote_command}

-- Who may run what, in which mode of the gate.
pub record IsAuthorised (role : Role) (path : CommandPath) (mode : GateMode) : Type 0 where
  pub authenticated : role ≢ Role.anonymous
  pub gate_open : mode ≢ GateMode.disabled
  pub maintainer : is_maintenance path ≡ true → role ≡ Role.maintenance
  pub unlocked : is_maintenance path ≡ true → mode ≡ GateMode.maintenance

-- Nothing is active, or a calibration that AbortCalibration takes over.
abbrev pub MayPreempt : CommandPath → Option ActiveCommand → Type 0
MayPreempt path none = Unit
MayPreempt path (some c) =
    (path ≡ CommandPath.method Method.abort_calibration)
    × ((c.verification ≡ Verification.calibration)
        ⊎ (c.verification ≡ Verification.calibration_timeout_restore))

-- The whole condition for a reservation.
pub record IsAdmitted (role : Role) (path : CommandPath) (s : Server) : Type 0 where
  pub authorised : IsAuthorised role path s.effective_gate_mode
  pub recovers :
      s.command_fault_locked ≡ true → path ≡ CommandPath.method Method.restore_normal_state
  pub free : MayPreempt path s.active_command

-- What a refusal leaves alone.
pub record IsUntouched (s t : Server) : Type 0 where
  pub active : t.active_command ≡ s.active_command
  pub lock : t.command_fault_locked ≡ s.command_fault_locked
  pub calibration : t.calibration_operation ≡ s.calibration_operation
  pub requests : t.requests ≡ s.requests
  pub busy : s.active_command ≢ none → t ≡ s

abbrev pub has_begun : Begun → Bool
has_begun (began c) = true
has_begun (refused status) = false

denial-none :
    (role : Role) (path : CommandPath) (s : Server)
    → denial role path s ≡ none
    → IsAuthorised role path s.effective_gate_mode
      × (s.command_fault_locked ≡ true → path ≡ CommandPath.method Method.restore_normal_state)
unfolding denial
denial-none role path s h = (
  record {
    authenticated = ground arith;
    gate_open = ground arith;
    maintainer = ground arith;
    unlocked = ground arith;
  },
  ground arith,
)

none-denial :
    (role : Role) (path : CommandPath) (s : Server)
    → IsAuthorised role path s.effective_gate_mode
    → (s.command_fault_locked ≡ true → path ≡ CommandPath.method Method.restore_normal_state)
    → denial role path s ≡ none
unfolding denial
none-denial role path s a r = ground (arith, a.authenticated, a.gate_open, a.maintainer, a.unlocked)

supersede-some :
    (w : World) (session : Session) (path : CommandPath) (s : Server) {t : Server}
    → supersede w session path s ≡ some t
    → MayPreempt path s.active_command
unfolding supersede
supersede-some w session path s e = elim (Option-cases s.active_command) [
  | inl n ↦ rw n tt
  | inr (c, a) ↦ rw a (ground arith)
]

supersede-ne-none :
    (w : World) (session : Session) (path : CommandPath) (s : Server)
    → MayPreempt path s.active_command
    → supersede w session path s ≢ none
unfolding supersede
supersede-ne-none w session path s m = elim (Option-cases s.active_command) [
  | inl n ↦ ground arith
  | inr (c, a) ↦ let may : MayPreempt path (some c) = rw a at m in ground (arith, may.0, may.1)
]

module _ (w : World) (session : Session) (path : CommandPath) (parameters : Text) (s : Server) where
  begun-IsAdmitted :
      has_begun (begin_remote_command w session path parameters s).0 ≡ true
      → IsAdmitted session.gizmo_role path s
  unfolding begin_remote_command
  begun-IsAdmitted h = elim (Option-cases (denial session.gizmo_role path s)) [
    | inr (d, e) ↦ let wrong : false ≡ true = rw (e, begin_remote_command) at h in cc wrong
    | inl e ↦ elim (Option-cases (supersede w session path s)) [
      | inl n ↦ let wrong : false ≡ true = rw (e, n, begin_remote_command) at h in cc wrong
      | inr (t, p) ↦ record {
        authorised = (denial-none session.gizmo_role path s e).0;
        recovers = (denial-none session.gizmo_role path s e).1;
        free = supersede-some w session path s p;
      }
    ]
  ]

  admitted-begun :
      IsAdmitted session.gizmo_role path s
      → has_begun (begin_remote_command w session path parameters s).0 ≡ true
  unfolding begin_remote_command
  admitted-begun a =
      let allowed : denial session.gizmo_role path s ≡ none =
        none-denial session.gizmo_role path s a.authorised a.recovers in
      elim (Option-cases (supersede w session path s)) [
        | inl n ↦ absurd (supersede-ne-none w session path s a.free n)
        | inr (t, p) ↦ rw (allowed, p, begin_remote_command)
      ]

  -- A remote mutation is reserved exactly if the role is authenticated and the gate is not disabled,
  -- a maintenance command comes from the maintenance role in maintenance mode, a fault lock lets
  -- only RestoreNormalState through, and nothing is active but a calibration that AbortCalibration
  -- takes over.
  pub begun_iff_IsAdmitted :
      (has_begun (begin_remote_command w session path parameters s).0 ≡ true)
      ↔ IsAdmitted session.gizmo_role path s
  begun_iff_IsAdmitted = (begun-IsAdmitted, admitted-begun)

  record_rejected-IsUntouched :
      (reason : Text)
      → IsUntouched s (record_rejected w path parameters session.gizmo_requester reason s)
  unfolding record_rejected
  record_rejected-IsUntouched reason = elim (Option-cases s.active_command) [
    | inl n ↦ record {
      active = ground arith;
      lock = ground arith;
      calibration = ground arith;
      requests = ground arith;
      busy = λ b. absurd (b n);
    }
    | inr (c, a) ↦ record {
      active = ground arith;
      lock = ground arith;
      calibration = ground arith;
      requests = ground arith;
      busy = λ b. ground arith;
    }
  ]

  -- A mutation that is refused changes neither the active command nor the lock, the calibration
  -- operation or the requests that have gone out; where a command is active it changes nothing.
  pub refused-IsUntouched :
      has_begun (begin_remote_command w session path parameters s).0 ≡ false
      → IsUntouched s (begin_remote_command w session path parameters s).1
  unfolding begin_remote_command
  refused-IsUntouched h = elim (Option-cases (denial session.gizmo_role path s)) [
    | inr (d, e) ↦ rw (e, begin_remote_command) (record_rejected-IsUntouched d.1)
    | inl e ↦ elim (Option-cases (supersede w session path s)) [
      | inl n ↦ rw (e, n, begin_remote_command) (record_rejected-IsUntouched _)
      | inr (t, p) ↦ let wrong : true ≡ false = rw (e, p, begin_remote_command) at h in cc wrong
    ]
  ]
