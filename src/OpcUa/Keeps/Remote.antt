-- ===== src/OpcUa/Keeps/Remote.antt =====
-- Remote calls and writes, built of steps that keep `P`.
use mathlib.Core.Path.{subst}
use gizmo.Prelude.{
  ◌++◌, ℕ, ◌≡◌, ◌⊎◌, refl, Bool, false, not, ◌&&◌, none, some, List, [], ◌∷◌, arith, if_ind,
  Option-cases, inl, inr,
}
use gizmo.Text.{Text, text}
use gizmo.Text.Equality.{text_eq_refl}
use gizmo.Text.{decimal}
use gizmo.OpcUa.Bounded.{bounded}
use gizmo.OpcUa.State.{
  ActiveCommand, Method, CommandPath, Setting, Terminal, Verification, Server, World,
}
use gizmo.OpcUa.Audit.{finish_command, close_command}
use gizmo.OpcUa.Gate.{
  Session, Begun, began, refused, denial, supersede, new_command, reserve, begin_remote_command,
  is_restore_normal_state, StatusCode,
}
use gizmo.OpcUa.Methods.{Outcome, Arguments}
use gizmo.OpcUa.Dispatch.{
  Call, Write, WriteResult, canonical_method, canonical_write, method_parameters, dispatch_reserved,
  remote_call_one, remote_call, store_node, write_one, remote_write, dispatch,
}
use gizmo.OpcUa.Keeps.{Keeps, KeepsReservation}
use gizmo.OpcUa.Keeps.Methods.{dispatch-Keeps}

-- What `supersede` leaves has no active command, and its lock as it was.
pub supersede_clears :
    (w : World) (session : Session) (path : CommandPath) (s : Server) {s' : Server}
    → supersede w session path s ≡ some s'
    → (s'.active_command ≡ none) × (s'.command_fault_locked ≡ s.command_fault_locked)
unfolding supersede finish_command close_command
supersede_clears w session path s e = elim (Option-cases s.active_command) [
  | inl n ↦ ground arith
  | inr (c, a) ↦ ground (arith, text_eq_refl c.command_id)
]

denial-lock :
    (role : _) (path : CommandPath) (s : Server)
    → denial role path s ≡ none
    → (s.command_fault_locked && not (is_restore_normal_state path)) ≡ false
unfolding denial
denial-lock role path s h = ground arith

-- What a reservation comes back with: the state kept, and the new command active and undispatched.
abbrev pub IsReserved : Begun → Server → Type 0
IsReserved (began c) s = (s.active_command ≡ some c) × (c.verification ≡ Verification.dispatching)
IsReserved (refused status) s = Unit

reserve-IsReserved :
    (w : World) (session : Session) (path : CommandPath) (parameters : Text) (s : Server)
    → IsReserved
        (began (new_command w session path parameters s))
        (reserve w (new_command w session path parameters s) s)
unfolding reserve new_command
reserve-IsReserved w session path parameters s = (refl, refl)

Begun-cases :
    (b : Begun)
    → ((c : ActiveCommand) × (b ≡ began c)) ⊎ ((status : StatusCode) × (b ≡ refused status))
Begun-cases (began c) = inl (c, refl)
Begun-cases (refused status) = inr (status, refl)

store_node-active :
    (setting : Setting) (v : ℕ) (s : Server) {c : ActiveCommand}
    → s.active_command ≡ some c
    → (store_node setting v s).active_command ≡ some c
unfolding store_node
store_node-active Setting.threshold_ohm v s e = e
store_node-active Setting.averages_per_calculation v s e = e

module _ {P : Server → Type 0} (k : Keeps P) (q : KeepsReservation P) where
  supersede-Keeps :
      (w : World) (session : Session) (path : CommandPath) (s s' : Server)
      → supersede w session path s ≡ some s'
      → P s
      → P s'
  unfolding supersede
  supersede-Keeps w session path s s' e h = elim (Option-cases s.active_command) [
    | inl n ↦ let same : s ≡ s' = ground arith in subst P same h
    | inr (c, a) ↦
        let finished : finish_command w c.command_id Terminal.failed
              (text "Superseded by AbortCalibration from " ++ session.gizmo_requester) false s
            ≡ s' =
          ground arith in
        subst P finished (k.finish w c.command_id Terminal.failed _ false s h)
  ]

  begin_remote_command-Keeps :
      (w : World) (session : Session) (path : CommandPath) (parameters : Text) (s : Server)
      → P s
      → P (begin_remote_command w session path parameters s).1
        × IsReserved
            (begin_remote_command w session path parameters s).0
            (begin_remote_command w session path parameters s).1
  unfolding begin_remote_command
  begin_remote_command-Keeps w session path parameters s h =
      elim (Option-cases (denial session.gizmo_role path s)) [
        | inr (d, e) ↦ rw (e, begin_remote_command) (q.rejected w path _ _ _ s h, tt)
        | inl e ↦ elim (Option-cases (supersede w session path s)) [
          | inl n ↦ rw (e, n, begin_remote_command) (q.rejected w path _ _ _ s h, tt)
          | inr (t, p) ↦
              let (free, lock) = supersede_clears w session path s p in
              let open_path : (t.command_fault_locked && not (is_restore_normal_state path))
                  ≡ false =
                rw lock (denial-lock session.gizmo_role path s e) in
              rw (e, p, begin_remote_command)
                (
                  q.reserved w session path parameters t t free open_path
                      (supersede-Keeps w session path s t p h),
                  reserve-IsReserved w session path parameters t,
                )
        ]
      ]

  module _ (is_good : Outcome → Bool) (status_text : Outcome → Text) where
    dispatch_reserved-Keeps :
        (w : World) (c : ActiveCommand) (m : Method) (a : Arguments) (s : Server)
        → P s
        → P (dispatch_reserved is_good status_text w c m a s).1
    unfolding dispatch_reserved
    dispatch_reserved-Keeps w c m a s h =
        if_ind P (is_good (dispatch w c.command_id m a s).0) _ _
          (dispatch-Keeps k w c.command_id m a s h)
          (k.finish w c.command_id Terminal.failed _ false _
            (dispatch-Keeps k w c.command_id m a s h))

    remote_call_one-Keeps :
        (w : World) (session : Session) (call : Call) (s : Server)
        → P s
        → P (remote_call_one is_good status_text w session call s).1
    unfolding remote_call_one
    remote_call_one-Keeps w session call s h =
        elim (Option-cases (canonical_method call.identifier)) [
          | inl n ↦ rw (n, remote_call_one) h
          | inr (m, e) ↦
              let (kept, _) =
                begin_remote_command-Keeps w session (CommandPath.method m)
                  (method_parameters m call.arguments) s h in
              elim (Begun-cases
                (begin_remote_command w session (CommandPath.method m)
                  (method_parameters m call.arguments) s).0) [
                    | inl (c, b) ↦
                        rw (e, b, remote_call_one)
                          (dispatch_reserved-Keeps w c m call.arguments _ kept)
                    | inr (status, b) ↦ rw (e, b, remote_call_one) kept
                  ]
        ]

    pub remote_call-Keeps :
        (session : Session) (calls : List (World × Call)) (s : Server)
        → P s
        → P (remote_call is_good status_text session calls s).1
    unfolding remote_call
    remote_call-Keeps session [] s h = h
    remote_call-Keeps session ((w, call) ∷ rest) s h =
        remote_call-Keeps session rest _ (remote_call_one-Keeps w session call s h)

  store_node-Keeps : (setting : Setting) (v : ℕ) (s : Server) → P s → P (store_node setting v s)
  unfolding store_node
  store_node-Keeps Setting.threshold_ohm v s h = k.nodes_set _ s h
  store_node-Keeps Setting.averages_per_calculation v s h = k.nodes_set _ s h

  write_one-Keeps :
      (w : World) (session : Session) (write : Write) (s : Server)
      → P s
      → P (write_one w session write s).1
  unfolding write_one
  write_one-Keeps w session write s h = elim (Option-cases (canonical_write write.identifier)) [
    | inl n ↦ rw (n, write_one) h
    | inr (setting, e) ↦
        let parameters : Text =
          bounded (text "{\"value\":" ++ decimal write.value ++ text "}") 256 in
        let (kept, reserved) =
          begin_remote_command-Keeps w session (CommandPath.setting setting) parameters s h in
        elim (Begun-cases
          (begin_remote_command w session (CommandPath.setting setting) parameters s).0) [
            | inr (status, b) ↦ rw (e, b, write_one) kept
            | inl (c, b) ↦
                let (active, fresh) = rw b at reserved in
                rw (e, b, write_one)
                  (if_ind (λ (r : WriteResult × Server). P r.1) write.accepted _ _
                    (q.marked c write.value _ (store_node-active setting write.value _ active) fresh
                      (store_node-Keeps setting write.value _ kept))
                    (k.finish w c.command_id Terminal.failed _ false _ kept))
          ]
  ]

  pub remote_write-Keeps :
      (w : World) (session : Session) (writes : List Write) (s : Server)
      → P s
      → P (remote_write w session writes s).1
  unfolding remote_write
  remote_write-Keeps w session [] s h = h
  remote_write-Keeps w session (write ∷ []) s h = write_one-Keeps w session write s h
  remote_write-Keeps w session (a ∷ b ∷ rest) s h = h
