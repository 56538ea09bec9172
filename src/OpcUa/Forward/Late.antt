-- ===== src/OpcUa/Forward/Late.antt =====
-- `_remote_write` of src/python/gizmo_opcua.py where a turn of the main loop comes between the write of
-- the node and the mark "pending-write", which is set outside the command lock.
use gizmo.Prelude.{ℕ, ◌≡◌, refl, sym, subst, ap, ◌∙◌, none, some, arith}
use gizmo.Text.Equality.{text_eq_refl}
use gizmo.OpcUa.State.{
  ActiveCommand, CommandPath, CommandState, Setting, Verification, Server, World,
}
use gizmo.OpcUa.Dispatch.{mark_pending}
use gizmo.OpcUa.Forward.{forward_threshold}
use gizmo.OpcUa.Forward.Rejected.{IsPending, unchanged_threshold_succeeds}

module _ (w : World) (c : ActiveCommand) (v : ℕ) (t : Server)
    (active : t.active_command ≡ some c) where
  marked : ActiveCommand
  marked = record c { verification = Verification.pending_write; expected_value = some v }

  mark_pending-active :
      ((mark_pending c v t).active_command ≡ some marked)
      × ((mark_pending c v t).nodes ≡ t.nodes)
      × ((mark_pending c v t).last_threshold ≡ t.last_threshold)
      × ((mark_pending c v t).requests ≡ t.requests)
  unfolding mark_pending marked
  mark_pending-active = ground (arith, text_eq_refl c.command_id)

  -- Where a ThresholdOhm command is active and both nodes show the threshold in force, so that the
  -- command waits for its readback, a late mark makes the next forwarding end the command as
  -- Succeeded, without a request.
  pub late_mark_succeeds :
      c.path ≡ CommandPath.setting Setting.threshold_ohm
      → t.nodes.configuration_threshold ≡ t.last_threshold
      → t.nodes.legacy_threshold ≡ t.last_threshold
      → let u = mark_pending c v t in
        let r = (forward_threshold w u.active_command u).1 in
        (r.audit.state ≡ CommandState.succeeded)
        × (r.active_command ≡ none)
        × (r.requests ≡ t.requests)
  late_mark_succeeds p e f =
      let u : Server = mark_pending c v t in
      let (a, n, l, r) = mark_pending-active in
      let pending : IsPending marked u = record {
        active = a;
        path = unfold marked in p;
        waiting = unfold marked in refl;
      } in
      let (h, k, q) =
        unchanged_threshold_succeeds w marked u pending
          (ap (λ m. m.configuration_threshold) n ∙ e ∙ sym l)
          (ap (λ m. m.legacy_threshold) n ∙ f ∙ sym l) in
      subst (λ o. Ends (forward_threshold w o u).1) (sym a) (h, k, q ∙ r)
    where
      Ends : Server → Type 0
      Ends r =
          (r.audit.state ≡ CommandState.succeeded)
          × (r.active_command ≡ none)
          × (r.requests ≡ t.requests)
