-- ===== src/OpcUa/Forward/Rejected.antt =====
-- A threshold that the ZeroMQ server refuses, in `_forward_configuration_writes` of
-- src/python/gizmo_opcua.py.
use gizmo.Prelude.{
  ℕ, ◌≤◌, ◌≡◌, ◌≢◌, refl, sym, subst, ap, ◌∙◌, true, false, ◌&&◌, none, some, ◌∷◌, ◌++◌, leb, ◌==◌,
  arith,
}
use gizmo.Text.{Text, text, decimal}
use gizmo.Text.Equality.{text_eq_refl}
use gizmo.OpcUa.State.{
  ActiveCommand, CommandPath, CommandState, Setting, Verification, Server, World, raised, replied,
}
use gizmo.OpcUa.Audit.{close_command, finish_command, update_last_command_result}
use gizmo.OpcUa.Methods.{request, require_accepted_reply}
use gizmo.OpcUa.Forward.{
  Step, ◌>>◌, requested, is_setting, set_threshold_nodes, start_readback, await_readback,
  finish_unchanged, send_threshold, forward_threshold, forward_configuration_writes,
  forwarding_failed, forward_step,
}

-- The threshold command waits for its write to be forwarded.
pub record IsPending (c : ActiveCommand) (s : Server) : Type 0 where
  pub active : s.active_command ≡ some c
  pub path : c.path ≡ CommandPath.setting Setting.threshold_ohm
  pub waiting : c.verification ≡ Verification.pending_write

requested_first : (a b last : ℕ) → a ≢ last → requested a b last ≡ a
requested_first a b last n = ground arith

differs : (a last : ℕ) → a ≢ last → (a == last) ≡ false
differs a last n = ground arith

accepted_range : (v : ℕ) → v ≤ 1_000_000 → (leb 0 v && leb v 1_000_000) ≡ true
accepted_range v h = ground arith

is_threshold :
    (p : CommandPath)
    → p ≡ CommandPath.setting Setting.threshold_ohm
    → is_setting Setting.threshold_ohm p ≡ true
is_threshold p h = ground (arith, h)

-- What is left when the threshold `v` has gone out and `reply` has come back.
abbrev sent : Text → ℕ → Server → Server
sent reply v s = update_last_command_result reply true (
    set_threshold_nodes v
      (record s { last_threshold = v; requests = (text "set_th " ++ decimal v) ∷ s.requests }))

module _ (w : World) (c : ActiveCommand) (v : ℕ) (s : Server) (reply error : Text) where
  send_threshold-refused :
      c.path ≡ CommandPath.setting Setting.threshold_ohm
      → v ≢ s.last_threshold
      → v ≤ 1_000_000
      → w.reply (text "set_th " ++ decimal v) ≡ replied reply
      → require_accepted_reply reply ≡ raised error
      → send_threshold w (some c) v s ≡ (some error, sent reply v s)
  unfolding send_threshold await_readback start_readback request
  send_threshold-refused p n l r e =
      rw (differs v s.last_threshold n, accepted_range v l, r, is_threshold c.path p, e) refl

  -- What the handler of the main loop makes of the refusal.
  forwarding_failed-refused :
      s.active_command ≡ some c
      → c.verification ≡ Verification.pending_write
      → let t = forwarding_failed w error (sent reply v s) in
        (t.audit.state ≡ CommandState.failed)
        × (t.active_command ≡ none)
        × (t.last_threshold ≡ v)
        × (t.nodes.configuration_threshold ≡ v)
        × (t.nodes.legacy_threshold ≡ v)
  unfolding forwarding_failed update_last_command_result set_threshold_nodes finish_command
      close_command
  forwarding_failed-refused a q = ground (arith, text_eq_refl c.command_id)

stops :
    (m k : Server → Step) (e : Text) (s t : Server) → m s ≡ (some e, t) → (m >> k) s ≡ (some e, t)
unfolding ◌>>◌
stops m k e s t h = rw (h, ◌>>◌) (ap (λ (r : Step). (some e, r.1)) h)

-- A threshold in range whose request the ZeroMQ server answers with a refusal fails its command, and
-- is nevertheless what the server takes for the value in force and shows in both nodes.
pub refused_threshold_stays :
    (w : World) (c : ActiveCommand) (s : Server) (reply error : Text)
    → IsPending c s
    → s.nodes.configuration_threshold ≢ s.last_threshold
    → s.nodes.configuration_threshold ≤ 1_000_000
    → w.reply (text "set_th " ++ decimal s.nodes.configuration_threshold) ≡ replied reply
    → require_accepted_reply reply ≡ raised error
    → let t = forward_step w s in
      (t.audit.state ≡ CommandState.failed)
      × (t.active_command ≡ none)
      × (t.last_threshold ≡ s.nodes.configuration_threshold)
      × (t.nodes.configuration_threshold ≡ s.nodes.configuration_threshold)
      × (t.nodes.legacy_threshold ≡ s.nodes.configuration_threshold)
unfolding forward_step
refused_threshold_stays w c s reply error p n l r e =
    subst (λ r. Ends (handled r)) (sym forwarded)
      (forwarding_failed-refused w c s.nodes.configuration_threshold s reply error p.active
        p.waiting)
  where
    handled : Step → Server
    handled r = elim r.0 [ none ↦ r.1 | some e ↦ forwarding_failed w e r.1 ]

    Ends : Server → Type 0
    Ends t =
        (t.audit.state ≡ CommandState.failed)
        × (t.active_command ≡ none)
        × (t.last_threshold ≡ s.nodes.configuration_threshold)
        × (t.nodes.configuration_threshold ≡ s.nodes.configuration_threshold)
        × (t.nodes.legacy_threshold ≡ s.nodes.configuration_threshold)

    after : Server
    after = sent reply s.nodes.configuration_threshold s

    first : forward_threshold w s.active_command s ≡ (some error, after)
    first =
        ap (λ a. forward_threshold w a s) p.active
        ∙ unfold forward_threshold in
          (ap (λ v. send_threshold w (some c) v s)
              (requested_first s.nodes.configuration_threshold s.nodes.legacy_threshold
                s.last_threshold n)
            ∙ send_threshold-refused w c s.nodes.configuration_threshold s reply error p.path n l r
                e)

    forwarded : forward_configuration_writes w s ≡ (some error, after)
    forwarded =
        unfold forward_configuration_writes in
        stops _ _ error s after (
          stops _ _ error s after (
            stops _ _ error s after
              (stops _ _ error s after (stops _ _ error s after (stops _ _ error s after first)))))

-- A pending write of the threshold that is already in force, in both nodes, ends as Succeeded
-- without a request.
pub unchanged_threshold_succeeds :
    (w : World) (c : ActiveCommand) (s : Server)
    → IsPending c s
    → s.nodes.configuration_threshold ≡ s.last_threshold
    → s.nodes.legacy_threshold ≡ s.last_threshold
    → let t = (forward_threshold w (some c) s).1 in
      (t.audit.state ≡ CommandState.succeeded)
      × (t.active_command ≡ none)
      × (t.requests ≡ s.requests)
unfolding forward_threshold send_threshold finish_unchanged finish_command close_command
unchanged_threshold_succeeds w c s p e f =
    ground (arith, e, f, p.active, p.path, p.waiting, text_eq_refl c.command_id)
