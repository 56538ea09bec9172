-- ===== src/Tests/Forward.antt =====
-- The forwarding of configuration writes at concrete values.
use gizmo.Prelude.{◌≡◌, refl, Bool, true, false, none, some, [], arith}
use gizmo.Text.{Text, text, strip, lstrip, rstrip, is_space, starts_with, lower, to_lower}
use gizmo.OpcUa.State.{
  ActiveCommand, CommandPath, CommandState, Method, Setting, Verification, Server, World, replied,
  raised,
}
use gizmo.OpcUa.Methods.{Outcome, require_accepted_reply}
use gizmo.OpcUa.Forward.{forward_threshold, forward_step, loop_turn}
use gizmo.OpcUa.Forward.Rejected.{refused_threshold_stays}
use gizmo.OpcUa.Forward.Resolved.{IsResolved}
use gizmo.OpcUa.Forward.Settled.{pending_write_settles}
use gizmo.OpcUa.Forward.Late.{late_mark_succeeds}
use gizmo.OpcUa.Dispatch.{mark_pending}
use gizmo.OpcUa.Reachable.{turned}
use gizmo.OpcUa.Ranges.{InRange, Step-InRange}
use gizmo.Tests.{world, server, command, running_audit}

abbrev pending : ActiveCommand
pending = record (command Method.clear_latch Verification.pending_write) {
  path = CommandPath.setting Setting.threshold_ohm;
}

abbrev refusal : Text
refusal = text "Command failed: no"

abbrev refusing : World
refusing = record world { reply = λ request. replied refusal }

abbrev unchanged : Server
unchanged = server false (some pending) running_audit

abbrev written : Server
written = record unchanged { nodes = record unchanged.nodes { configuration_threshold = 700 } }

refused_reply : require_accepted_reply refusal ≡ raised refusal
unfolding require_accepted_reply strip lstrip rstrip is_space starts_with lower to_lower text
refused_reply = refl

refused_threshold_stays_example :
    let t = forward_step refusing written in
    (t.audit.state ≡ CommandState.failed)
    × (t.active_command ≡ none)
    × (t.last_threshold ≡ 700)
    × (t.nodes.configuration_threshold ≡ 700)
    × (t.nodes.legacy_threshold ≡ 700)
refused_threshold_stays_example =
    refused_threshold_stays refusing pending written refusal refusal
      (record { active = refl; path = refl; waiting = refl }) (omega arith) (omega arith) refl
      refused_reply

is_good : Outcome → Bool
is_good o = true

status_text : Outcome → Text
status_text o = []

Step-InRange_example : InRange (loop_turn world 6_000_000 written)
Step-InRange_example =
    Step-InRange is_good status_text (turned world 6_000_000 written)
      (omega arith, omega arith, omega arith)

abbrev awaiting : ActiveCommand
awaiting = record pending { verification = Verification.threshold }

abbrev forwarded : Server
forwarded = server false (some awaiting) running_audit

late_mark_succeeds_example :
    let u = mark_pending awaiting 500 forwarded in
    let r = (forward_threshold world u.active_command u).1 in
    (r.audit.state ≡ CommandState.succeeded)
    × (r.active_command ≡ none)
    × (r.requests ≡ forwarded.requests)
late_mark_succeeds_example = late_mark_succeeds world awaiting 500 forwarded refl refl refl refl

pending_write_settles_example : IsResolved (forward_step refusing written)
pending_write_settles_example =
    pending_write_settles refusing pending Setting.threshold_ohm written refl refl refl
