-- ===== src/OpcUa/Forward/Settled.antt =====
-- Pending writes and the forwarding of src/python/gizmo_opcua.py.
use gizmo.Prelude.{
  ℕ, ◌≡◌, refl, sym, subst, ◌⊎◌, inl, inr, true, false, not, ◌&&◌, Option, none, some, ◌∷◌, ◌++◌,
  leb, ◌==◌, arith, Option-cases, if_ind,
}
use gizmo.Text.{Text, text, decimal}
use gizmo.Text.Equality.{text_eq_refl}
use gizmo.OpcUa.State.{ActiveCommand, CommandPath, Setting, Verification, Server, World}
use gizmo.OpcUa.Audit.{
  close_command, finish_command, set_command_running, update_last_command_result,
}
use gizmo.OpcUa.Methods.{request, require_accepted_reply, command_timeout}
use gizmo.OpcUa.Advance.{awaits_dispatch}
use gizmo.OpcUa.Forward.{
  Step, ◌>>◌, requested, is_setting, is_pending_write, set_threshold_nodes, set_interval_nodes,
  start_readback, await_readback, finish_unchanged, send_threshold, forward_threshold,
  forward_interval, forward_time, forward_clear_latch, forward_calibrate, forward_read_adc,
  forward_normalize, forward_configuration_writes, forwarding_failed, forward_step,
}
use gizmo.OpcUa.Keeps.Methods.{Reply-cases}
use gizmo.OpcUa.Keeps.Forward.{
  forward_interval-Keeps, forward_time-Keeps, forward_clear_latch-Keeps, forward_calibrate-Keeps,
  forward_read_adc-Keeps, forward_normalize-Keeps,
}
use gizmo.OpcUa.Forward.Resolved.{
  IsResolved, set_command_running-IsResolved, IsResolved-Keeps, IsResolved-KeepsValues,
}

-- A step that raised, or after which nothing is pending.
abbrev Settled : Step → Type 0
Settled r = ((e : Text) × (r.0 ≡ some e)) ⊎ IsResolved r.1

-- A step that raised, or after which the command is still active.
abbrev Holds : ActiveCommand → Step → Type 0
Holds c r = ((e : Text) × (r.0 ≡ some e)) ⊎ (r.1.active_command ≡ some c)

then-Settled :
    (first next : Server → Step) (s : Server)
    → Settled (first s)
    → ((t : Server) → IsResolved t → Settled (next t))
    → Settled ((first >> next) s)
unfolding ◌>>◌
then-Settled first next s h k = elim (Option-cases (first s).0) [
  | inr (e, p) ↦ rw (p, ◌>>◌) (inl (e, refl))
  | inl n ↦ rw (n, ◌>>◌) (k (first s).1 (elim h [ inl (e, q) ↦ ground (arith, n, q) | inr r ↦ r ]))
]

then-Holds :
    (c : ActiveCommand) (first next : Server → Step) (s : Server)
    → Holds c (first s)
    → ((t : Server) → t.active_command ≡ some c → Settled (next t))
    → Settled ((first >> next) s)
unfolding ◌>>◌
then-Holds c first next s h k = elim (Option-cases (first s).0) [
  | inr (e, p) ↦ rw (p, ◌>>◌) (inl (e, refl))
  | inl n ↦ rw (n, ◌>>◌) (k (first s).1 (elim h [ inl (e, q) ↦ ground (arith, n, q) | inr r ↦ r ]))
]

forwarding_failed-IsResolved :
    (w : World) (e : Text) (s : Server) → IsResolved (forwarding_failed w e s)
unfolding forwarding_failed update_last_command_result finish_command close_command
forwarding_failed-IsResolved w e s = elim (Option-cases s.active_command) [
  | inl n ↦ ground (arith, n)
  | inr (c, a) ↦ ground (arith, a, text_eq_refl c.command_id)
]

module _ (w : World) (c : ActiveCommand) (s : Server) (active : s.active_command ≡ some c) where
  finish_unchanged-IsResolved :
      (setting : Setting) (m : Text)
      → is_setting setting c.path ≡ true
      → is_pending_write c.verification ≡ true
      → IsResolved (finish_unchanged w setting (some c) m s).1
  unfolding finish_unchanged finish_command close_command
  finish_unchanged-IsResolved setting m p q = ground (arith, active, text_eq_refl c.command_id)

  await_readback-Settled :
      (setting : Setting) (v : Verification) (r : Text) (n : ℕ)
      → is_setting setting c.path ≡ true
      → awaits_dispatch v ≡ false
      → Settled (await_readback w setting v (some c) r n s)
  unfolding await_readback start_readback
  await_readback-Settled setting v r n p q = elim (Reply-cases (require_accepted_reply r)) [
    | inl (x, e) ↦ rw (p, e) (inl (x, refl))
    | inr (t, e) ↦
        rw (p, e)
          (elim (Option-cases (
            set_command_running w c.command_id v
              (text "Accepted: " ++ t ++ text "; awaiting measurement readback") (command_timeout w)
              (some n) none s)) [
                | inl m ↦ rw (m, start_readback) (inl (text "command reservation was lost", refl))
                | inr (s', m) ↦
                    rw (m, start_readback)
                      (inr (set_command_running-IsResolved w c.command_id v _ _ _ _ s s' m q))
              ])
  ]

module _ (w : World) (c : ActiveCommand) (pending : is_pending_write c.verification ≡ true) where
  send_threshold-Settled :
      (v : ℕ) (s : Server)
      → s.active_command ≡ some c
      → is_setting Setting.threshold_ohm c.path ≡ true
      → Settled (send_threshold w (some c) v s)
  unfolding send_threshold request
  send_threshold-Settled v s a p =
      if_ind Settled (v == s.last_threshold) _ _
        (inr (finish_unchanged-IsResolved w c s a Setting.threshold_ohm _ p pending))
        (if_ind Settled (not (leb 0 v && leb v 1_000_000)) _ _ (inl (_, refl))
          (elim (Reply-cases (w.reply (text "set_th " ++ decimal v))) [
            | inl (x, e) ↦ rw e (inl (x, refl))
            | inr (r, e) ↦ rw e (
                await_readback-Settled w c _ (kept r v) Setting.threshold_ohm Verification.threshold
                  r v p refl)
          ]))
    where
      kept :
          (r : Text) (v : ℕ)
          → (update_last_command_result r true (
              set_threshold_nodes v (record s {
                last_threshold = v;
                requests = (text "set_th " ++ decimal v) ∷ s.requests;
              }))).active_command
            ≡ some c
      kept r v = unfold update_last_command_result set_threshold_nodes in a

  forward_interval-Settled :
      (s : Server)
      → s.active_command ≡ some c
      → is_setting Setting.averages_per_calculation c.path ≡ true
      → Settled (forward_interval w (some c) s)
  unfolding forward_interval request
  forward_interval-Settled s a p =
      let v =
        requested s.nodes.configuration_interval s.nodes.legacy_measurements s.last_run_interval in
      if_ind Settled (v == s.last_run_interval) _ _
        (inr (finish_unchanged-IsResolved w c s a Setting.averages_per_calculation _ p pending))
        (if_ind Settled (not (leb 1 v && leb v 1_000_000)) _ _ (inl (_, refl))
          (elim (Reply-cases (w.reply (text "run " ++ decimal v))) [
            | inl (x, e) ↦ rw e (inl (x, refl))
            | inr (r, e) ↦ rw e (
                await_readback-Settled w c _ (kept r v) Setting.averages_per_calculation
                  Verification.averages r v p refl)
          ]))
    where
      kept :
          (r : Text) (v : ℕ)
          → (update_last_command_result r true (
              set_interval_nodes v (record s {
                last_run_interval = v;
                requests = (text "run " ++ decimal v) ∷ s.requests;
              }))).active_command
            ≡ some c
      kept r v = unfold update_last_command_result set_interval_nodes in a

  -- The threshold nodes leave a command of the other setting alone.
  send_threshold-Holds :
      (v : ℕ) (s : Server)
      → s.active_command ≡ some c
      → is_setting Setting.threshold_ohm c.path ≡ false
      → Holds c (send_threshold w (some c) v s)
  unfolding send_threshold request finish_unchanged await_readback set_threshold_nodes
      update_last_command_result
  send_threshold-Holds v s a p = if_ind (Holds c) (v == s.last_threshold) _ _ (rw p (inr a)) (
      if_ind (Holds c) (not (leb 0 v && leb v 1_000_000)) _ _ (inl (_, refl))
        (elim (Reply-cases (w.reply (text "set_th " ++ decimal v))) [
          | inl (x, e) ↦ rw e (inl (x, refl))
          | inr (r, e) ↦ rw (e, p) (inr a)
        ]))

  both-Settled :
      (setting : Setting) (s : Server)
      → s.active_command ≡ some c
      → c.path ≡ CommandPath.setting setting
      → Settled ((forward_threshold w (some c) >> forward_interval w (some c)) s)
  unfolding forward_threshold
  both-Settled Setting.threshold_ohm s a p =
      then-Settled (forward_threshold w (some c)) (forward_interval w (some c)) s
        (send_threshold-Settled _ s a (rw p refl))
        (λ t h. inr (forward_interval-Keeps IsResolved-Keeps IsResolved-KeepsValues w (some c) t h))
  both-Settled Setting.averages_per_calculation s a p =
      then-Holds c (forward_threshold w (some c)) (forward_interval w (some c)) s
        (send_threshold-Holds _ s a (rw p refl)) (λ t h. forward_interval-Settled t h (rw p refl))

writes-Settled :
    (w : World) (o : Option ActiveCommand) (s : Server)
    → s.active_command ≡ o
    → Settled ((forward_threshold w o >> forward_interval w o) s)
    → Settled (forward_configuration_writes w s)
unfolding forward_configuration_writes
writes-Settled w o s a h =
    subst
      (λ x. Settled (
        (forward_threshold w x
            >> forward_interval w x
            >> forward_time w
            >> forward_clear_latch w
            >> forward_calibrate w
            >> forward_read_adc w
            >> forward_normalize w)
          s))
      (sym a)
      (then-Settled _ _ s
        (then-Settled _ _ s
          (then-Settled _ _ s
            (then-Settled _ _ s
              (then-Settled _ _ s h
                (λ t k. inr (forward_time-Keeps IsResolved-Keeps IsResolved-KeepsValues w t k)))
              (λ t k.
                inr (forward_clear_latch-Keeps IsResolved-Keeps IsResolved-KeepsValues w t k)))
            (λ t k. inr (forward_calibrate-Keeps IsResolved-Keeps IsResolved-KeepsValues w t k)))
          (λ t k. inr (forward_read_adc-Keeps IsResolved-Keeps IsResolved-KeepsValues w t k)))
        (λ t k. inr (forward_normalize-Keeps IsResolved-Keeps IsResolved-KeepsValues w t k)))

-- A write that waits to be forwarded waits for one turn only: whatever the nodes hold and whatever
-- the ZeroMQ server answers, it is not pending behind the forwarding and its exception handler.
pub pending_write_settles :
    (w : World) (c : ActiveCommand) (setting : Setting) (s : Server)
    → s.active_command ≡ some c
    → c.path ≡ CommandPath.setting setting
    → c.verification ≡ Verification.pending_write
    → IsResolved (forward_step w s)
unfolding forward_step
pending_write_settles w c setting s a p q =
    elim (Option-cases (forward_configuration_writes w s).0) [
      | inr (e, k) ↦
          rw (k, forward_step)
            (forwarding_failed-IsResolved w e (forward_configuration_writes w s).1)
      | inl n ↦
          rw (n, forward_step)
            (elim (writes-Settled w (some c) s a (both-Settled w c (rw q refl) setting s a p)) [
              | inl (e, k) ↦ ground (arith, n, k)
              | inr r ↦ r
            ])
    ]
