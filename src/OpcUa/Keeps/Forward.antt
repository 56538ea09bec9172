-- ===== src/OpcUa/Keeps/Forward.antt =====
-- The forwarding of configuration writes, built of steps that keep `P`.
use gizmo.Prelude.{
  ℕ, ◌≤◌, ◌≡◌, refl, true, false, not, ◌&&◌, Option, none, some, ◌++◌, arith, leb, ◌==◌, if_ind,
  if_cases, Option-cases, inl, inr,
}
use gizmo.Text.{Text, text, text_eq, decimal}
use gizmo.OpcUa.State.{
  ActiveCommand, Setting, Terminal, Verification, Server, World, Reply, raised, replied,
}
use gizmo.OpcUa.Audit.{set_command_running, update_last_command_result}
use gizmo.OpcUa.Methods.{request, require_accepted_reply, command_timeout}
use gizmo.OpcUa.Advance.{awaits_dispatch}
use gizmo.OpcUa.Forward.{
  Step, ◌>>◌, requested, is_setting, is_pending_write, set_threshold_nodes, set_interval_nodes,
  start_readback, await_readback, finish_unchanged, send_threshold, forward_threshold,
  forward_interval, forward_time, forward_clear_latch, forward_calibrate, forward_read_adc,
  forward_normalize, forward_configuration_writes, forwarding_failed, forward_step,
  finish_adc_capture,
}
use gizmo.OpcUa.Keeps.{Keeps}
use gizmo.OpcUa.Keeps.Methods.{Reply-cases}

-- The values in force change to ones within the range, and the legacy clock text to any.
pub record KeepsValues (P : Server → Type 0) : Type 0 where
  pub threshold : (v : ℕ) (s : Server) → v ≤ 1_000_000 → P s → P (record s { last_threshold = v })
  pub interval :
      (v : ℕ) (s : Server) → 1 ≤ v → v ≤ 1_000_000 → P s → P (record s { last_run_interval = v })
  pub clock : (t : Text) (s : Server) → P s → P (record s { last_time = t })

threshold_in_range : (v : ℕ) → not (leb 0 v && leb v 1_000_000) ≡ false → v ≤ 1_000_000
threshold_in_range v h = ground arith

interval_in_range : (v : ℕ) → not (leb 1 v && leb v 1_000_000) ≡ false → (1 ≤ v) × (v ≤ 1_000_000)
interval_in_range v h = ground arith

module _ {P : Server → Type 0} (k : Keeps P) where
  abbrev KeepsStep : Step → Type 0
  KeepsStep r = P r.1

  start_readback-Keeps :
      (w : World) (c : ActiveCommand) (v : Verification) (r : Reply) (value : ℕ) (s : Server)
      → awaits_dispatch v ≡ false
      → P s
      → P (start_readback w c v r value s).1
  unfolding start_readback
  start_readback-Keeps w c v (raised e) value s now h = h
  start_readback-Keeps w c v (replied t) value s now h =
      elim (Option-cases (
        set_command_running w c.command_id v
          (text "Accepted: " ++ t ++ text "; awaiting measurement readback") (command_timeout w)
          (some value) none s)) [
            | inl n ↦ rw (n, start_readback) h
            | inr (s', e) ↦
                rw (e, start_readback) (k.start w c.command_id v _ _ _ none s s' e now h)
          ]

  await_readback-Keeps :
      (w : World) (setting : Setting) (v : Verification) (active : Option ActiveCommand)
      (reply : Text) (value : ℕ) (s : Server)
      → awaits_dispatch v ≡ false
      → P s
      → P (await_readback w setting v active reply value s).1
  unfolding await_readback
  await_readback-Keeps w setting v none reply value s now h = h
  await_readback-Keeps w setting v (some c) reply value s now h =
      if_ind KeepsStep (is_setting setting c.path) _ _
        (start_readback-Keeps w c v (require_accepted_reply reply) value s now h) h

  finish_unchanged-Keeps :
      (w : World) (setting : Setting) (active : Option ActiveCommand) (m : Text) (s : Server)
      → P s
      → P (finish_unchanged w setting active m s).1
  unfolding finish_unchanged
  finish_unchanged-Keeps w setting none m s h = h
  finish_unchanged-Keeps w setting (some c) m s h =
      if_ind P (is_setting setting c.path && is_pending_write c.verification) _ _
        (k.finish w c.command_id Terminal.succeeded m false s h) h

  then_keeps :
      (first next : Server → Step) (s : Server)
      → ((t : Server) → P t → P (first t).1)
      → ((t : Server) → P t → P (next t).1)
      → P s
      → P ((first >> next) s).1
  unfolding ◌>>◌
  then_keeps first next s kf kn h = elim (Option-cases (first s).0) [
    | inl e ↦ rw (e, ◌>>◌) (kn _ (kf s h))
    | inr (x, e) ↦ rw (e, ◌>>◌) (kf s h)
  ]

  module _ (v : KeepsValues P) where
    forward_threshold-Keeps :
        (w : World) (active : Option ActiveCommand) (s : Server)
        → P s
        → P (forward_threshold w active s).1
    unfolding forward_threshold send_threshold request set_threshold_nodes
    forward_threshold-Keeps w active s h =
        let value =
          requested s.nodes.configuration_threshold s.nodes.legacy_threshold s.last_threshold in
        if_ind KeepsStep (value == s.last_threshold) _ _ (finish_unchanged-Keeps w _ active _ s h) (
          if_cases KeepsStep (not (leb 0 value && leb value 1_000_000)) _ _ (λ _. k.nodes_set _ s h)
            λ e. elim (Reply-cases (w.reply (text "set_th " ++ decimal value))) [
              | inl (x, p) ↦ rw p (k.nodes_set _ _ (k.sent _ s h))
              | inr (r, p) ↦ rw p (
                  await_readback-Keeps w _ _ active r value _ refl (
                    k.last_result r true _ (
                      k.nodes_set _ _
                        (v.threshold value _ (threshold_in_range value e) (k.sent _ s h)))))
            ])

    pub forward_interval-Keeps :
        (w : World) (active : Option ActiveCommand) (s : Server)
        → P s
        → P (forward_interval w active s).1
    unfolding forward_interval request set_interval_nodes
    forward_interval-Keeps w active s h =
        let value =
          requested s.nodes.configuration_interval s.nodes.legacy_measurements
            s.last_run_interval in
        if_ind KeepsStep (value == s.last_run_interval) _ _
          (finish_unchanged-Keeps w _ active _ s h)
          (if_cases KeepsStep (not (leb 1 value && leb value 1_000_000)) _ _
            (λ _. k.nodes_set _ s h)
            λ e. elim (Reply-cases (w.reply (text "run " ++ decimal value))) [
              | inl (x, p) ↦ rw p (k.nodes_set _ _ (k.sent _ s h))
              | inr (r, p) ↦ rw p (
                  await_readback-Keeps w _ _ active r value _ refl (
                    k.last_result r true _ (
                      k.nodes_set _ _ (
                        let (a, b) = interval_in_range value e in
                        v.interval value _ a b (k.sent _ s h)))))
            ])

    pub forward_time-Keeps : (w : World) (s : Server) → P s → P (forward_time w s).1
    unfolding forward_time request
    forward_time-Keeps w s h =
        if_ind KeepsStep (text_eq s.nodes.legacy_set_time s.last_time) _ _ h
          (elim (Reply-cases (w.reply (text "set_time " ++ s.nodes.legacy_set_time))) [
            | inl (x, p) ↦ rw p (k.nodes_set _ _ (k.sent _ s h))
            | inr (r, p) ↦ rw p (v.clock _ _ (k.sent _ s h))
          ])

    pub forward_clear_latch-Keeps : (w : World) (s : Server) → P s → P (forward_clear_latch w s).1
    unfolding forward_clear_latch request
    forward_clear_latch-Keeps w s h =
        if_ind KeepsStep (text_eq s.nodes.legacy_clear_latch (text "clear_latch")) _ _
          (elim (Reply-cases (w.reply (text "clear_latch"))) [
            | inl (x, p) ↦ rw p (k.sent _ _ (k.nodes_set _ s h))
            | inr (r, p) ↦ rw p (k.sent _ _ (k.nodes_set _ s h))
          ])
          h

    pub forward_calibrate-Keeps : (w : World) (s : Server) → P s → P (forward_calibrate w s).1
    unfolding forward_calibrate request
    forward_calibrate-Keeps w s h =
        if_ind KeepsStep (s.nodes.legacy_calibrate == 1) _ _
          (elim (Reply-cases (w.reply (text "CAL " ++ decimal s.last_run_interval))) [
            | inl (x, p) ↦ rw p (k.sent _ _ (k.nodes_set _ s h))
            | inr (r, p) ↦ rw p (k.sent _ _ (k.nodes_set _ s h))
          ])
          h

    pub forward_read_adc-Keeps : (w : World) (s : Server) → P s → P (forward_read_adc w s).1
    unfolding forward_read_adc request
    forward_read_adc-Keeps w s h =
        if_ind KeepsStep (s.nodes.legacy_read_adc == 1) _ _
          (elim (Reply-cases (w.reply (text "read_adc"))) [
            | inl (x, p) ↦ rw p (k.sent _ _ (k.nodes_set _ s h))
            | inr (r, p) ↦ rw p (k.adc_ready _ _ (k.sent _ _ (k.nodes_set _ s h)))
          ])
          h

    pub forward_normalize-Keeps : (w : World) (s : Server) → P s → P (forward_normalize w s).1
    unfolding forward_normalize
    forward_normalize-Keeps w s h =
        if_ind KeepsStep (s.nodes.legacy_normalize == 1) _ _
          (if_ind KeepsStep w.disk _ _ (k.nodes_set _ s h) h) h

    forward_configuration_writes-Keeps :
        (w : World) (s : Server) → P s → P (forward_configuration_writes w s).1
    unfolding forward_configuration_writes
    forward_configuration_writes-Keeps w s =
        let a = s.active_command in
        then_keeps _ _ s
          (λ t.
            then_keeps _ _ t
              (λ t.
                then_keeps _ _ t
                  (λ t.
                    then_keeps _ _ t
                      (λ t.
                        then_keeps _ _ t
                          (λ t.
                            then_keeps _ _ t (forward_threshold-Keeps w a)
                              (forward_interval-Keeps w a))
                          (forward_time-Keeps w))
                      (forward_clear_latch-Keeps w))
                  (forward_calibrate-Keeps w))
              (forward_read_adc-Keeps w))
          (forward_normalize-Keeps w)

    forwarding_failed-Keeps :
        (w : World) (e : Text) (s : Server) → P s → P (forwarding_failed w e s)
    unfolding forwarding_failed
    forwarding_failed-Keeps w e s h =
        let s' = update_last_command_result (text "Command failed: " ++ e) false s in
        elim (Option-cases s'.active_command) [
          | inl n ↦ rw (n, forwarding_failed) (k.last_result _ false s h)
          | inr (c, p) ↦
              rw (p, forwarding_failed)
                (if_ind P (is_pending_write c.verification) _ _
                  (k.finish w c.command_id Terminal.failed _ false _ (k.last_result _ false s h))
                  (k.last_result _ false s h))
        ]

    pub forward_step-Keeps : (w : World) (s : Server) → P s → P (forward_step w s)
    unfolding forward_step
    forward_step-Keeps w s h = elim (Option-cases (forward_configuration_writes w s).0) [
      | inl n ↦ rw (n, forward_step) (forward_configuration_writes-Keeps w s h)
      | inr (e, p) ↦
          rw (p, forward_step)
            (forwarding_failed-Keeps w e _ (forward_configuration_writes-Keeps w s h))
    ]

  pub finish_adc_capture-Keeps :
      (w : World) (now : ℕ) (s : Server) → P s → P (finish_adc_capture w now s)
  unfolding finish_adc_capture
  finish_adc_capture-Keeps w now s h = elim (Option-cases s.adc_ready_at) [
    | inl n ↦ rw (n, finish_adc_capture) h
    | inr (at, p) ↦
        rw (p, finish_adc_capture)
          (if_ind P (leb at now) _ _ (k.nodes_set _ _ (k.adc_ready none s h)) h)
  ]
