-- ===== src/OpcUa/Keeps/Methods.antt =====
-- The canonical methods, built of steps that keep `P`.
use gizmo.Prelude.{
  ℕ, ◌/◌, ◌≡◌, ◌⊎◌, refl, Bool, true, false, not, ◌||◌, Option, none, ◌∷◌, ◌++◌, ltb, if_ind,
  Option-cases, inl, inr,
}
use gizmo.Text.{Text}
use gizmo.OpcUa.State.{
  ActiveCommand, CalibrationState, Method, Restoration, Terminal, Verification, Server, World,
  Reply, replied, raised,
}
use gizmo.OpcUa.Audit.{set_command_running}
use gizmo.OpcUa.Advance.{awaits_dispatch}
use gizmo.OpcUa.Methods.{
  Outcome, Arguments, accepted_request, command_result, fail_command, run_and_return, try_request,
  fail_with, fail_calibration, start_calibration, set_system_time, clear_latch_method,
  start_calibration_method, capture_adc_method, normalize_magnitude_method, set_system_time_method,
  restart_measurement_engine_method, restoring_method, abort_calibration_method,
  restore_normal_state_method,
}
use gizmo.OpcUa.Dispatch.{current_command, run_method, dispatch}
use gizmo.OpcUa.Keeps.{Keeps}

pub Reply-cases : (r : Reply) → ((e : Text) × (r ≡ raised e)) ⊎ ((t : Text) × (r ≡ replied t))
Reply-cases (raised e) = inl (e, refl)
Reply-cases (replied t) = inr (t, refl)

module _ {P : Server → Type 0} (k : Keeps P) where
  fail_command-Keeps :
      (w : World) (c : ActiveCommand) (m : Text) (lock : Bool) (s : Server)
      → P s
      → P (fail_command w c m lock s).1
  unfolding fail_command
  fail_command-Keeps w c m lock s h = k.finish w c.command_id Terminal.failed m lock s h

  pub accepted_request-Keeps :
      (w : World) (command : Text) (s : Server) → P s → P (accepted_request w command s).1
  unfolding accepted_request
  accepted_request-Keeps w command s h = k.sent (command ∷ s.requests) s h

  command_result-Keeps :
      (w : World) (result : Text) (s : Server) → P s → P (command_result w result s).1
  unfolding command_result
  command_result-Keeps w result s h = k.last_result _ true s h

  run_and_return-Keeps :
      (w : World) (c : ActiveCommand) (verification : Verification) (accepted : Text) (timeout : ℕ)
      (expected : Option ℕ) (terminal : Option CalibrationState)
      (handler : Text → Server → Outcome × Server) (s : Server)
      → awaits_dispatch verification ≡ false
      → ((e : Text) (t : Server) → P t → P (handler e t).1)
      → P s
      → P (run_and_return w c verification accepted timeout expected terminal handler s).1
  unfolding run_and_return
  run_and_return-Keeps w c v accepted timeout expected terminal handler s now hh h =
      elim (Option-cases
        (set_command_running w c.command_id v accepted timeout expected terminal s)) [
          | inl n ↦ rw (n, run_and_return) (hh _ s h)
          | inr (s', e) ↦
              rw (e, run_and_return)
                (unfold command_result in
                  k.last_result _ true s'
                    (k.start w c.command_id v accepted timeout expected terminal s s' e now h))
        ]

  try_request-Keeps :
      (w : World) (command : Text) (handler body : Text → Server → Outcome × Server) (s : Server)
      → ((e : Text) (t : Server) → P t → P (handler e t).1)
      → ((r : Text) (t : Server) → P t → P (body r t).1)
      → P s
      → P (try_request w command handler body s).1
  unfolding try_request
  try_request-Keeps w command handler body s hh hb h =
      elim (Reply-cases (accepted_request w command s).0) [
        | inl (e, p) ↦ rw (p, try_request) (hh e _ (accepted_request-Keeps w command s h))
        | inr (r, p) ↦ rw (p, try_request) (hb r _ (accepted_request-Keeps w command s h))
      ]

  fail_with-Keeps :
      (w : World) (c : ActiveCommand) (m e : Text) (s : Server) → P s → P (fail_with w c m e s).1
  unfolding fail_with
  fail_with-Keeps w c m e s h = fail_command-Keeps w c (m ++ e) false s h

  fail_calibration-Keeps :
      (w : World) (c : ActiveCommand) (m : Text) (r : Restoration) (lock : Bool) (e : Text)
      (s : Server)
      → P s
      → P (fail_calibration w c m r lock e s).1
  unfolding fail_calibration
  fail_calibration-Keeps w c m r lock e s h =
      fail_command-Keeps w c (m ++ e) lock _
        (k.set_calibration w CalibrationState.failed none (m ++ e) r true s h)

  clear_latch_method-Keeps :
      (w : World) (c : ActiveCommand) (s : Server) → P s → P (clear_latch_method w c s).1
  unfolding clear_latch_method
  clear_latch_method-Keeps w c s =
      try_request-Keeps w _ _ _ s (fail_with-Keeps w c _)
        (λ r t. run_and_return-Keeps w c _ _ _ _ _ _ t refl (fail_with-Keeps w c _))

  start_calibration_method-Keeps :
      (w : World) (c : ActiveCommand) (n : ℕ) (s : Server)
      → P s
      → P (start_calibration_method w c n s).1
  unfolding start_calibration_method start_calibration
  start_calibration_method-Keeps w c n s h =
      if_ind (λ (r : Outcome × Server). P r.1) (ltb n 1 || ltb 1_000_000 n) _ _
        (fail_command-Keeps w c _ false s h)
        (try_request-Keeps w _ _ _ _ (fail_calibration-Keeps w c _ _ _)
          (λ r t ht.
            run_and_return-Keeps w c _ _ _ _ _ _ _ refl (fail_calibration-Keeps w c _ _ _)
              (k.set_calibration w _ _ _ _ _ t ht))
          (k.set_calibration w _ _ _ _ _ s h))

  capture_adc_method-Keeps :
      (w : World) (c : ActiveCommand) (s : Server) → P s → P (capture_adc_method w c s).1
  unfolding capture_adc_method
  capture_adc_method-Keeps w c s = try_request-Keeps w _ _ _ s (fail_with-Keeps w c _) (λ r t h.
      run_and_return-Keeps w c _ _ _ _ _ _ _ refl (fail_with-Keeps w c _) (k.adc_ready _ t h))

  normalize_magnitude_method-Keeps :
      (w : World) (c : ActiveCommand) (s : Server) → P s → P (normalize_magnitude_method w c s).1
  unfolding normalize_magnitude_method
  normalize_magnitude_method-Keeps w c s h =
      if_ind (λ (r : Outcome × Server). P r.1) (not w.disk) _ _ (fail_with-Keeps w c _ _ s h)
        (if_ind (λ (r : Outcome × Server). P r.1) (not w.flag_read_back) _ _
          (fail_with-Keeps w c _ _ s h)
          (command_result-Keeps w _ _
            (k.rescheduled _ _ (k.finish w c.command_id Terminal.succeeded _ false s h))))

  set_system_time_method-Keeps :
      (w : World) (c : ActiveCommand) (n : ℕ) (s : Server)
      → P s
      → P (set_system_time_method w c n s).1
  unfolding set_system_time_method set_system_time
  set_system_time_method-Keeps w c n s h =
      if_ind (λ (r : Outcome × Server). P r.1)
        (ltb (n / 1_000_000) 946_684_800 || ltb 4_102_444_800 (n / 1_000_000)) _ _
        (fail_command-Keeps w c _ false s h)
        (try_request-Keeps w _ _ _ s (fail_with-Keeps w c _)
          (λ r t ht.
            run_and_return-Keeps w c _ _ _ _ _ _ _ refl (fail_with-Keeps w c _)
              (k.rescheduled _ t ht))
          h)

  restart_measurement_engine_method-Keeps :
      (w : World) (c : ActiveCommand) (s : Server)
      → P s
      → P (restart_measurement_engine_method w c s).1
  unfolding restart_measurement_engine_method
  restart_measurement_engine_method-Keeps w c s =
      try_request-Keeps w _ _ _ s (fail_with-Keeps w c _)
        (λ r t. run_and_return-Keeps w c _ _ _ _ _ _ t refl (fail_with-Keeps w c _))

  restoring_method-Keeps :
      (w : World) (c : ActiveCommand) (m f : Text) (terminal : CalibrationState) (s : Server)
      → P s
      → P (restoring_method w c m f terminal s).1
  unfolding restoring_method
  restoring_method-Keeps w c m f terminal s h =
      try_request-Keeps w _ _ _ _ (fail_calibration-Keeps w c _ _ _)
        (λ r t. run_and_return-Keeps w c _ _ _ _ _ _ t refl (fail_calibration-Keeps w c _ _ _))
        (k.set_calibration w _ _ _ _ _ s h)

  run_method-Keeps :
      (w : World) (c : ActiveCommand) (m : Method) (a : Arguments) (s : Server)
      → P s
      → P (run_method w c m a s).1
  unfolding run_method abort_calibration_method restore_normal_state_method
  run_method-Keeps w c Method.clear_latch Arguments.empty s h = clear_latch_method-Keeps w c s h
  run_method-Keeps w c Method.start_calibration (Arguments.reads_per_point n) s h =
      start_calibration_method-Keeps w c n s h
  run_method-Keeps w c Method.capture_adc Arguments.empty s h = capture_adc_method-Keeps w c s h
  run_method-Keeps w c Method.normalize_magnitude Arguments.empty s h =
      normalize_magnitude_method-Keeps w c s h
  run_method-Keeps w c Method.set_system_time (Arguments.requested_time t iso) s h =
      set_system_time_method-Keeps w c t s h
  run_method-Keeps w c Method.set_system_time (Arguments.reads_per_point n) s h =
      fail_command-Keeps w c _ false s h
  run_method-Keeps w c Method.restart_measurement_engine Arguments.empty s h =
      restart_measurement_engine_method-Keeps w c s h
  run_method-Keeps w c Method.abort_calibration Arguments.empty s h =
      restoring_method-Keeps w c _ _ _ s h
  run_method-Keeps w c Method.restore_normal_state Arguments.empty s h =
      restoring_method-Keeps w c _ _ _ s h
  run_method-Keeps w c m a s h = h

  pub dispatch-Keeps :
      (w : World) (id : Text) (m : Method) (a : Arguments) (s : Server)
      → P s
      → P (dispatch w id m a s).1
  unfolding dispatch
  dispatch-Keeps w id m a s h = elim (Option-cases (current_command id s)) [
    | inl e ↦ rw (e, dispatch) h
    | inr (c, e) ↦ rw (e, dispatch) (run_method-Keeps w c m a s h)
  ]
