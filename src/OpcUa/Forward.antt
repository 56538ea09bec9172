-- ===== src/OpcUa/Forward.antt =====
-- `_forward_configuration_writes` of src/python/gizmo_opcua.py, its exception handler in `run`, and
-- one turn of the main loop.
pub mod Late
pub mod Rejected
pub mod Resolved
pub mod Settled
use gizmo.Prelude.{
  ℕ, ◌*◌, ◌+◌, Bool, true, false, not, ◌&&◌, Option, none, some, [], ◌++◌, leb, ◌==◌, if◌then◌else◌,
}
use gizmo.Text.{Text, text, text_eq, decimal}
use gizmo.OpcUa.State.{
  Terminal, Setting, CommandPath, Verification, ActiveCommand, Server, World, Reply, replied,
  raised, second,
}
use gizmo.OpcUa.Audit.{finish_command, set_command_running, update_last_command_result}
use gizmo.OpcUa.Methods.{request, require_accepted_reply, command_timeout}
use gizmo.OpcUa.Advance.{advance_active_command}

abbrev pub threshold_min_ohm : ℕ
threshold_min_ohm = 0

abbrev pub threshold_max_ohm : ℕ
threshold_max_ohm = 1_000_000

-- The exception's text, if the step raised, and the state that it left.
abbrev pub Step : Type 0
Step = Option Text × Server

-- One statement after the other: an exception skips what follows.
infixl 5 ◌>>◌
unfoldable pub ◌>>◌ : (Server → Step) → (Server → Step) → Server → Step
◌>>◌ first next s =
    let (error, s') = first s in elim error [ some e ↦ (some e, s') | none ↦ next s' ]

-- `next((value for value in (a, b) if value != last), last)`
abbrev pub requested : ℕ → ℕ → ℕ → ℕ
requested a b last = if not (a == last) then a else if not (b == last) then b else last

abbrev pub is_setting : Setting → CommandPath → Bool
is_setting Setting.threshold_ohm (CommandPath.setting Setting.threshold_ohm) = true
is_setting Setting.averages_per_calculation (CommandPath.setting Setting.averages_per_calculation) =
    true
is_setting _ _ = false

abbrev pub is_pending_write : Verification → Bool
is_pending_write Verification.pending_write = true
is_pending_write _ = false

unfoldable pub set_threshold_nodes : ℕ → Server → Server
set_threshold_nodes v s = record s {
  nodes = record s.nodes { configuration_threshold = v; legacy_threshold = v };
}

unfoldable pub set_interval_nodes : ℕ → Server → Server
set_interval_nodes v s = record s {
  nodes = record s.nodes { configuration_interval = v; legacy_measurements = v };
}

unfoldable pub start_readback : World → ActiveCommand → Verification → Reply → ℕ → Server → Step
start_readback w c verification (raised e) value s = (some e, s)
start_readback w c verification (replied t) value s =
    elim (set_command_running w c.command_id verification
      (text "Accepted: " ++ t ++ text "; awaiting measurement readback") (command_timeout w)
      (some value) none s) [
        | none ↦ (some (text "command reservation was lost"), s)
        | some running ↦ (none, running)
      ]

-- The active command of this setting goes on to wait for its readback.
unfoldable pub await_readback :
    World → Setting → Verification → Option ActiveCommand → Text → ℕ → Server → Step
await_readback w setting verification none reply value s = (none, s)
await_readback w setting verification (some c) reply value s =
    if is_setting setting c.path
    then start_readback w c verification (require_accepted_reply reply) value s
    else (none, s)

-- The active command of this setting asked for the value that is already in force.
unfoldable pub finish_unchanged : World → Setting → Option ActiveCommand → Text → Server → Step
finish_unchanged w setting none message s = (none, s)
finish_unchanged w setting (some c) message s = (
  none,
  if is_setting setting c.path && is_pending_write c.verification
      then finish_command w c.command_id Terminal.succeeded message false s
      else s,
)

-- The first part, with the threshold that is requested.
unfoldable pub send_threshold : World → Option ActiveCommand → ℕ → Server → Step
send_threshold w active value s =
    if value == s.last_threshold
    then finish_unchanged w Setting.threshold_ohm active
        (text "Threshold already read back as "
          ++ decimal s.last_threshold
          ++ text " ohm; no restart required")
        s
    else if not (leb threshold_min_ohm value && leb value threshold_max_ohm)
    then (
      some (text "threshold must be between 0 and 1000000"),
      set_threshold_nodes s.last_threshold s,
    )
    else let (reply, sent) = request w (text "set_th " ++ decimal value) s in
      elim reply [
        | raised e ↦ (some e, set_threshold_nodes s.last_threshold sent)
        | replied r ↦ await_readback w Setting.threshold_ohm Verification.threshold active r value (
            update_last_command_result r true
              (set_threshold_nodes value (record sent { last_threshold = value })))
      ]

-- The first part: the threshold nodes.
unfoldable pub forward_threshold : World → Option ActiveCommand → Server → Step
forward_threshold w active s =
    send_threshold w active
      (requested s.nodes.configuration_threshold s.nodes.legacy_threshold s.last_threshold) s

-- The second part: the nodes of the averaging count.
unfoldable pub forward_interval : World → Option ActiveCommand → Server → Step
forward_interval w active s =
    let value =
      requested s.nodes.configuration_interval s.nodes.legacy_measurements s.last_run_interval in
    if value == s.last_run_interval
    then finish_unchanged w Setting.averages_per_calculation active
        (text "Averaging count already read back as "
          ++ decimal s.last_run_interval
          ++ text "; no restart required")
        s
    else if not (leb 1 value && leb value 1_000_000)
    then (
      some (text "averages per calculation must be between 1 and 1000000"),
      set_interval_nodes s.last_run_interval s,
    )
    else let (reply, sent) = request w (text "run " ++ decimal value) s in
      elim reply [
        | raised e ↦ (some e, set_interval_nodes s.last_run_interval sent)
        | replied r ↦
            await_readback w Setting.averages_per_calculation Verification.averages active r value (
              update_last_command_result r true
                (set_interval_nodes value (record sent { last_run_interval = value })))
      ]

unfoldable pub forward_time : World → Server → Step
forward_time w s =
    let wanted = s.nodes.legacy_set_time in
    if text_eq wanted s.last_time
    then (none, s)
    else let (reply, sent) = request w (text "set_time " ++ wanted) s in
      elim reply [
        | raised e ↦
            (some e, record sent { nodes = record sent.nodes { legacy_set_time = s.last_time } })
        | replied r ↦ (none, record sent { last_time = wanted })
      ]

unfoldable pub forward_clear_latch : World → Server → Step
forward_clear_latch w s =
    if text_eq s.nodes.legacy_clear_latch (text "clear_latch")
    then (let (reply, sent) =
          request w (text "clear_latch")
            (record s { nodes = record s.nodes { legacy_clear_latch = [] } }) in
        elim reply [ raised e ↦ (some e, sent) | replied r ↦ (none, sent) ])
    else (none, s)

unfoldable pub forward_calibrate : World → Server → Step
forward_calibrate w s =
    if s.nodes.legacy_calibrate == 1
    then (let (reply, sent) =
          request w (text "CAL " ++ decimal s.last_run_interval)
            (record s { nodes = record s.nodes { legacy_calibrate = 0 } }) in
        elim reply [ raised e ↦ (some e, sent) | replied r ↦ (none, sent) ])
    else (none, s)

unfoldable pub forward_read_adc : World → Server → Step
forward_read_adc w s =
    if s.nodes.legacy_read_adc == 1
    then (let (reply, sent) =
          request w (text "read_adc")
            (record s { nodes = record s.nodes { legacy_read_adc = 0; legacy_csv_data = [] } }) in
        elim reply [
          | raised e ↦ (some e, sent)
          | replied r ↦ (none, record sent { adc_ready_at = some (w.monotonic + 5 * second) })
        ])
    else (none, s)

unfoldable pub forward_normalize : World → Server → Step
forward_normalize w s =
    if s.nodes.legacy_normalize == 1
    then (if w.disk
        then (none, record s { nodes = record s.nodes { legacy_normalize = 0 } })
        else (some w.disk_error, s))
    else (none, s)

-- `_forward_configuration_writes`
unfoldable pub forward_configuration_writes : World → Server → Step
forward_configuration_writes w s =
    (forward_threshold w s.active_command
        >> forward_interval w s.active_command
        >> forward_time w
        >> forward_clear_latch w
        >> forward_calibrate w
        >> forward_read_adc w
        >> forward_normalize w)
      s

-- The exception handler of `run`: a write that is still pending fails.
unfoldable pub forwarding_failed : World → Text → Server → Server
forwarding_failed w error s =
    let s' = update_last_command_result (text "Command failed: " ++ error) false s in
    elim s'.active_command [
      | none ↦ s'
      | some c ↦
          if is_pending_write c.verification
          then finish_command w c.command_id Terminal.failed
              (text "Configuration write failed: " ++ error) false s'
          else s'
    ]

unfoldable pub forward_step : World → Server → Server
forward_step w s =
    let (error, s') = forward_configuration_writes w s in
    elim error [ none ↦ s' | some e ↦ forwarding_failed w e s' ]

-- `_finish_adc_capture`
unfoldable pub finish_adc_capture : World → ℕ → Server → Server
finish_adc_capture w now s = elim s.adc_ready_at [
  | none ↦ s
  | some at ↦
      if leb at now
      then record s { nodes = record s.nodes { legacy_csv_data = w.adc_text }; adc_ready_at = none }
      else s
]

-- The mutations of one turn of the loop in `run`, between the collection of samples.
unfoldable pub loop_turn : World → ℕ → Server → Server
loop_turn w now s = advance_active_command w now (forward_step w (finish_adc_capture w now s))
