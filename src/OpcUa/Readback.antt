-- ===== src/OpcUa/Readback.antt =====
-- What `_advance_active_command` of src/python/gizmo_opcua.py looks for: normal mode, and the value
-- that a command is for.
use gizmo.Prelude.{
  ℕ, ◌*◌, ◌+◌, Bool, true, false, not, ◌&&◌, Option, none, some, [], ◌++◌, leb, ltb, ◌==◌,
  if◌then◌else◌,
}
use gizmo.Text.{Text, text, text_eq, decimal}
use gizmo.OpcUa.State.{ActiveCommand, Server, World, second}

-- `_fresh_measurement_for`
unfoldable pub fresh_measurement_for : ActiveCommand → Server → Bool
fresh_measurement_for command s =
    ltb command.start_sequence s.last_good_measurement_sequence
    && elim s.last_good_measurement_at [ none ↦ false | some at ↦ leb command.requested_at at ]

abbrev pub is_empty : Text → Bool
is_empty [] = true
is_empty _ = false

-- `_normal_mode_verified`
unfoldable pub normal_mode_verified : World → ActiveCommand → Server → Bool × Text
normal_mode_verified w command s =
    if not (fresh_measurement_for command s)
    then (false, text "waiting for a fresh good measurement")
    else if s.zmon_pid == 0
    then (false, text "waiting for an active measurement-engine PID")
    else if ltb 0 command.start_pid && s.zmon_pid == command.start_pid
    then (false, text "waiting for a new measurement-engine PID")
    else if is_empty command.expected_hash
    then (false, text "expected measurement-engine hash is unavailable")
    else if not (text_eq w.binary_hash command.expected_hash)
    then (false, text "measurement-engine executable hash changed")
    else (
      true,
      text "PID "
          ++ decimal s.zmon_pid
          ++ text ", SHA-256 "
          ++ w.binary_hash
          ++ text ", fresh sequence "
          ++ decimal s.last_good_measurement_sequence,
    )

-- The readback of "clear-latch": the message of success, if there is one.
unfoldable pub latch_readback : ActiveCommand → Server → Option Text
latch_readback command s =
    if fresh_measurement_for command s
    then elim s.last_measurement_snapshot [
      | none ↦ none
      | some m ↦
          if not m.alarm_latched
          then some
              (text "Latch clear verified by fresh measurement sequence " ++ decimal m.sequence)
          else if m.alarm_active
          then some (
              text
                "Latch clear was accepted; the active physical alarm remains asserted at sequence "
              ++ decimal m.sequence)
          else none
    ]
    else none

abbrev option_eq : Option ℕ → Option ℕ → Bool
option_eq (some a) (some b) = a == b
option_eq _ _ = false

unfoldable pub threshold_reads_back : ActiveCommand → Server → Bool
threshold_reads_back command s = elim s.last_measurement_snapshot [
  | none ↦ false
  | some m ↦ option_eq m.threshold_ohm command.expected_value
]

unfoldable pub averages_read_back : ActiveCommand → Server → Bool
averages_read_back command s = elim s.last_measurement_snapshot [
  | none ↦ false
  | some m ↦ option_eq (some m.averages_per_calculation) command.expected_value
]

-- `abs(observed - expected) <= 5` seconds
unfoldable pub time_reads_back : ActiveCommand → Server → Bool
time_reads_back command s = elim s.latest_time_snapshot [
  | none ↦ false
  | some observed ↦ elim command.expected_value [
    | none ↦ false
    | some epoch ↦
        leb observed (epoch * second + 5 * second) && leb (epoch * second) (observed + 5 * second)
  ]
]

unfoldable pub adc_reads_back : World → ActiveCommand → Bool
adc_reads_back w command = elim w.adc_file [
  | none ↦ false
  | some (mtime, size) ↦ elim command.expected_value [
    | none ↦ false
    | some requested ↦ leb requested (mtime + second) && ltb 0 size && leb size w.adc_max_bytes
  ]
]
