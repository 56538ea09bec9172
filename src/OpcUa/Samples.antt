-- ===== src/OpcUa/Samples.antt =====
-- What the collected samples of src/python/gizmo_opcua.py leave for the command gate to read.
use gizmo.Prelude.{ℕ, List, [], ◌∷◌, some, String, if◌then◌else◌}
use package.text.Mathlib.Text.{◌==◌}
use gizmo.OpcUa.State.{Measurement, Server}

-- `_apply_measurement`: the snapshot, and the sequence and time of the last good one
unfoldable pub apply_measurement : Measurement → Server → Server
apply_measurement m s =
    let s' = record s { last_measurement_snapshot = some m } in
    if m.good
    then record s' {
      last_good_measurement_sequence = m.sequence;
      last_good_measurement_at = some m.sampled_at;
    }
    else s'

-- `_apply_time`
unfoldable pub apply_time : ℕ → Server → Server
apply_time observed_at s = record s { latest_time_snapshot = some observed_at }

-- `_apply_services`, over the units with their main PIDs
unfoldable pub apply_services : List (String × ℕ) → Server → Server
apply_services [] s = s
apply_services ((unit, main_pid) ∷ services) s =
    apply_services services
      (if unit == "gizmo-zmon.service" then record s { zmon_pid = main_pid } else s)
