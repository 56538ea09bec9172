-- ===== src/Tests/Recorder.antt =====
-- The recorder of src/python/gizmo_historian.py at concrete snapshots, with numbers that are natural.
use Prim.Native.Nat.{min, max}
use gizmo.Prelude.{ℕ, ◌+◌, ◌≡◌, ◌↔◌, refl, true, false, not, ◌&&◌, none, some, [], ◌∷◌, arith}
use gizmo.Text.{text, text_eq}
use gizmo.Common.{pos}
use gizmo.Historian.Payload.{number}
use gizmo.Historian.Store.{Settings, record_event, insert_event, begin_stream, end_stream}
use gizmo.Historian.Archive.{new_archive}
use gizmo.Historian.Recorder.{
  Python, Paths, Snapshot, Tick, HistorianRecorder, goes_back, ensure_stream_of, start_stream,
  return_stream, stream_reason, and_then, ◌>>=◌, ◌>>◌, stored, put_event, restart_stream, end_old,
  reason_text, int_lt,
}
use gizmo.Historian.Store.Streams.{known}
use gizmo.Historian.Table.{IsOrdered}
use gizmo.Historian.Archive.{fast_key}
use gizmo.Historian.Recorder.Epochs.{IsKnown, IsEnsured, ensure_stream_of-IsEnsured}
use gizmo.Historian.Rounds.{run_round, boundary}
use gizmo.Historian.Rounds.Counted.{IsAccounted, run_round-IsAccounted}

abbrev plus : ℕ → ℕ → ℕ
plus a b = a + b

abbrev pub naturals : Python ℕ
naturals = record {
  finite = λ n. true;
  to_int = λ n. some (pos n);
  zero_value = 0;
  one_value = 1;
  min = min;
  max = max;
  add = plus;
  same_value = λ a b. true;
  is_true = λ v. true;
  str = λ v. text "boot";
  pack = λ entries. [];
  encode_rollup = λ a. [];
  decode_rollup = λ b. none;
  connection_details = λ b. text "{}";
  stream_details = λ id boot sequence. text "{}";
  change_summary = λ path a b. path;
  change_details = λ a b. text "{}";
  disk_details = λ free boundary. text "{}";
  retention_details = λ a b. text "{}";
  share = λ total. total;
}

abbrev no_paths : Paths
no_paths = record { fast_capture = []; platform_capture = []; rollup = []; event = [] }

abbrev pub one_day : Settings
one_day = record {
  retention_enabled = true;
  raw_retention_days = 1;
  platform_retention_days = 1;
  rollup_retention_days = 1;
  event_retention_days = 1;
  max_query_points = 100;
  max_export_rows = 1000;
}

-- A recorder that has opened stream 1 and seen sequence 7.
abbrev running : HistorianRecorder ℕ
running = record {
  archive = (begin_stream 5 (text "boot") none (text "start") new_archive).0;
  connected = true;
  has_error = false;
  last_sample_us = none;
  last_platform_us = none;
  dropped_samples = 0;
  stream_id = some 1;
  boot_id = text "boot";
  last_sequence = some (pos 7);
  last_platform = 0;
  last_retention = 0;
  last_checkpoint = 0;
  last_rollup_flush = 0;
  last_disk_check = 0;
  disk_free_bytes = 0;
  write_limited = false;
  rollup = none;
  event_state = [];
  connection_state = some true;
}

-- Sequence 3 behind 7: stream 2.
abbrev restarted : HistorianRecorder ℕ
restarted = (ensure_stream_of naturals 9 (text "boot") (some (pos 3)) running).0

restarted_lem :
    ensure_stream_of naturals 9 (text "boot") (some (pos 3)) running ≡ (restarted, some 2)
unfolding ensure_stream_of ◌>>◌ start_stream stream_reason text_eq text goes_back int_lt put_event
    stored record_event return_stream restart_stream begin_stream end_old end_stream new_archive
    and_then reason_text ◌>>=◌ insert_event
restarted_lem = refl

first-IsKnown : IsKnown 1 running.archive
unfolding begin_stream new_archive known
first-IsKnown = (omega arith, refl)

ensure_stream_of-IsEnsured_example :
    ((◌≡◌ {A = ℕ} 2 1) ↔ (
      (text_eq (text "boot") (text "boot") && not (goes_back (some (pos 3)) (some (pos 7))))
      ≡ true))
    × IsEnsured (text "boot") (some (pos 3)) 2 restarted
ensure_stream_of-IsEnsured_example =
    ensure_stream_of-IsEnsured naturals 9 (text "boot") (some (pos 3)) running restarted 1 2 refl
      first-IsKnown restarted_lem

-- A minute on, with 1,000 of 500 bytes needed.
abbrev tick : Tick
tick = record { now = 9; monotonic = 60_000_000; disk = some (1000, 500) }

abbrev sampled : Snapshot ℕ
sampled = record {
  connected = true;
  generated_us = some 8;
  values =
      (
        text "Measurement.Sequence",
        record { value = number 8; status = some (text "Good"); source_time_us = none },
      )
      ∷ [];
}

no_samples-IsOrdered : IsOrdered fast_key running.archive.fast_sample
unfolding begin_stream new_archive
no_samples-IsOrdered = tt

run_round-IsAccounted_example :
    IsAccounted naturals no_paths one_day 100 5_000_000 tick sampled true running
      (run_round naturals no_paths one_day 100 5_000_000 tick sampled running)
run_round-IsAccounted_example =
    run_round-IsAccounted naturals no_paths one_day 100 5_000_000 tick sampled running
      no_samples-IsOrdered
