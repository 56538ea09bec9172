-- ===== src/Historian/Rounds.antt =====
-- `HistorianRecorder._run` of src/python/gizmo_historian.py: the guards of the connection and of the
-- disk, and what is stored of a snapshot, round by round.
pub mod Quiet
pub mod Ends
pub mod After
pub mod Guards
pub mod Room
pub mod Kept
pub mod Counted
use gizmo.Prelude.{
  ℕ, zero, suc, ◌+◌, ◌-◌, ◌*◌, ◌/◌, Bool, true, false, not, ◌&&◌, ◌||◌, Option, none, some, List,
  [], ◌∷◌, ◌++◌, ltb, leb, ◌==◌, if◌then◌else◌, length,
}
use Prim.Native.Nat.{max}
use gizmo.Text.{Text, text, text_eq}
use gizmo.Historian.Payload.{Payload, Dict, encode_payload}
use gizmo.Historian.Store.{Settings, record_fast, record_platform, apply_retention}
use gizmo.Historian.Archive.{Archive}
use gizmo.Historian.Recorder.{
  end_old, Python, Paths, Snapshot, Tick, HistorianRecorder, Action, and_then, ◌>>=◌, ◌>>◌, pure,
  change, put_event, value_of, sequence_of, take_sequence, event_for_connection, ensure_stream,
}
use gizmo.Historian.Payload.{get}
use gizmo.Historian.Capture.{write_open, due, stored_at, update_rollup, record_transitions}

abbrev bool_eq : Bool → Bool → Bool
bool_eq true b = b
bool_eq false b = not b

-- `any(removed.values())`
unfoldable pub shorter : Archive → Archive → Bool
shorter a b =
    ltb (length b.fast_sample) (length a.fast_sample)
    || ltb (length b.platform_sample) (length a.platform_sample)
    || ltb (length b.minute_rollup) (length a.minute_rollup)
    || ltb (length b.event) (length a.event)

module _ {N : Type 0} where
  -- `self._dropped_samples += 1`
  unfoldable pub drop_sample : HistorianRecorder N → HistorianRecorder N
  drop_sample r = record r { dropped_samples = r.dropped_samples + 1 }

  unfoldable pub checkpoint_due : Tick → Action N (Unit {0})
  checkpoint_due tick r =
      if due tick.monotonic r.last_checkpoint 300_000_000
      then (record r { last_checkpoint = tick.monotonic }, some tt)
      else (r, some tt)

  -- The handler of exceptions.
  unfoldable pub handled : HistorianRecorder N × Option (Unit {0}) → HistorianRecorder N
  handled (r, some u) = r
  handled (r, none) = drop_sample (record r { has_error = true })

module _ {N : Type 0} (py : Python N) where
  unfoldable pub retention_event : ℕ → Archive → Action N (Unit {0})
  retention_event now before r =
      if shorter before r.archive
      then put_event now (text "history.retention")
          (text "Historian retention removed expired rows") (text "info") none
          (py.retention_details before r.archive) r
      else (r, some tt)

  unfoldable pub retention_due : Settings → Tick → Action N (Unit {0})
  retention_due settings tick r =
      if due tick.monotonic r.last_retention 3_600_000_000
      then (do
        _ ← change (λ q. record q { archive = apply_retention settings tick.now none q.archive })
        _ ← retention_event tick.now r.archive
        change (λ q. record q { last_retention = tick.monotonic }))
          r
      else (r, some tt)

module _ {N : Type 0} (py : Python N) (min_free_bytes : ℕ) where
  unfoldable pub boundary : ℕ → ℕ
  boundary total = max min_free_bytes (py.share total)

  -- The event of a disk that has become full, or free again.
  unfoldable pub disk_event : ℕ → ℕ → ℕ → Bool → Action N (Unit {0})
  disk_event now free total limited =
      put_event now (text "history.disk")
        (if limited
          then text "Historian writes stopped at the free-space boundary"
          else text "Historian writes resumed after free space recovered")
        (if limited then text "warning" else text "info") none
        (py.disk_details free (boundary total))

  unfoldable pub note_disk : ℕ → ℕ → ℕ → Bool → Action N Bool
  note_disk now free total limited r =
      let s = record r { disk_free_bytes = free; write_limited = limited } in
      if bool_eq limited r.write_limited
      then (s, some (not limited))
      else (disk_event now free total limited >> pure (not limited)) s

  unfoldable pub disk_of : ℕ → Option (ℕ × ℕ) → Action N Bool
  disk_of now none r = (r, none)
  disk_of now (some (free, total)) r = note_disk now free total (ltb free (boundary total)) r

  -- `_check_disk`
  unfoldable pub check_disk : Tick → Action N Bool
  check_disk tick = disk_of tick.now tick.disk

  -- The guard of the disk.
  unfoldable pub disk_allows : Tick → Action N Bool
  disk_allows tick r =
      if due tick.monotonic r.last_disk_check 60_000_000
      then check_disk tick (record r { last_disk_check = tick.monotonic })
      else (r, some (not r.write_limited))

module _ {N : Type 0} (py : Python N) (paths : Paths) where
  -- `record_fast`, with the sequence as `int` takes it
  unfoldable pub store_fast : Tick → Snapshot N → ℕ → Action N ℕ
  store_fast tick s stream_id r =
      (do
        sequence ←
            take_sequence py
              (sequence_of py (value_of (get (text "Measurement.Sequence") s.values)))
        stored_at (
            record_fast tick.now s.generated_us stream_id sequence
              (encode_payload py.finite py.pack paths.fast_capture s.values) r.archive))
        r

  -- The sample of a round.
  unfoldable pub capture_sample : Tick → Snapshot N → Action N (Unit {0})
  capture_sample tick s = do
    stream_id ← ensure_stream py tick.now s
    t ← store_fast tick s stream_id
    _ ← update_rollup py paths tick s.values t
    _ ← record_transitions py paths tick.now s.values paths.event
    change (λ r. record r { last_sample_us = some t; has_error = false })

  -- What is due behind the sample: the platform, the checkpoint and the retention.
  unfoldable pub capture_platform : ℕ → Tick → Snapshot N → Action N (Unit {0})
  capture_platform platform_interval tick s r =
      if due tick.monotonic r.last_platform platform_interval
      then (do
        t ← stored_at (
            record_platform tick.now s.generated_us
              (encode_payload py.finite py.pack paths.platform_capture s.values) r.archive)
        change (λ q. record q { last_platform = tick.monotonic; last_platform_us = some t }))
          r
      else (r, some tt)

module _ {N : Type 0} (py : Python N) (paths : Paths) (settings : Settings)
    (min_free_bytes platform_interval : ℕ) where
  -- The part of a round behind the guards.
  unfoldable pub capture : Tick → Snapshot N → Action N (Unit {0})
  capture tick s = do
    _ ← capture_sample py paths tick s
    _ ← capture_platform py paths platform_interval tick s
    _ ← checkpoint_due tick
    retention_due py settings tick

  unfoldable pub capture_or_drop : Tick → Snapshot N → Bool → Action N (Unit {0})
  capture_or_drop tick s true = capture tick s
  capture_or_drop tick s false = change drop_sample

  unfoldable pub capture_connected : Tick → Snapshot N → Bool → Action N (Unit {0})
  capture_connected tick s false = pure tt
  capture_connected tick s true = disk_allows py min_free_bytes tick >>= capture_or_drop tick s

  -- The body of `try`.
  unfoldable pub try_round : Tick → Snapshot N → Action N (Unit {0})
  try_round tick s = do
    _ ← event_for_connection py tick.now s.connected
    _ ← change (λ r. record r { connected = s.connected })
    capture_connected tick s s.connected

  -- One round of `_run`.
  unfoldable pub run_round : Tick → Snapshot N → HistorianRecorder N → HistorianRecorder N
  run_round tick s r = handled (try_round tick s r)

-- `stop`, of a recorder whose thread has ended: the open minute and the end of the stream.
unfoldable pub stop :
    {N : Type 0} → Python N → Paths → ℕ → HistorianRecorder N → HistorianRecorder N
stop py paths now r =
    let s = write_open py paths now r.rollup r in
    record s { archive = end_old now s.stream_id s.archive }
