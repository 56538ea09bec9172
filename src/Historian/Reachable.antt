-- ===== src/Historian/Reachable.antt =====
-- What the recorder, the replica and the retention of src/python/gizmo_historian.py can make of an
-- archive: a write for each method of `HistorianStore` that changes the tables.
use gizmo.Prelude.{ℕ, ◌≡◌, Option, some}
use gizmo.Text.{Text}
use gizmo.Common.{ℤ}
use gizmo.Historian.Payload.{Blob}
use gizmo.Historian.Store.{
  Settings, begin_stream, end_stream, record_fast, record_platform, record_event, write_rollup,
  apply_retention,
}
use gizmo.Historian.Archive.{Archive, new_archive}
use gizmo.Historian.Store.Sound.{
  IsSound, new_archive-IsSound, begin_stream-IsSound, end_stream-IsSound, apply_retention-IsSound,
}
use gizmo.Historian.Store.Sound.Samples.{
  record_fast-IsSound, record_platform-IsSound, record_event-IsSound, write_rollup-IsSound,
}
use gizmo.Historian.Replication.{Batch}
use gizmo.Historian.Replica.{import_replication_batch}
use gizmo.Historian.Incoming.{Codec}
use gizmo.Historian.Replica.Sound.Rows.{import_replication_batch-IsSound}

module _ {ℓ} {N : Type ℓ} (codec : Codec N) where
  -- One call of a method. Where a method raises, the archive stays, and there is no write; an import
  -- is a write in either case.
  pub data Write (a : Archive) : Archive → Type 0 where
    begins :
        (now : ℕ) (boot_id : Text) (sequence : Option ℤ) (reason : Text)
        → Write a (begin_stream now boot_id sequence reason a).0
    ends : (now stream_id : ℕ) → Write a (end_stream now stream_id a)
    samples :
        (now : ℕ) (generated_us : Option ℕ) (stream_id : ℕ) (sequence : Option ℤ) (payload : Blob)
        (t : ℕ) {b : Archive}
        → record_fast now generated_us stream_id sequence payload a ≡ some (b, t)
        → Write a b
    snapshots :
        (now : ℕ) (generated_us : Option ℕ) (payload : Blob) (t : ℕ) {b : Archive}
        → record_platform now generated_us payload a ≡ some (b, t)
        → Write a b
    happens :
        (now : ℕ) (key summary severity : Text) (source_time_us : Option ℕ) (details : Text)
        (time_us : Option ℕ) {b : Archive}
        → record_event now key summary severity source_time_us details time_us a ≡ some b
        → Write a b
    rolls_up :
        (now bucket_us sample_count : ℕ) (payload : Blob)
        → Write a (write_rollup now bucket_us sample_count payload a)
    expires :
        (s : Settings) (now : ℕ) (reference_us : Option ℕ)
        → Write a (apply_retention s now reference_us a)
    imports :
        (stamp : ℕ) (batch : Batch) (expected : Text)
        → Write a (import_replication_batch codec stamp batch expected a).0

  -- The archives that calls make of a new one.
  pub data Reachable : Archive → Type 0 where
    starts : Reachable new_archive
    writes : {a b : Archive} → Reachable a → Write a b → Reachable b

  Write-IsSound : {a b : Archive} → Write a b → IsSound a → IsSound b
  Write-IsSound {a} (begins now boot_id sequence reason) v =
      begin_stream-IsSound now boot_id sequence reason a v
  Write-IsSound {a} (ends now stream_id) v = end_stream-IsSound now stream_id a v
  Write-IsSound {a} (samples now generated_us stream_id sequence payload t {b} e) v =
      record_fast-IsSound now generated_us stream_id sequence payload a b t v e
  Write-IsSound {a} (snapshots now generated_us payload t {b} e) v =
      record_platform-IsSound now generated_us payload a b t v e
  Write-IsSound {a} (happens now key summary severity source_time_us details time_us {b} e) v =
      record_event-IsSound now key summary severity source_time_us details time_us a b v e
  Write-IsSound {a} (rolls_up now bucket_us sample_count payload) v =
      write_rollup-IsSound now bucket_us sample_count payload a v
  Write-IsSound {a} (expires s now reference_us) v = apply_retention-IsSound s now reference_us a v
  Write-IsSound {a} (imports stamp batch expected) v =
      import_replication_batch-IsSound codec stamp batch expected a v

  -- Whatever calls of the store's methods, imports included, have made of a new archive, the keys
  -- of every table of samples, rollups, events and streams go up, ids stay below the next one, and
  -- every stream that a fast sample or the mapping of a replica refers to is there.
  pub reachable_archive-IsSound : (a : Archive) → Reachable a → IsSound a
  reachable_archive-IsSound a starts = new_archive-IsSound
  reachable_archive-IsSound a (writes r w) = Write-IsSound w (reachable_archive-IsSound _ r)
