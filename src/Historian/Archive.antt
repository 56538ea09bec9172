-- ===== src/Historian/Archive.antt =====
-- The tables of the archive that src/python/gizmo_historian.py keeps: a record for each row, as the
-- schema declares it.
use gizmo.Prelude.{ℕ, Option, List, []}
use gizmo.Text.{Text}
use gizmo.Common.{ℤ}
use gizmo.Historian.Payload.{Blob}

pub record FastRow : Type 0 where
  pub receive_time_us : ℕ
  pub stream_id : ℕ
  pub sequence : Option ℤ
  pub payload : Blob

pub record PlatformRow : Type 0 where
  pub receive_time_us : ℕ
  pub payload : Blob

pub record RollupRow : Type 0 where
  pub bucket_us : ℕ
  pub sample_count : ℕ
  pub payload : Blob
  pub updated_us : ℕ

pub record EventRow : Type 0 where
  pub id : ℕ
  pub time_us : ℕ
  pub source_time_us : Option ℕ
  pub severity : Text
  pub event_key : Text
  pub summary : Text
  pub details_json : Text

pub record StreamRow : Type 0 where
  pub id : ℕ
  pub boot_id : Text
  pub started_us : ℕ
  pub ended_us : Option ℕ
  pub first_sequence : Option ℤ
  pub last_sequence : Option ℤ
  pub reason : Text

pub record SourceRow : Type 0 where
  pub source_id : Text
  pub hostname : Text
  pub schema_version : ℕ
  pub first_seen_us : ℕ
  pub last_seen_us : ℕ

pub record CursorRow : Type 0 where
  pub source_id : Text
  pub table_name : Text
  pub remote_key : ℕ
  pub remote_tie : ℕ
  pub updated_us : ℕ

pub record MappedStream : Type 0 where
  pub source_id : Text
  pub remote_stream_id : ℕ
  pub local_stream_id : ℕ

-- The schema of `initialize`. The two counters are those of AUTOINCREMENT: the next id.
pub record Archive : Type 0 where
  pub stream : List StreamRow
  pub next_stream_id : ℕ
  pub fast_sample : List FastRow
  pub platform_sample : List PlatformRow
  pub minute_rollup : List RollupRow
  pub event : List EventRow
  pub next_event_id : ℕ
  pub replication_source : List SourceRow
  pub replication_cursor : List CursorRow
  pub replication_stream : List MappedStream

abbrev pub fast_key : FastRow → ℕ
fast_key r = r.receive_time_us

abbrev pub platform_key : PlatformRow → ℕ
platform_key r = r.receive_time_us

abbrev pub rollup_key : RollupRow → ℕ
rollup_key r = r.bucket_us

-- A database that `initialize` has just made.
unfoldable pub new_archive : Archive
new_archive = record {
  stream = [];
  next_stream_id = 1;
  fast_sample = [];
  platform_sample = [];
  minute_rollup = [];
  event = [];
  next_event_id = 1;
  replication_source = [];
  replication_cursor = [];
  replication_stream = [];
}
