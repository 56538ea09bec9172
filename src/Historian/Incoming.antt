-- ===== src/Historian/Incoming.antt =====
-- What `import_replication_batch` of src/python/gizmo_historian.py does before the rows: it checks the
-- head of a batch, notes its source and brings the streams in.
use gizmo.Prelude.{
  ℕ, ◌+◌, Bool, true, false, ◌&&◌, Option, none, some, List, [], ◌∷◌, ◌++◌, map, ◌==◌,
  if◌then◌else◌,
}
use gizmo.Text.{Text, text, text_eq, strip}
use gizmo.Common.{ℤ, pos, negsuc}
use gizmo.Historian.Payload.{Blob, Entry}
use gizmo.Historian.Archive.{Archive, StreamRow, SourceRow, CursorRow, MappedStream}
use gizmo.Historian.Replication.{
  Table, table_of, Row, Position, table_refused, version_refused, schema_refused, source_missing,
  source_incomplete, source_changed, rows_invalid, cursor_missing, cursor_invalid, Result, ok,
  ◌>>=◌, ◌>>◌, demand, some_or, Batch, schema, natural,
}

-- base64, the bodies of the payloads, and the details of an event: `none` is an exception.
pub record Codec {ℓ} (N : Type ℓ) : Type ℓ where
  pub b64decode : Text → Option Blob
  pub unpack : Blob → Option (List (Entry N))
  pub fast_paths : List Text
  pub platform_paths : List Text
  pub decode_rollup : Blob → Option (List (Entry N))
  pub details_object : Text → Option Bool

-- The sequence of a row, and `existing["sequence"] == sequence`.
unfoldable pub int_eq : ℤ → ℤ → Bool
int_eq (pos a) (pos b) = a == b
int_eq (negsuc a) (negsuc b) = a == b
int_eq (pos a) (negsuc b) = false
int_eq (negsuc a) (pos b) = false

unfoldable pub sequence_eq : Option ℤ → Option ℤ → Bool
sequence_eq none none = true
sequence_eq (some a) (some b) = int_eq a b
sequence_eq none (some b) = false
sequence_eq (some a) none = false

-- `INSERT INTO replication_source … ON CONFLICT(source_id) DO UPDATE`
unfoldable pub see_source : ℕ → Text → Text → List SourceRow → List SourceRow
see_source stamp source_id hostname [] =
    record {
      source_id = source_id;
      hostname = hostname;
      schema_version = schema;
      first_seen_us = stamp;
      last_seen_us = stamp;
    }
    ∷ []
see_source stamp source_id hostname (r ∷ rows) =
    if text_eq r.source_id source_id
    then record r { hostname = hostname; schema_version = schema; last_seen_us = stamp } ∷ rows
    else r ∷ see_source stamp source_id hostname rows

-- `INSERT INTO replication_cursor … ON CONFLICT(source_id, table_name) DO UPDATE`
unfoldable pub move_cursor : ℕ → Text → Text → Position → List CursorRow → List CursorRow
move_cursor stamp source_id table p [] =
    record {
      source_id = source_id;
      table_name = table;
      remote_key = p.0;
      remote_tie = p.1;
      updated_us = stamp;
    }
    ∷ []
move_cursor stamp source_id table p (r ∷ rows) =
    if text_eq r.source_id source_id && text_eq r.table_name table
    then record r { remote_key = p.0; remote_tie = p.1; updated_us = stamp } ∷ rows
    else r ∷ move_cursor stamp source_id table p rows

-- `SELECT local_stream_id FROM replication_stream WHERE source_id=? AND remote_stream_id=?`
unfoldable pub mapped : Text → ℕ → List MappedStream → Option ℕ
mapped source_id remote_id [] = none
mapped source_id remote_id (m ∷ rows) =
    if text_eq m.source_id source_id && m.remote_stream_id == remote_id
    then some m.local_stream_id
    else mapped source_id remote_id rows

-- The row of a remote stream under its local id.
unfoldable pub replica_stream : ℕ → StreamRow → StreamRow
replica_stream local_id s = record s { id = local_id; reason = text "replica:" ++ s.reason }

-- `UPDATE stream SET … WHERE id=?`
unfoldable pub update_stream : ℕ → StreamRow → List StreamRow → List StreamRow
update_stream local_id s rows =
    map (λ (r : StreamRow). if r.id == local_id then replica_stream local_id s else r) rows

-- A stream of a batch, with the local id that the mapping has for it.
unfoldable pub place_stream : Text → StreamRow → Archive → Option ℕ → Archive
place_stream source_id s a none = record a {
  stream = a.stream ++ replica_stream a.next_stream_id s ∷ [];
  next_stream_id = a.next_stream_id + 1;
  replication_stream =
      record { source_id = source_id; remote_stream_id = s.id; local_stream_id = a.next_stream_id }
      ∷ a.replication_stream;
}
place_stream source_id s a (some local_id) = record a { stream = update_stream local_id s a.stream }

-- One round of the loop over the streams. `stream_map` holds what the mapping table holds for
-- these streams, and is looked up there.
unfoldable pub import_stream : Text → StreamRow → Archive → Archive
unfolding place_stream
import_stream source_id s a =
    place_stream source_id s a (mapped source_id s.id a.replication_stream)

unfoldable pub import_streams : Text → List StreamRow → Archive → Archive
import_streams source_id [] a = a
import_streams source_id (s ∷ streams) a =
    import_streams source_id streams (import_stream source_id s a)

-- What the tests of the batch's head find.
pub record Head : Type 0 where
  pub table : Table
  pub source_id : Text
  pub hostname : Text
  pub streams : List StreamRow
  pub rows : List Row
  pub cursor : Position

-- `if expected_source_id and source_id != expected_source_id`
unfoldable pub source_expected : Text → Text → Bool
source_expected [] source_id = true
source_expected (c ∷ s) source_id = text_eq source_id (c ∷ s)

unfoldable pub nonempty : Text → Bool
nonempty [] = false
nonempty (c ∷ s) = true

-- The tests in front of the transaction.
unfoldable pub check_head : Batch → Text → Result Head
check_head batch expected = do
  demand (batch.replication_version == 1) version_refused
  demand (batch.schema_version == schema) schema_refused
  table ← some_or table_refused (table_of batch.table)
  source ← some_or source_missing batch.source
  let source_id = strip source.0
  let hostname = strip source.1
  demand (nonempty source_id && nonempty hostname) source_incomplete
  demand (source_expected expected source_id) source_changed
  rows ← some_or rows_invalid batch.rows
  streams ← some_or rows_invalid batch.streams
  cursor ← some_or cursor_missing batch.cursor
  key ← some_or cursor_invalid (natural cursor.0)
  tie ← some_or cursor_invalid (natural cursor.1)
  ok (record {
    table = table;
    source_id = source_id;
    hostname = hostname;
    streams = streams;
    rows = rows;
    cursor = (key, tie);
  })
