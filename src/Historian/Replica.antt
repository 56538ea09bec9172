-- ===== src/Historian/Replica.antt =====
-- `import_replication_batch` of src/python/gizmo_historian.py: a replica takes a batch into its
-- archive in one transaction. What it reads of a payload is the record `Codec`.
pub mod Cursor
pub mod Rows
pub mod Sound
pub mod Replayed
pub mod Replay
use gizmo.Prelude.{
  ℕ, zero, suc, ◌+◌, Bool, true, false, not, ◌&&◌, ◌||◌, Option, none, some, List, [], ◌∷◌, ◌++◌,
  map, ltb, leb, ◌==◌, if◌then◌else◌, any, is_some, length,
}
use gizmo.Text.{Text, text, text_eq, strip}
use gizmo.Text.Equality
use gizmo.Common.{ℤ, pos, negsuc}
use gizmo.Historian.Payload.{Blob, Entry, decode_payload}
use gizmo.Historian.Table.{find, insert, upsert}
use gizmo.Historian.Store.{insert_event}
use gizmo.Historian.Archive.{
  Archive, FastRow, PlatformRow, RollupRow, EventRow, StreamRow, SourceRow, CursorRow, MappedStream,
  fast_key, platform_key, rollup_key,
}
use gizmo.Historian.Replication.{
  Table, fast_sample, platform_sample, minute_rollup, event, table_of, table_name, Row, fast,
  platform, rollup, happened, no_row, Position, position_le, position_eq, replication_position,
  Failure, table_refused, version_refused, schema_refused, source_missing, source_incomplete,
  source_changed, rows_invalid, cursor_missing, cursor_invalid, row_invalid, not_ordered,
  payload_invalid, unknown_stream, collision, details_invalid, cursor_differs, column_missing,
  row_taken, Result, ok, refused, ◌>>=◌, ◌>>◌, demand, some_or, Batch, schema, natural,
  replication_cursor,
}
use gizmo.Historian.Incoming.{
  Codec, Head, check_head, import_stream, import_streams, int_eq, mapped, move_cursor, nonempty,
  place_stream, replica_stream, see_source, sequence_eq, source_expected, update_stream,
}

-- Whether a row was imported or skipped.
abbrev pub Written : Type 0
Written = Archive × Bool

-- The variables of the loop; `none` is the previous position (-1, -1).
pub record Progress : Type 0 where
  pub archive : Archive
  pub previous : Option Position
  pub imported : ℕ
  pub skipped : ℕ

-- `position <= previous_position` fails
unfoldable pub goes_on : Option Position → Position → Bool
goes_on none p = true
goes_on (some previous) p = not (position_le p previous)

unfoldable pub is_row : Row → Bool
is_row no_row = false
is_row row = true

unfoldable pub counted : Position → Progress → Written → Progress
counted p s w = record {
  archive = w.0;
  previous = some p;
  imported = if w.1 then s.imported + 1 else s.imported;
  skipped = if w.1 then s.skipped else s.skipped + 1;
}

-- `if rows and cursor_position != previous_position` fails
unfoldable pub cursor_matches : Option Position → Position → Bool
cursor_matches none cursor = true
cursor_matches (some previous) cursor = position_eq cursor previous

-- The streams of a batch, which only fast samples have.
unfoldable pub import_streams_for : Table → Text → List StreamRow → Archive → Archive
import_streams_for fast_sample source_id streams a = import_streams source_id streams a
import_streams_for platform_sample source_id streams a = a
import_streams_for minute_rollup source_id streams a = a
import_streams_for event source_id streams a = a

-- The archive of a replica as the transaction begins to read rows.
unfoldable pub begin_import : ℕ → Head → Archive → Archive
unfolding import_streams_for
begin_import stamp h a =
    import_streams_for h.table h.source_id h.streams (record a {
      replication_source = see_source stamp h.source_id h.hostname a.replication_source;
    })

-- A failure rolls the transaction back.
unfoldable pub commit {ℓ} : {A : Type ℓ} → Archive → Result (Archive × A) → Archive × Result A
commit a (refused e) = (a, refused e)
commit a (ok (b, result)) = (b, ok result)

pub record Report : Type 0 where
  pub source_id : Text
  pub hostname : Text
  pub table : Table
  pub imported : ℕ
  pub skipped : ℕ
  pub cursor : Position

-- `max(current, cursor_position)`
unfoldable pub later_position : Position → Position → Position
later_position current cursor = if position_le cursor current then current else cursor

unfoldable pub finish_import : ℕ → Head → Position → Progress → Result (Archive × Report)
finish_import stamp h current s = do
  demand (cursor_matches s.previous h.cursor) cursor_differs
  let cursor = later_position current h.cursor
  ok (
    record s.archive {
      replication_cursor =
          move_cursor stamp h.source_id (table_name h.table) cursor s.archive.replication_cursor;
    },
    record {
      source_id = h.source_id;
      hostname = h.hostname;
      table = h.table;
      imported = s.imported;
      skipped = s.skipped;
      cursor = cursor;
    },
  )

module _ {ℓ} {N : Type ℓ} (codec : Codec N) where
  open codec use {b64decode, unpack, fast_paths, platform_paths, decode_rollup, details_object}

  -- `_decode_replica_payload`, and `decode_payload` for its exceptions
  unfoldable pub decode_replica_payload : List Text → Text → Result Blob
  decode_replica_payload paths value = do
    payload ← some_or payload_invalid (b64decode value)
    demand (is_some (decode_payload unpack paths payload)) payload_invalid
    ok payload

  -- The INSERT of a new row, or the test of the row that has its time.
  unfoldable pub fast_over : ℕ → FastRow → Archive → Option FastRow → Result Written
  fast_over local_id row a (some existing) =
      if sequence_eq existing.sequence row.sequence && text_eq existing.payload row.payload
      then ok (a, false)
      else refused collision
  fast_over local_id row a none = do
    demand (any (λ (s : StreamRow). s.id == local_id) a.stream) row_taken
    rows ← some_or row_taken (insert fast_key (record row { stream_id = local_id }) a.fast_sample)
    ok (record a { fast_sample = rows }, true)

  unfoldable pub write_fast : ℕ → FastRow → Archive → Result Written
  unfolding fast_over
  write_fast local_id row a =
      fast_over local_id row a (find fast_key row.receive_time_us a.fast_sample)

  unfoldable pub import_fast : Text → FastRow → Archive → Result Written
  import_fast source_id r a = do
    payload ← decode_replica_payload fast_paths r.payload
    local_id ← some_or unknown_stream (mapped source_id r.stream_id a.replication_stream)
    write_fast local_id (record r { payload = payload }) a

  unfoldable pub platform_over : PlatformRow → Archive → Option PlatformRow → Result Written
  platform_over row a (some existing) =
      if text_eq existing.payload row.payload then ok (a, false) else refused collision
  platform_over row a none = do
    rows ← some_or row_taken (insert platform_key row a.platform_sample)
    ok (record a { platform_sample = rows }, true)

  unfoldable pub write_platform : PlatformRow → Archive → Result Written
  unfolding platform_over
  write_platform row a =
      platform_over row a (find platform_key row.receive_time_us a.platform_sample)

  unfoldable pub import_platform : PlatformRow → Archive → Result Written
  import_platform r a = do
    payload ← decode_replica_payload platform_paths r.payload
    write_platform (record r { payload = payload }) a

  unfoldable pub import_rollup : RollupRow → Archive → Result Written
  import_rollup r a = do
    payload ← some_or payload_invalid (b64decode r.payload)
    demand (is_some (decode_rollup payload)) payload_invalid
    ok (
      record a {
        minute_rollup = upsert rollup_key (record r { payload = payload }) a.minute_rollup;
      },
      true,
    )

  unfoldable pub import_event : EventRow → Archive → Result Written
  import_event r a = do
    object ← some_or details_invalid (details_object r.details_json)
    demand object details_invalid
    ok (insert_event r a, true)

  -- The part of the loop behind the test of the position; a fast row has the columns of a platform
  -- row.
  unfoldable pub import_row : Text → Table → Row → Archive → Result Written
  import_row source_id fast_sample (fast r) a = import_fast source_id r a
  import_row source_id fast_sample row a = refused column_missing
  import_row source_id platform_sample (platform r) a = import_platform r a
  import_row source_id platform_sample (fast r) a =
      import_platform (record { receive_time_us = r.receive_time_us; payload = r.payload }) a
  import_row source_id platform_sample row a = refused column_missing
  import_row source_id minute_rollup (rollup r) a = import_rollup r a
  import_row source_id minute_rollup row a = refused column_missing
  import_row source_id event (happened r) a = import_event r a
  import_row source_id event row a = refused column_missing

  -- The row of one round, which is skipped up to the cursor.
  unfoldable pub take_row : Text → Table → Position → Position → Row → Progress → Result Progress
  take_row source_id table current p row s = do
    written ←
        if position_le p current
        then ok (s.archive, false)
        else import_row source_id table row s.archive
    ok (counted p s written)

  -- One round of the loop over the rows.
  unfoldable pub import_one : Text → Table → Position → Row → Progress → Result Progress
  import_one source_id table current row s = do
    demand (is_row row) row_invalid
    p ← some_or column_missing (replication_position table row)
    demand (goes_on s.previous p) not_ordered
    take_row source_id table current p row s

  unfoldable pub import_rows : Text → Table → Position → List Row → Progress → Result Progress
  import_rows source_id table current [] s = ok s
  import_rows source_id table current (row ∷ rows) s = do
    t ← import_one source_id table current row s
    import_rows source_id table current rows t

  -- The transaction.
  unfoldable pub import_transaction : ℕ → Head → Archive → Result (Archive × Report)
  import_transaction stamp h a = do
    let current = replication_cursor h.source_id (table_name h.table) a
    s ←
        import_rows h.source_id h.table current h.rows
          (record { archive = begin_import stamp h a; previous = none; imported = 0; skipped = 0 })
    finish_import stamp h current s

  -- `import_replication_batch`
  unfoldable pub import_replication_batch : ℕ → Batch → Text → Archive → Archive × Result Report
  unfolding commit
  import_replication_batch stamp batch expected a =
      commit a (check_head batch expected >>= λ h. import_transaction stamp h a)
