-- ===== src/Tests/Archive.antt =====
-- The archive of src/python/gizmo_historian.py, its replica, and the servers of
-- src/python/gizmo_sdr.py and src/python/gizmo_temperature.py, at concrete inputs.
use gizmo.Prelude.{
  ℕ, ◌≡◌, refl, Bool, true, false, none, some, List, [], ◌∷◌, if◌then◌else◌, ◌==◌, arith,
}
use gizmo.Text.{Text, text, text_eq, strip, rstrip, lstrip, is_space}
use gizmo.Common.{pos}
use gizmo.Historian.Payload.{
  Payload, Entry, number, Blob, Dict, get, payload_entry, encode_payload, decode_payload, collect,
}
use gizmo.Historian.Payload.RoundTrip.{decode-encode, includes}
use gizmo.Historian.Table.{find, insert, upsert, unless_taken}
use gizmo.Historian.Store.{begin_stream, record_fast, time_or}
use gizmo.Historian.Archive.{Archive, FastRow, fast_key, new_archive}
use gizmo.Historian.Store.FreeTime.{IsFirstFree}
use gizmo.Historian.Store.Recorded.{record_fast-IsFirstFree}
use gizmo.Historian.Store.Streams.{known}
use gizmo.Historian.Store.Sound.{IsSound}
use gizmo.Historian.Replication.{
  natural, table_of, replication_position, Batch, replication_cursor, find_cursor, cursor_position,
  ok, platform, platform_sample, table_name,
}
use gizmo.Historian.Replica.{
  import_transaction, import_rows, import_one, is_row, goes_on, begin_import, commit, counted,
  cursor_matches, decode_replica_payload, finish_import, import_platform, import_row,
  import_streams_for, later_position, platform_over, take_row, write_platform, Report,
  import_replication_batch,
}
use gizmo.Historian.Incoming.{check_head, move_cursor, see_source, Codec, nonempty, source_expected}
use gizmo.Historian.Replica.Rows.{AllArrive}
use gizmo.Historian.Replica.Replayed.{replayed_batch_adds_nothing}
use gizmo.Historian.Reachable.{starts, writes, begins, imports, reachable_archive-IsSound}
use gizmo.Historian.Sync.{Recorder, cursor_of, pinned, sync_table}
use gizmo.Historian.Sync.Mirror.{Mirrors, IsIdentity, ask, sync_table_completes}

-- Text and blobs are stored as they are.
abbrev plain_codec : Codec ℕ
plain_codec = record {
  b64decode = λ s. some s;
  unpack = λ b. some [];
  fast_paths = [];
  platform_paths = [];
  decode_rollup = λ b. some [];
  details_object = λ s. some true;
}

abbrev plain : Blob → Text
plain b = b

abbrev row_at : ℕ → FastRow
row_at t = record { receive_time_us = t; stream_id = 1; sequence = some (pos 7); payload = [] }

abbrev one_sample : Archive
one_sample = record (begin_stream 5 (text "boot") none (text "start") new_archive).0 {
  fast_sample = row_at 100 ∷ [];
}

record_fast-IsFirstFree_example :
    (t : ℕ) × (b : Archive) × (record_fast 5 (some 100) 1 (some (pos 8)) [] one_sample
      ≡ some (b, t))
    × IsFirstFree fast_key one_sample.fast_sample (time_or 5 (some 100)) t
    × ((k : ℕ)
        → find fast_key k b.fast_sample ≡ (
            if t == k
            then some (record {
              receive_time_us = t;
              stream_id = 1;
              sequence = some (pos 8);
              payload = [];
            })
            else find fast_key k one_sample.fast_sample))
unfolding begin_stream known new_archive
record_fast-IsFirstFree_example =
    record_fast-IsFirstFree 5 (some 100) 1 (some (pos 8)) [] one_sample (tt, tt) refl

abbrev board : Archive
board = record new_archive {
  platform_sample =
      record { receive_time_us = 3; payload = 1 ∷ [] }
      ∷ record { receive_time_us = 8; payload = 2 ∷ [] }
      ∷ record { receive_time_us = 9; payload = 3 ∷ [] }
      ∷ [];
}

abbrev identity : Text × Text
identity = (text "id", text "kria")

abbrev replica : Recorder
replica = record {
  archive = new_archive;
  expected_source_id = [];
  source_id = [];
  source_hostname = [];
  connected = false;
  last_connection_state = none;
  last_sample_us = none;
  last_platform_us = none;
  sync_errors = 0;
  rows_imported = 0;
  disk_free_bytes = 0;
  write_limited = false;
}

identity-IsIdentity : IsIdentity identity
unfolding strip rstrip lstrip text nonempty is_space
identity-IsIdentity = record { stripped = refl; named = refl; hosted = refl }

replica-Mirrors : Mirrors plain_codec plain identity board [] board.platform_sample 0 replica
unfolding new_archive replication_cursor find_cursor cursor_position cursor_of nonempty AllArrive
    decode_payload collect source_expected pinned text
replica-Mirrors = record {
  held = refl;
  whole = refl;
  current = refl;
  at = refl;
  old = tt;
  coming = omega arith;
  ordered = omega arith;
  arrive = (
    record { brought = refl; decodes = refl },
    (record { brought = refl; decodes = refl }, (record { brought = refl; decodes = refl }, tt)),
  );
  same = refl;
  expected = refl;
}

sync_table_completes_example :
    (s : Recorder) × (sync_table plain_codec 50 [] 4 platform_sample
        (ask plain identity 2 board)
        replica
      ≡ (s, ok true))
    × (s.archive.platform_sample ≡ board.platform_sample)
sync_table_completes_example =
    sync_table_completes plain_codec plain identity board 50 [] 2 identity-IsIdentity (omega arith)
      (omega arith) 4 {done = []} {todo = board.platform_sample} {k = 0} {r = replica} (omega arith)
      replica-Mirrors

abbrev small : ℕ → Bool
small n = n == 4

abbrev readings : Dict (Payload ℕ)
readings =
    (
      text "Measurement.Sequence",
      record { value = number 4; status = some (text "Good"); source_time_us = some 6 },
    )
    ∷ (text "Time", record { value = number 5; status = none; source_time_us = none })
    ∷ []

abbrev paths : List Text
paths = text "Time" ∷ text "Alarm.Active" ∷ text "Measurement.Sequence" ∷ []

decode-encode_example :
    (d : Dict (Entry ℕ)) × (decode_payload some paths
        (encode_payload small (λ (body : List (Entry ℕ)). body) paths readings)
      ≡ some d)
    × ((path : Text)
        → get path d
          ≡ (if includes path paths then some (payload_entry small (get path readings)) else none))
decode-encode_example = decode-encode small (λ body. body) some (λ body w. refl) paths readings

abbrev begun : Archive
begun = (begin_stream 5 (text "boot") none (text "start") new_archive).0

abbrev batch : Batch
batch = record {
  replication_version = 1;
  schema_version = 2;
  source = some identity;
  table = text "platform_sample";
  after_position = (0, 0);
  cursor = some (pos 8, pos 0);
  has_more = false;
  streams = some [];
  rows = some (
      platform (record { receive_time_us = 3; payload = 1 ∷ [] })
      ∷ platform (record { receive_time_us = 8; payload = 2 ∷ [] })
      ∷ []);
}

reachable_archive-IsSound_example :
    IsSound (import_replication_batch plain_codec 9 batch [] begun).0
reachable_archive-IsSound_example =
    reachable_archive-IsSound plain_codec (import_replication_batch plain_codec 9 batch [] begun).0
      (writes (writes starts (begins 5 (text "boot") none (text "start"))) (imports 9 batch []))

abbrev imported : Archive
imported = (import_replication_batch plain_codec 9 batch [] begun).0

abbrev report : Report
report = record {
  source_id = text "id";
  hostname = text "kria";
  table = platform_sample;
  imported = 2;
  skipped = 0;
  cursor = (8, 0);
}

batch_taken : import_replication_batch plain_codec 9 batch [] begun ≡ (imported, ok report)
unfolding import_replication_batch check_head import_transaction import_rows import_one is_row
    goes_on begin_import commit counted cursor_matches decode_replica_payload finish_import
    import_platform import_row import_streams_for later_position move_cursor platform_over
    see_source take_row write_platform natural table_of table_name replication_position text_eq text
    nonempty strip rstrip lstrip is_space source_expected collect decode_payload cursor_position
    find_cursor replication_cursor find insert upsert unless_taken begin_stream new_archive
batch_taken = refl

replayed_batch_adds_nothing_example :
    (c : Archive) × (again : Report) × (import_replication_batch plain_codec 10 batch [] imported
      ≡ (c, ok again))
    × (c.fast_sample ≡ imported.fast_sample)
    × (c.platform_sample ≡ imported.platform_sample)
    × (c.minute_rollup ≡ imported.minute_rollup)
    × (c.event ≡ imported.event)
    × (again.imported ≡ 0)
    × (again.cursor ≡ report.cursor)
replayed_batch_adds_nothing_example =
    replayed_batch_adds_nothing plain_codec 9 10 batch [] begun imported report batch_taken
