-- ===== src/Historian/Replica/Sound.antt =====
-- `import_replication_batch` of src/python/gizmo_historian.py on the keys of the tables.
pub mod Rows
use gizmo.Prelude.{
  ℕ, ◌+◌, ◌≡◌, refl, ap, sym, ◌∙◌, Bool, true, false, not, ◌&&◌, Option, none, some, List, [], ◌∷◌,
  ◌++◌, map, ltb, ◌==◌, ==_iff, if◌then◌else◌, any, length, take, arith, if_ind, if_cases,
  Option-cases, inl, inr, is_some, Bool-cases, subst,
}
use gizmo.Text.{Text, text_eq}
use gizmo.Historian.Payload.{Blob, decode_payload}
use gizmo.Historian.Table.{find, insert, upsert}
use gizmo.Historian.Table.Laws.{insert-eq-some}
use gizmo.Historian.Store.{insert_event}
use gizmo.Historian.Archive.{
  Archive, FastRow, PlatformRow, RollupRow, EventRow, StreamRow, SourceRow, CursorRow, MappedStream,
  fast_key, platform_key, rollup_key,
}
use gizmo.Historian.Store.Streams.{known, AllKnown, known-last}
use gizmo.Historian.Store.Sound.{
  IsSound, mapped_stream, streams-IsSound, new_stream-IsSound, fast_sample-IsSound,
  platform_sample-IsSound, rollup-IsSound, insert_event-IsSound,
}
use gizmo.Historian.Replication.{
  Table, fast_sample, platform_sample, minute_rollup, event, Row, fast, platform, rollup, happened,
  no_row, Position, position_le, replication_position, Result, ok, refused, ◌>>=◌, ◌>>◌, demand,
  some_or, Failure, row_taken, collision, payload_invalid, unknown_stream, details_invalid,
  row_invalid, column_missing, not_ordered,
}
use gizmo.Historian.Replication.Results.{bind-eq-ok, demand-eq-ok, some_or-eq-ok}
use gizmo.Historian.Replica.{
  Progress, Written, fast_over, platform_over, import_streams_for, begin_import, write_fast,
  import_fast, write_platform, import_platform, import_rollup, import_event, import_row,
  decode_replica_payload, import_one, import_rows, take_row, counted, is_row, goes_on,
}
use gizmo.Historian.Incoming.{
  Codec, Head, mapped, replica_stream, update_stream, place_stream, import_stream, import_streams,
  see_source, sequence_eq, move_cursor,
}

sources-IsSound :
    (rows : List SourceRow) (a : Archive)
    → IsSound a
    → IsSound (record a { replication_source = rows })
sources-IsSound rows a v = ground arith

pub cursors-IsSound :
    (rows : List CursorRow) (a : Archive)
    → IsSound a
    → IsSound (record a { replication_cursor = rows })
cursors-IsSound rows a v = ground arith

mapping-IsSound :
    (m : MappedStream) (a : Archive)
    → known m.local_stream_id a.stream ≡ true
    → IsSound a
    → IsSound (record a { replication_stream = m ∷ a.replication_stream })
mapping-IsSound m a k v = ground arith

update_stream-IsSound :
    (local_id : ℕ) (s : StreamRow) (a : Archive)
    → IsSound a
    → IsSound (record a { stream = update_stream local_id s a.stream })
unfolding update_stream replica_stream
update_stream-IsSound local_id s a v = streams-IsSound _ a (λ r. keeps r) v
  where
    keeps : (r : StreamRow) → (if r.id == local_id then replica_stream local_id s else r).id ≡ r.id
    keeps r =
        if_cases (λ (t : StreamRow). t.id ≡ r.id) (r.id == local_id) (replica_stream local_id s) r
          (λ e. sym ((==_iff r.id local_id).0 e)) (λ e. refl)

place_stream-IsSound :
    (source_id : Text) (s : StreamRow) (a : Archive) (o : Option ℕ)
    → IsSound a
    → IsSound (place_stream source_id s a o)
unfolding place_stream replica_stream
place_stream-IsSound source_id s a none v =
    mapping-IsSound _ _ (known-last (replica_stream a.next_stream_id s) a.stream)
      (new_stream-IsSound (replica_stream a.next_stream_id s) a refl v)
place_stream-IsSound source_id s a (some local_id) v = update_stream-IsSound local_id s a v

import_stream-IsSound :
    (source_id : Text) (s : StreamRow) (a : Archive)
    → IsSound a
    → IsSound (import_stream source_id s a)
unfolding import_stream
import_stream-IsSound source_id s a v =
    place_stream-IsSound source_id s a (mapped source_id s.id a.replication_stream) v

import_streams-IsSound :
    (source_id : Text) (streams : List StreamRow) (a : Archive)
    → IsSound a
    → IsSound (import_streams source_id streams a)
unfolding import_streams
import_streams-IsSound source_id [] a v = v
import_streams-IsSound source_id (s ∷ streams) a v =
    import_streams-IsSound source_id streams (import_stream source_id s a)
      (import_stream-IsSound source_id s a v)

import_streams_for-IsSound :
    (table : Table) (source_id : Text) (streams : List StreamRow) (a : Archive)
    → IsSound a
    → IsSound (import_streams_for table source_id streams a)
unfolding import_streams_for
import_streams_for-IsSound fast_sample source_id streams a v =
    import_streams-IsSound source_id streams a v
import_streams_for-IsSound platform_sample source_id streams a v = v
import_streams_for-IsSound minute_rollup source_id streams a v = v
import_streams_for-IsSound event source_id streams a v = v

pub begin_import-IsSound :
    (stamp : ℕ) (h : Head) (a : Archive) → IsSound a → IsSound (begin_import stamp h a)
unfolding begin_import
begin_import-IsSound stamp h a v =
    import_streams_for-IsSound h.table h.source_id h.streams _
      (sources-IsSound (see_source stamp h.source_id h.hostname a.replication_source) a v)

-- A table that an INSERT has written.
fast_written-IsSound :
    (row : FastRow) (a : Archive) (rows : List FastRow)
    → known row.stream_id a.stream ≡ true
    → insert fast_key row a.fast_sample ≡ some rows
    → IsSound a
    → IsSound (record a { fast_sample = rows })
fast_written-IsSound row a rows k e v =
    rw (insert-eq-some fast_key row a.fast_sample e) (fast_sample-IsSound row a k v)

platform_written-IsSound :
    (row : PlatformRow) (a : Archive) (rows : List PlatformRow)
    → insert platform_key row a.platform_sample ≡ some rows
    → IsSound a
    → IsSound (record a { platform_sample = rows })
platform_written-IsSound row a rows e v =
    rw (insert-eq-some platform_key row a.platform_sample e) (platform_sample-IsSound row a v)

-- Where a step ends well, its archive is the one written.
pub ok_archive :
    {a : Archive} {b : Bool} {w : Written}
    → ◌≡◌ {A = Result Written} (ok (a, b)) (ok w)
    → IsSound a
    → IsSound w.0
ok_archive {a} {b} {w} e v =
    let same : ◌≡◌ {A = Written} (a, b) w = cc in subst (λ (x : Written). IsSound x.0) same v

module _ {ℓ} {N : Type ℓ} (codec : Codec N) where
  pub fast_over-IsSound :
      (local_id : ℕ) (row : FastRow) (a : Archive) (o : Option FastRow) (w : Written)
      → IsSound a
      → fast_over codec local_id row a o ≡ ok w
      → IsSound w.0
  unfolding fast_over known
  fast_over-IsSound local_id row a (some existing) w v e =
      elim (Bool-cases
        (sequence_eq existing.sequence row.sequence && text_eq existing.payload row.payload)) [
          | inl t ↦ ok_archive (rw t at e) v
          | inr t ↦ absurd (ground arith)
        ]
  fast_over-IsSound local_id row a none w v e =
      let (u, k, e1) =
        bind-eq-ok (demand (known local_id a.stream) row_taken)
          (λ _.
            some_or row_taken (insert fast_key (record row { stream_id = local_id }) a.fast_sample)
            >>= written)
          e in
      let (rows, i, e2) =
        bind-eq-ok
          (some_or row_taken (insert fast_key (record row { stream_id = local_id }) a.fast_sample))
          written e1 in
      ok_archive e2
        (fast_written-IsSound _ a rows (demand-eq-ok _ row_taken k) (some_or-eq-ok row_taken _ i) v)
    where
      written : List FastRow → Result Written
      written rows = ok (record a { fast_sample = rows }, true)

  pub platform_over-IsSound :
      (row : PlatformRow) (a : Archive) (o : Option PlatformRow) (w : Written)
      → IsSound a
      → platform_over codec row a o ≡ ok w
      → IsSound w.0
  unfolding platform_over
  platform_over-IsSound row a (some existing) w v e =
      elim (Bool-cases (text_eq existing.payload row.payload)) [
        | inl t ↦ ok_archive (rw t at e) v
        | inr t ↦ absurd (ground arith)
      ]
  platform_over-IsSound row a none w v e =
      let (rows, i, e2) =
        bind-eq-ok (some_or row_taken (insert platform_key row a.platform_sample)) written e in
      ok_archive e2 (platform_written-IsSound row a rows (some_or-eq-ok row_taken _ i) v)
    where
      written : List PlatformRow → Result Written
      written rows = ok (record a { platform_sample = rows }, true)
