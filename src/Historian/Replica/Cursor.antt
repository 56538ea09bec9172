-- ===== src/Historian/Replica/Cursor.antt =====
-- The table `replication_cursor` of src/python/gizmo_historian.py: what an import writes there, and
-- what it leaves alone.
use gizmo.Prelude.{ℕ, ◌≡◌, refl, ap, ◌∙◌, true, ◌&&◌, List, [], ◌∷◌, arith, Bool-cases, inl, inr}
use gizmo.Text.{Text, text_eq}
use gizmo.Text.Equality.{text_eq_refl}
use gizmo.Historian.Archive.{Archive, CursorRow, StreamRow}
use gizmo.Historian.Replication.{
  Table, fast_sample, Position, position_le, find_cursor, cursor_position, replication_cursor,
}
use gizmo.Historian.Replica.{begin_import, import_streams_for, later_position}
use gizmo.Historian.Incoming.{Head, move_cursor, import_stream, import_streams, see_source}

find_cursor-move_cursor :
    (stamp : ℕ) (source_id table : Text) (p : Position) (rows : List CursorRow)
    → cursor_position (find_cursor source_id table (move_cursor stamp source_id table p rows)) ≡ p
unfolding find_cursor move_cursor cursor_position
find_cursor-move_cursor stamp source_id table p [] = rw (text_eq_refl source_id, text_eq_refl table)
find_cursor-move_cursor stamp source_id table p (r ∷ rows) =
    elim (Bool-cases (text_eq r.source_id source_id && text_eq r.table_name table)) [
      | inl e ↦ rw (e, e)
      | inr e ↦ rw (e, e) (find_cursor-move_cursor stamp source_id table p rows)
    ]

-- The cursor behind an import is the one that it wrote.
pub replication_cursor-move_cursor :
    (stamp : ℕ) (source_id table : Text) (p : Position) (a : Archive)
    → replication_cursor source_id table
        (record a { replication_cursor = move_cursor stamp source_id table p a.replication_cursor })
      ≡ p
unfolding replication_cursor
replication_cursor-move_cursor stamp source_id table p a =
    find_cursor-move_cursor stamp source_id table p a.replication_cursor

-- A cursor is read from the table of cursors only.
pub replication_cursor-cursors :
    (source_id table : Text) (a b : Archive)
    → b.replication_cursor ≡ a.replication_cursor
    → replication_cursor source_id table b ≡ replication_cursor source_id table a
unfolding replication_cursor
replication_cursor-cursors source_id table a b e =
    ap (λ rows. cursor_position (find_cursor source_id table rows)) e

pub later_position-le : (p q : Position) → position_le p (later_position p q) ≡ true
unfolding later_position
later_position-le p q = ground arith

pub later_position-ge : (p q : Position) → position_le q (later_position p q) ≡ true
unfolding later_position
later_position-ge p q = ground arith

pub later_position_again :
    (p q : Position) → later_position (later_position p q) q ≡ later_position p q
unfolding later_position
later_position_again p q = ground arith

-- The start of a transaction writes sources and streams only.
pub record HasRowsOf (a b : Archive) : Type 0 where
  pub fast_samples : b.fast_sample ≡ a.fast_sample
  pub platform_samples : b.platform_sample ≡ a.platform_sample
  pub rollups : b.minute_rollup ≡ a.minute_rollup
  pub events : b.event ≡ a.event
  pub cursors : b.replication_cursor ≡ a.replication_cursor

import_stream-HasRowsOf :
    (source_id : Text) (s : StreamRow) (a : Archive) → HasRowsOf a (import_stream source_id s a)
unfolding import_stream
import_stream-HasRowsOf source_id s a = ground arith

import_streams-HasRowsOf :
    (source_id : Text) (streams : List StreamRow) (a : Archive)
    → HasRowsOf a (import_streams source_id streams a)
unfolding import_streams
import_streams-HasRowsOf source_id [] a = record {
  fast_samples = refl;
  platform_samples = refl;
  rollups = refl;
  events = refl;
  cursors = refl;
}
import_streams-HasRowsOf source_id (s ∷ streams) a =
    let one = import_stream-HasRowsOf source_id s a in
    let rest = import_streams-HasRowsOf source_id streams (import_stream source_id s a) in
    record {
      fast_samples = rest.fast_samples ∙ one.fast_samples;
      platform_samples = rest.platform_samples ∙ one.platform_samples;
      rollups = rest.rollups ∙ one.rollups;
      events = rest.events ∙ one.events;
      cursors = rest.cursors ∙ one.cursors;
    }

import_streams_for-HasRowsOf :
    (table : Table) (source_id : Text) (streams : List StreamRow) (a : Archive)
    → HasRowsOf a (import_streams_for table source_id streams a)
unfolding import_streams_for
import_streams_for-HasRowsOf fast_sample source_id streams a =
    import_streams-HasRowsOf source_id streams a
import_streams_for-HasRowsOf other source_id streams a = ground arith

pub begin_import-HasRowsOf :
    (stamp : ℕ) (h : Head) (a : Archive) → HasRowsOf a (begin_import stamp h a)
unfolding begin_import
begin_import-HasRowsOf stamp h a = record {
  fast_samples = kept.fast_samples;
  platform_samples = kept.platform_samples;
  rollups = kept.rollups;
  events = kept.events;
  cursors = kept.cursors;
}
  where
    seen : Archive
    seen = record a {
      replication_source = see_source stamp h.source_id h.hostname a.replication_source;
    }

    kept : HasRowsOf seen (import_streams_for h.table h.source_id h.streams seen)
    kept = import_streams_for-HasRowsOf h.table h.source_id h.streams seen
