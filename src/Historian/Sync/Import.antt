-- ===== src/Historian/Sync/Import.antt =====
-- `import_replication_batch` of src/python/gizmo_historian.py on a batch of platform samples that
-- follow on what the replica holds.
use gizmo.Prelude.{ℕ, ◌+◌, ◌≤◌, ◌≡◌, refl, true, none, List, [], ◌∷◌, ◌++◌, take, arith}
use gizmo.Text.{Text, strip}
use gizmo.Historian.Payload.{Blob}
use gizmo.Historian.Table.{IsAbove, IsOrdered}
use gizmo.Historian.Table.Laws.{IsBelow}
use gizmo.Historian.Archive.{Archive, PlatformRow, platform_key}
use gizmo.Historian.Replication.{platform_sample, table_name, ok, replication_cursor}
use gizmo.Historian.Replica.{
  Progress, Report, begin_import, cursor_matches, later_position, finish_import, import_transaction,
}
use gizmo.Historian.Incoming.{Codec, Head, move_cursor, see_source}
use gizmo.Historian.Replica.Rows.{
  last_key, last_key_ge, AllArrive, taken, import_rows-last, archive-taken, previous-taken,
  read_last,
}
use gizmo.Historian.Sync.Sending.{head_of}

cursor_matches-read_last :
    (k : ℕ) (new : List PlatformRow)
    → cursor_matches (read_last k new none) (last_key k new, 0) ≡ true
unfolding cursor_matches
cursor_matches-read_last k [] = refl
cursor_matches-read_last k (r ∷ rows) = ground arith

later_position-le : (j k : ℕ) → j ≤ k → later_position (j, 0) (k, 0) ≡ (k, 0)
unfolding later_position
later_position-le j k h = ground arith

module _ {ℓ} {N : Type ℓ} (codec : Codec N) (b64encode : Blob → Text) (stamp : ℕ) where
  -- The variables of the loop at its start.
  abbrev start_of : Head → Archive → Progress
  start_of h a = record {
    archive = begin_import stamp h a;
    previous = none;
    imported = 0;
    skipped = 0;
  }

  module _ (identity : Text × Text) (board a : Archive) (todo : List PlatformRow)
      (k limit : ℕ) where
    abbrev new : List PlatformRow
    new = take limit todo

    abbrev head : Head
    head = head_of b64encode identity k limit todo board

    -- The replica behind the batch.
    unfoldable pub mirrored : Archive
    mirrored = record a {
      replication_source =
          see_source stamp (strip identity.0) (strip identity.1) a.replication_source;
      platform_sample = a.platform_sample ++ new;
      replication_cursor =
          move_cursor stamp (strip identity.0) (table_name platform_sample) (last_key k new, 0)
            a.replication_cursor;
    }

    unfoldable pub report_of : Report
    report_of = record {
      source_id = strip identity.0;
      hostname = strip identity.1;
      table = platform_sample;
      imported = (taken codec b64encode new (start_of head a)).imported;
      skipped = (taken codec b64encode new (start_of head a)).skipped;
      cursor = (last_key k new, 0);
    }

    module _
        (current : replication_cursor (strip identity.0) (table_name platform_sample) a ≡ (k, 0))
        (arrive : AllArrive codec b64encode new) (above : IsAbove platform_key k new)
        (ordered : IsOrdered platform_key new)
        (below : IsBelow platform_key (k + 1) a.platform_sample) where
      pub import_transaction-platform :
          import_transaction codec stamp head a ≡ ok (mirrored, report_of)
      unfolding import_transaction head_of finish_import mirrored report_of begin_import
      import_transaction-platform = rw (
        current,
        import_rows-last codec b64encode (strip identity.0) k k new (start_of head a) arrive
            (omega arith) above ordered tt below,
        previous-taken codec b64encode k new (start_of head a),
        cursor_matches-read_last k new,
        later_position-le k (last_key k new) (last_key_ge k new above ordered),
        archive-taken codec b64encode new (start_of head a),
      )
