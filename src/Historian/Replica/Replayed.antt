-- ===== src/Historian/Replica/Replayed.antt =====
-- `import_replication_batch` of src/python/gizmo_historian.py on the batch that it took last.
use gizmo.Prelude.{ℕ, ◌+◌, ◌≡◌, refl, ap, sym, true, Option, none, some, length, arith}
use gizmo.Text.{Text}
use gizmo.Historian.Archive.{Archive}
use gizmo.Historian.Replication.{
  table_name, Position, position_le, replication_cursor, Result, ok, refused, demand,
  cursor_differs, Batch,
}
use gizmo.Historian.Replication.Results.{bind-eq-ok, demand-eq-ok}
use gizmo.Historian.Replica.{
  Report, Progress, begin_import, import_rows, cursor_matches, later_position, finish_import,
  import_transaction, import_replication_batch, commit,
}
use gizmo.Historian.Incoming.{Codec, Head, check_head, move_cursor}
use gizmo.Historian.Replica.Cursor.{
  replication_cursor-move_cursor, later_position_again, begin_import-HasRowsOf,
}
use gizmo.Historian.Replica.Replay.{import_rows-skip}

-- The cursor of the table that a batch is about.
abbrev pub cursor_for : Head → Archive → Position
cursor_for h a = replication_cursor h.source_id (table_name h.table) a

abbrev pub fresh : ℕ → Head → Archive → Progress
fresh stamp h a = record {
  archive = begin_import stamp h a;
  previous = none;
  imported = 0;
  skipped = 0;
}

abbrev finished : ℕ → Head → Position → Progress → Archive
finished stamp h cursor t = record t.archive {
  replication_cursor =
      move_cursor stamp h.source_id (table_name h.table) cursor t.archive.replication_cursor;
}

abbrev reported : Head → Position → Progress → Report
reported h cursor t = record {
  source_id = h.source_id;
  hostname = h.hostname;
  table = h.table;
  imported = t.imported;
  skipped = t.skipped;
  cursor = cursor;
}

module _ {ℓ} {N : Type ℓ} (codec : Codec N) where
  -- What a transaction that ends well has done.
  pub record IsImport (stamp : ℕ) (h : Head) (a b : Archive) (report : Report) : Type 0 where
    pub progress : Progress
    pub rows_read :
        import_rows codec h.source_id h.table (cursor_for h a) h.rows (fresh stamp h a)
        ≡ ok progress
    pub matched : cursor_matches progress.previous h.cursor ≡ true
    pub written : b ≡ finished stamp h (later_position (cursor_for h a) h.cursor) progress
    pub told : report ≡ reported h (later_position (cursor_for h a) h.cursor) progress

  finish_import-eq-ok :
      (stamp : ℕ) (h : Head) (current : Position) (t : Progress) (b : Archive) (report : Report)
      → finish_import stamp h current t ≡ ok (b, report)
      → (cursor_matches t.previous h.cursor ≡ true)
        × (b ≡ finished stamp h (later_position current h.cursor) t)
        × (report ≡ reported h (later_position current h.cursor) t)
  unfolding finish_import
  finish_import-eq-ok stamp h current t b report e =
      let cursor = later_position current h.cursor in
      let (u, matches, e2) =
        bind-eq-ok (demand (cursor_matches t.previous h.cursor) cursor_differs)
          (λ _. ok (finished stamp h cursor t, reported h cursor t)) e in
      let both : ◌≡◌ {A = Archive × Report} (finished stamp h cursor t, reported h cursor t)
          (b, report) =
        cc in
      (
        demand-eq-ok (cursor_matches t.previous h.cursor) cursor_differs matches,
        sym (ap (λ (x : Archive × Report). x.0) both),
        sym (ap (λ (x : Archive × Report). x.1) both),
      )

  pub import_transaction-IsImport :
      (stamp : ℕ) (h : Head) (a b : Archive) (report : Report)
      → import_transaction codec stamp h a ≡ ok (b, report)
      → IsImport stamp h a b report
  unfolding import_transaction
  import_transaction-IsImport stamp h a b report e =
      let (t, read, e1) =
        bind-eq-ok (import_rows codec h.source_id h.table (cursor_for h a) h.rows (fresh stamp h a))
          (finish_import stamp h (cursor_for h a)) e in
      let (matched, written, told) = finish_import-eq-ok stamp h (cursor_for h a) t b report e1 in
      record { progress = t; rows_read = read; matched = matched; written = written; told = told }

  -- The loop's last position is not behind the new cursor.
  matched-le :
      (current cursor : Position) (o : Option Position) (q : Position)
      → cursor_matches o cursor ≡ true
      → o ≡ some q
      → position_le q (later_position current cursor) ≡ true
  unfolding cursor_matches later_position
  matched-le current cursor none q m e = cc
  matched-le current cursor (some p) q m e = ground arith

  commit-eq-ok :
      (a b : Archive) (m : Result (Archive × Report)) (report : Report)
      → ◌≡◌ {A = Archive × Result Report} (commit a m) (b, ok report)
      → m ≡ ok (b, report)
  unfolding commit
  commit-eq-ok a b (refused e) report h = absurd (ground arith)
  commit-eq-ok a b (ok (c, r)) report h = ground arith

  module _ (stamp later : ℕ) (h : Head) (a b : Archive) (report : Report)
      (i : IsImport stamp h a b report) where
    moved : Position
    moved = later_position (cursor_for h a) h.cursor

    cursor_for-import : cursor_for h b ≡ moved
    unfolding moved
    cursor_for-import = rw i.written (
        replication_cursor-move_cursor stamp h.source_id (table_name h.table) moved
          i.progress.archive)

    -- The variables of the loop at the end of the second transaction.
    skipped_all : Progress
    skipped_all = record {
      archive = begin_import later h b;
      previous = i.progress.previous;
      imported = 0;
      skipped = 0 + length h.rows;
    }

    import_transaction_again :
        import_transaction codec later h b
        ≡ ok (finished later h moved skipped_all, reported h moved skipped_all)
    unfolding import_transaction finish_import moved skipped_all
    import_transaction_again = rw (
      cursor_for-import,
      import_rows-skip codec h.source_id h.table (cursor_for h a) moved h.rows (fresh stamp h a)
          i.progress (fresh later h b) i.rows_read
          (λ q e. matched-le (cursor_for h a) h.cursor i.progress.previous q i.matched e) refl,
      i.matched,
      later_position_again (cursor_for h a) h.cursor,
    )

  -- Where a batch was imported, importing it again at once succeeds, reports no row as imported
  -- and the same cursor, and leaves the samples, the rollups and the events as they are.
  pub replayed_batch_adds_nothing :
      (stamp later : ℕ) (batch : Batch) (expected : Text) (a b : Archive) (report : Report)
      → import_replication_batch codec stamp batch expected a ≡ (b, ok report)
      → (c : Archive) × (again : Report) × (import_replication_batch codec later batch expected b
          ≡ (c, ok again))
        × (c.fast_sample ≡ b.fast_sample)
        × (c.platform_sample ≡ b.platform_sample)
        × (c.minute_rollup ≡ b.minute_rollup)
        × (c.event ≡ b.event)
        × (again.imported ≡ 0)
        × (again.cursor ≡ report.cursor)
  unfolding import_replication_batch commit moved skipped_all
  replayed_batch_adds_nothing stamp later batch expected a b report e =
      let (h, head, done) =
        bind-eq-ok (check_head batch expected) (λ h. import_transaction codec stamp h a)
          (commit-eq-ok a b _ report e) in
      let i = import_transaction-IsImport stamp h a b report done in
      let kept = begin_import-HasRowsOf later h b in
      (
        finished later h (moved stamp later h a b report i)
            (skipped_all stamp later h a b report i),
        reported h (moved stamp later h a b report i) (skipped_all stamp later h a b report i),
        rw (head, import_transaction_again stamp later h a b report i),
        kept.fast_samples,
        kept.platform_samples,
        kept.rollups,
        kept.events,
        refl,
        sym (ap (λ (r : Report). r.cursor) i.told),
      )
