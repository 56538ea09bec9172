-- ===== src/Historian/Sync/Mirror.antt =====
-- `_sync_table` of src/python/gizmo_historian.py against a board whose archive stands still: platform
-- samples.
use gizmo.Prelude.{
  ℕ, zero, suc, ◌+◌, ◌<◌, ◌≤◌, ◌≡◌, refl, ap, sym, ◌∙◌, true, false, not, ◌&&◌, List, [], ◌∷◌, ◌++◌,
  ltb, length, take, drop, take-append-drop, length-drop, length-take, arith, Bool-cases, inl, inr,
  ltb→lt,
}
use mathlib.Core.List.{append-nil, append_assoc}
use gizmo.Text.{Text, strip, text_eq}
use gizmo.Text.Equality.{text_eq_refl}
use gizmo.Common.{pos}
use gizmo.Historian.Payload.{Blob}
use gizmo.Historian.Table.{IsAbove, IsOrdered}
use gizmo.Historian.Table.Laws.{IsBelow, IsBelow-append, weaken-IsBelow}
use gizmo.Historian.Archive.{Archive, PlatformRow, platform_key}
use gizmo.Historian.Replication.{
  Table, platform_sample, table_name, Position, Result, ok, replication_batch, replication_cursor,
  max_batch_size, Batch,
}
use gizmo.Historian.Replica.{import_replication_batch}
use gizmo.Historian.Incoming.{Codec, move_cursor, nonempty, source_expected}
use gizmo.Historian.Replica.Rows.{last_key, last_key_ge, new-IsBelow, AllArrive}
use gizmo.Historian.Sync.{
  Recorder, cursor_of, pinned, sync_round, sync_batch, after_import, note_report, sync_table, go_on,
  batch_source, set_connection,
}
use gizmo.Historian.Sync.Parts.{
  take-IsAbove, take-IsOrdered, drop-IsOrdered, drop-IsAbove, drop-eq-nil, take-AllArrive,
  drop-AllArrive,
}
use gizmo.Historian.Sync.Connection.{
  IsKept, set_connection-IsKept, source_id-set_connection, expected-set_connection,
}
use gizmo.Historian.Sync.Sending.{platform_batch, check_head-platform, replication_batch-platform}
use gizmo.Historian.Sync.Import.{mirrored, report_of, import_transaction-platform}
use gizmo.Historian.Replica.Cursor.{replication_cursor-move_cursor, replication_cursor-cursors}

-- A request of the replica, answered by `replication_batch` on the board.
unfoldable pub ask : (Blob → Text) → Text × Text → ℕ → Archive → Table → Position → Result Batch
ask b64encode identity limit board table p =
    replication_batch b64encode identity (table_name table) (pos p.0) (pos p.1) (pos limit) board

-- The identity of a board is one that a replica takes.
pub record IsIdentity (identity : Text × Text) : Type 0 where
  pub stripped : strip identity.0 ≡ identity.0
  pub named : nonempty identity.0 ≡ true
  pub hosted : nonempty (strip identity.1) ≡ true

module _ {ℓ} {N : Type ℓ} (codec : Codec N) (b64encode : Blob → Text) (identity : Text × Text)
    (board : Archive) where
  -- The replica holds the first samples of the board, and its cursor stands behind them.
  pub record Mirrors (done todo : List PlatformRow) (k : ℕ) (r : Recorder) : Type 0 where
    pub held : r.archive.platform_sample ≡ done
    pub whole : board.platform_sample ≡ done ++ todo
    pub current : replication_cursor identity.0 (table_name platform_sample) r.archive ≡ (k, 0)
    pub at : cursor_of platform_sample r ≡ (k, 0)
    pub old : IsBelow platform_key (k + 1) done
    pub coming : IsAbove platform_key k todo
    pub ordered : IsOrdered platform_key todo
    pub arrive : AllArrive codec b64encode todo
    pub same : (nonempty r.source_id && not (text_eq identity.0 r.source_id)) ≡ false
    pub expected : source_expected (pinned r) identity.0 ≡ true

  module _ (now : ℕ) (details : Text) (limit : ℕ) (named : IsIdentity identity)
      (positive : 0 < limit) (bounded : limit ≤ max_batch_size) where
    -- The archive behind a round.
    behind : ℕ → List PlatformRow → Recorder → Archive
    behind k todo r = mirrored codec b64encode now identity board r.archive todo k limit

    import-platform :
        {done todo : List PlatformRow} {k : ℕ} {r : Recorder}
        → Mirrors done todo k r
        → import_replication_batch codec now
            (platform_batch b64encode identity k limit todo board)
            (pinned r)
            r.archive
          ≡ (
            behind k todo r,
            ok (report_of codec b64encode now identity board r.archive todo k limit),
          )
    unfolding import_replication_batch behind
    import-platform {done} {todo} {k} {r} m = rw (
      import_replication_batch,
      check_head-platform b64encode identity board todo k limit (pinned r)
          (rw named.stripped named.named) named.hosted (rw named.stripped m.expected),
      import_transaction-platform codec b64encode now identity board r.archive todo k limit
          (rw named.stripped m.current) (take-AllArrive codec b64encode limit todo m.arrive)
          (take-IsAbove limit k todo m.coming) (take-IsOrdered limit todo m.ordered)
          (rw m.held m.old),
    )

    -- The recorder behind a round.
    behind_round : ℕ → List PlatformRow → Recorder → Recorder
    behind_round k todo r = set_connection now details true (
        note_report platform_sample
          (report_of codec b64encode now identity board r.archive todo k limit)
          (record r { archive = behind k todo r }))

    sync_round-platform :
        {done todo : List PlatformRow} {k : ℕ} {r : Recorder}
        → Mirrors done todo k r
        → sync_round codec now details platform_sample
            (ask b64encode identity limit board platform_sample (cursor_of platform_sample r))
            r
          ≡ (behind_round k todo r, ok (ltb limit (length (take (suc limit) todo))))
    unfolding sync_round sync_batch after_import ask behind_round batch_source platform_batch
    sync_round-platform {done} {todo} {k} {r} m = rw (
      m.at,
      replication_batch-platform b64encode identity board done todo k limit m.whole m.old m.coming
          positive bounded,
      m.same,
      import-platform m,
    )

    kept :
        (k : ℕ) (todo : List PlatformRow) (r : Recorder)
        → IsKept (behind k todo r) (behind_round k todo r).archive
    unfolding behind_round note_report
    kept k todo r = set_connection-IsKept now details true (
        note_report platform_sample
          (report_of codec b64encode now identity board r.archive todo k limit)
          (record r { archive = behind k todo r }))

    source_id-behind_round :
        (k : ℕ) (todo : List PlatformRow) (r : Recorder)
        → (behind_round k todo r).source_id ≡ identity.0
    unfolding behind_round note_report report_of
    source_id-behind_round k todo r = source_id-set_connection now details true _ ∙ named.stripped

    expected-behind_round :
        (k : ℕ) (todo : List PlatformRow) (r : Recorder)
        → (behind_round k todo r).expected_source_id ≡ r.expected_source_id
    unfolding behind_round note_report
    expected-behind_round k todo r = expected-set_connection now details true _

    source_expected_self : (s : Text) → source_expected s s ≡ true
    unfolding source_expected
    source_expected_self [] = refl
    source_expected_self (c ∷ s) = text_eq_refl (c ∷ s)

    behind_round-expected :
        (k : ℕ) (todo : List PlatformRow) (r : Recorder)
        → source_expected (pinned r) identity.0 ≡ true
        → source_expected (pinned (behind_round k todo r)) identity.0 ≡ true
    unfolding pinned
    behind_round-expected k todo r e =
        rw (expected-behind_round k todo r, source_id-behind_round k todo r)
          (elim (Bool-cases (nonempty r.expected_source_id)) [
            | inl n ↦ rw n (rw (pinned, n) at e)
            | inr n ↦ rw n (source_expected_self identity.0)
          ])

    behind_round-current :
        (k : ℕ) (todo : List PlatformRow) (r : Recorder)
        → replication_cursor identity.0 (table_name platform_sample) (behind_round k todo r).archive
          ≡ (last_key k (take limit todo), 0)
    unfolding behind mirrored
    behind_round-current k todo r =
        replication_cursor-cursors identity.0 (table_name platform_sample)
          (record r.archive {
            replication_cursor =
                move_cursor now identity.0 (table_name platform_sample)
                  (last_key k (take limit todo), 0) r.archive.replication_cursor;
          })
          (behind_round k todo r).archive ((kept k todo r).cursors ∙ rw named.stripped)
        ∙ replication_cursor-move_cursor now identity.0 (table_name platform_sample)
            (last_key k (take limit todo), 0) r.archive

    behind_round-Mirrors :
        {done todo : List PlatformRow} {k : ℕ} {r : Recorder}
        → Mirrors done todo k r
        → Mirrors
            (done ++ take limit todo)
            (drop limit todo)
            (last_key k (take limit todo))
            (behind_round k todo r)
    unfolding cursor_of behind mirrored
    behind_round-Mirrors {done} {todo} {k} {r} m = record {
      held = (kept k todo r).samples ∙ ap (λ rows. rows ++ take limit todo) m.held;
      whole =
          m.whole
          ∙ ap (λ rows. done ++ rows) (sym (take-append-drop limit todo))
          ∙ sym (append_assoc done (take limit todo) (drop limit todo));
      current = behind_round-current k todo r;
      at = rw (source_id-behind_round k todo r, named.named) (behind_round-current k todo r);
      old =
          IsBelow-append platform_key (last_key k (take limit todo) + 1) done (take limit todo)
            (weaken-IsBelow platform_key (k + 1) (last_key k (take limit todo) + 1) done
              (omega (arith, last_key_ge k (take limit todo) above ordered)) m.old)
            (new-IsBelow k (take limit todo) above ordered);
      coming = drop-IsAbove limit k todo m.coming m.ordered;
      ordered = drop-IsOrdered limit todo m.ordered;
      arrive = drop-AllArrive codec b64encode limit todo m.arrive;
      same = rw (source_id-behind_round k todo r, named.named, text_eq_refl identity.0);
      expected = behind_round-expected k todo r m.expected;
    }
      where
        above : IsAbove platform_key k (take limit todo)
        above = take-IsAbove limit k todo m.coming

        ordered : IsOrdered platform_key (take limit todo)
        ordered = take-IsOrdered limit todo m.ordered

    -- A batch with no more rows behind it completes the mirror.
    last_round :
        (done todo : List PlatformRow) {j : ℕ} {s : Recorder}
        → drop limit todo ≡ []
        → Mirrors (done ++ take limit todo) (drop limit todo) j s
        → s.archive.platform_sample ≡ board.platform_sample
    last_round done todo e m =
        m.held
        ∙ sym (append-nil (done ++ take limit todo))
        ∙ ap (λ rows. (done ++ take limit todo) ++ rows) (sym e)
        ∙ sym m.whole

    fewer :
        (rounds : ℕ) (todo : List PlatformRow)
        → length todo < suc rounds
        → ltb limit (length (take (suc limit) todo)) ≡ true
        → length (drop limit todo) < rounds
    fewer rounds todo h more = omega (
      arith,
      ltb→lt limit (length (take (suc limit) todo)) more,
      length-take (suc limit) todo,
      length-drop limit todo,
    )

    -- A replica that holds the first platform samples of a board, with its cursor behind them, and
    -- a board whose archive stands still, of a named identity and with its samples in the order of
    -- their times, all of which arrive and decode: `_sync_table` for platform samples, with
    -- batches of 1 to 2,000 rows and in more rounds than samples are missing, ends by its
    -- `return`, and the replica's platform samples are then the board's.
    pub sync_table_completes :
        (rounds : ℕ) {done todo : List PlatformRow} {k : ℕ} {r : Recorder}
        → length todo < rounds
        → Mirrors done todo k r
        → (s : Recorder) × (sync_table codec now details rounds platform_sample
              (ask b64encode identity limit board)
              r
            ≡ (s, ok true))
          × (s.archive.platform_sample ≡ board.platform_sample)
    unfolding sync_table go_on
    sync_table_completes zero h m = elim h [ ]
    sync_table_completes (suc rounds) {done} {todo} {k} {r} h m =
        rw (sync_round-platform m) (elim (Bool-cases (ltb limit (length (take (suc limit) todo)))) [
          | inl more ↦
              rw more
                (sync_table_completes rounds (fewer rounds todo h more) (behind_round-Mirrors m))
          | inr last ↦ (
            behind_round k todo r,
            rw last,
            last_round done todo (drop-eq-nil limit todo last) (behind_round-Mirrors m),
          )
        ])
