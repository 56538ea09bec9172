-- ===== src/Historian/Replica/Sound/Rows.antt =====
-- The rows of a batch in `import_replication_batch` of src/python/gizmo_historian.py, and the whole
-- transaction, on the keys of the tables.
use gizmo.Prelude.{ℕ, ◌≡◌, refl, Bool, true, false, List, [], ◌∷◌, if◌then◌else◌, is_some, subst}
use gizmo.Text.{Text}
use gizmo.Historian.Payload.{Blob}
use gizmo.Historian.Store.{insert_event}
use gizmo.Historian.Archive.{Archive, FastRow, PlatformRow, RollupRow, EventRow}
use gizmo.Historian.Store.Sound.{IsSound, rollup-IsSound, insert_event-IsSound}
use gizmo.Historian.Replication.{
  Table, fast_sample, platform_sample, minute_rollup, event, Row, fast, platform, rollup, happened,
  no_row, Position, position_le, replication_position, Result, ok, refused, ◌>>=◌, demand, some_or,
  Batch, payload_invalid, unknown_stream, details_invalid, row_invalid, column_missing, not_ordered,
}
use gizmo.Historian.Replication.Results.{bind-eq-ok}
use gizmo.Historian.Replica.{
  Progress, Report, Written, write_fast, import_fast, write_platform, import_platform,
  import_rollup, import_event, import_row, decode_replica_payload, import_one, import_rows,
  take_row, counted, is_row, goes_on, import_transaction, import_replication_batch, commit,
}
use gizmo.Historian.Incoming.{Codec, Head, mapped, check_head}
use gizmo.Historian.Replica.Sound.{
  ok_archive, fast_over-IsSound, platform_over-IsSound, begin_import-IsSound, cursors-IsSound,
}
use gizmo.Historian.Replica.Replayed.{import_transaction-IsImport}

module _ {ℓ} {N : Type ℓ} (codec : Codec N) where
  open codec use {b64decode, decode_rollup, details_object, fast_paths, platform_paths}

  import_fast-IsSound :
      (source_id : Text) (r : FastRow) (a : Archive) (w : Written)
      → IsSound a
      → import_fast codec source_id r a ≡ ok w
      → IsSound w.0
  unfolding import_fast write_fast
  import_fast-IsSound source_id r a w v e =
      let (payload, d, e1) =
        bind-eq-ok (decode_replica_payload codec fast_paths r.payload) place e in
      let (local_id, m, e2) =
        bind-eq-ok (some_or unknown_stream (mapped source_id r.stream_id a.replication_stream))
          (λ k. write_fast codec k (record r { payload = payload }) a) e1 in
      fast_over-IsSound codec local_id (record r { payload = payload }) a _ w v e2
    where
      place : Blob → Result Written
      place payload =
          some_or unknown_stream (mapped source_id r.stream_id a.replication_stream) >>= λ k.
          write_fast codec k (record r { payload = payload }) a

  import_platform-IsSound :
      (r : PlatformRow) (a : Archive) (w : Written)
      → IsSound a
      → import_platform codec r a ≡ ok w
      → IsSound w.0
  unfolding import_platform write_platform
  import_platform-IsSound r a w v e =
      let (payload, d, e1) =
        bind-eq-ok (decode_replica_payload codec platform_paths r.payload)
          (λ p. write_platform codec (record r { payload = p }) a) e in
      platform_over-IsSound codec (record r { payload = payload }) a _ w v e1

  import_rollup-IsSound :
      (r : RollupRow) (a : Archive) (w : Written)
      → IsSound a
      → import_rollup codec r a ≡ ok w
      → IsSound w.0
  unfolding import_rollup
  import_rollup-IsSound r a w v e =
      let (payload, d, e1) = bind-eq-ok (some_or payload_invalid (b64decode r.payload)) _ e in
      let (u, g, e2) = bind-eq-ok (demand (is_some (decode_rollup payload)) payload_invalid) _ e1 in
      ok_archive e2 (rollup-IsSound (record r { payload = payload }) a v)

  import_event-IsSound :
      (r : EventRow) (a : Archive) (w : Written)
      → IsSound a
      → import_event codec r a ≡ ok w
      → IsSound w.0
  unfolding import_event
  import_event-IsSound r a w v e =
      let (object, d, e1) =
        bind-eq-ok (some_or details_invalid (details_object r.details_json)) _ e in
      let (u, g, e2) =
        bind-eq-ok (demand object details_invalid) (λ _. ok (insert_event r a, true)) e1 in
      ok_archive e2 (insert_event-IsSound r a v)

  import_row-IsSound :
      (source_id : Text) (table : Table) (row : Row) (a : Archive) (w : Written)
      → IsSound a
      → import_row codec source_id table row a ≡ ok w
      → IsSound w.0
  unfolding import_row
  import_row-IsSound source_id fast_sample (fast r) a w v e =
      import_fast-IsSound source_id r a w v e
  import_row-IsSound source_id fast_sample (platform r) a w v e = cc
  import_row-IsSound source_id fast_sample (rollup r) a w v e = cc
  import_row-IsSound source_id fast_sample (happened r) a w v e = cc
  import_row-IsSound source_id fast_sample no_row a w v e = cc
  import_row-IsSound source_id platform_sample (platform r) a w v e =
      import_platform-IsSound r a w v e
  import_row-IsSound source_id platform_sample (fast r) a w v e = import_platform-IsSound _ a w v e
  import_row-IsSound source_id platform_sample (rollup r) a w v e = cc
  import_row-IsSound source_id platform_sample (happened r) a w v e = cc
  import_row-IsSound source_id platform_sample no_row a w v e = cc
  import_row-IsSound source_id minute_rollup (rollup r) a w v e = import_rollup-IsSound r a w v e
  import_row-IsSound source_id minute_rollup (fast r) a w v e = cc
  import_row-IsSound source_id minute_rollup (platform r) a w v e = cc
  import_row-IsSound source_id minute_rollup (happened r) a w v e = cc
  import_row-IsSound source_id minute_rollup no_row a w v e = cc
  import_row-IsSound source_id event (happened r) a w v e = import_event-IsSound r a w v e
  import_row-IsSound source_id event (fast r) a w v e = cc
  import_row-IsSound source_id event (platform r) a w v e = cc
  import_row-IsSound source_id event (rollup r) a w v e = cc
  import_row-IsSound source_id event no_row a w v e = cc

  -- Both ways of a row: passed over, or imported.
  row_or_skip-IsSound :
      (t : Bool) (source_id : Text) (table : Table) (row : Row) (a : Archive) (w : Written)
      → IsSound a
      → (if t then ok (a, false) else import_row codec source_id table row a) ≡ ok w
      → IsSound w.0
  row_or_skip-IsSound true source_id table row a w v e = ok_archive e v
  row_or_skip-IsSound false source_id table row a w v e =
      import_row-IsSound source_id table row a w v e

  counted-IsSound :
      (p : Position) (s t : Progress) (w : Written)
      → IsSound w.0
      → ◌≡◌ {A = Result Progress} (ok (counted p s w)) (ok t)
      → IsSound t.archive
  unfolding counted
  counted-IsSound p s t w v e =
      let same : counted p s w ≡ t = cc in subst (λ (x : Progress). IsSound x.archive) same v

  import_one-IsSound :
      (source_id : Text) (table : Table) (current : Position) (row : Row) (s t : Progress)
      → IsSound s.archive
      → import_one codec source_id table current row s ≡ ok t
      → IsSound t.archive
  unfolding import_one take_row
  import_one-IsSound source_id table current row s t v e =
      let (u, g, e1) = bind-eq-ok (demand (is_row row) row_invalid) _ e in
      let (p, placed, e2) =
        bind-eq-ok (some_or column_missing (replication_position table row)) _ e1 in
      let (x, on, e3) =
        bind-eq-ok (demand (goes_on s.previous p) not_ordered)
          (λ _. take_row codec source_id table current p row s) e2 in
      let (w, done, e4) =
        bind-eq-ok
          (if position_le p current
            then ok (s.archive, false)
            else import_row codec source_id table row s.archive)
          (λ (w : Written). ok (counted p s w)) e3 in
      counted-IsSound p s t w
        (row_or_skip-IsSound (position_le p current) source_id table row s.archive w v done) e4

  import_rows-IsSound :
      (source_id : Text) (table : Table) (current : Position) (rows : List Row) (s t : Progress)
      → IsSound s.archive
      → import_rows codec source_id table current rows s ≡ ok t
      → IsSound t.archive
  unfolding import_rows
  import_rows-IsSound source_id table current [] s t v e =
      let same : s ≡ t = cc in subst (λ (x : Progress). IsSound x.archive) same v
  import_rows-IsSound source_id table current (row ∷ rows) s t v e =
      let (s1, one, rest) =
        bind-eq-ok (import_one codec source_id table current row s)
          (import_rows codec source_id table current rows) e in
      import_rows-IsSound source_id table current rows s1 t
        (import_one-IsSound source_id table current row s s1 v one) rest

  transaction-IsSound :
      (stamp : ℕ) (h : Head) (a b : Archive) (report : Report)
      → IsSound a
      → import_transaction codec stamp h a ≡ ok (b, report)
      → IsSound b
  transaction-IsSound stamp h a b report v e =
      let i = import_transaction-IsImport codec stamp h a b report e in
      rw i.written (
        cursors-IsSound _ i.progress.archive (
          import_rows-IsSound h.source_id h.table _ h.rows _ i.progress
            (begin_import-IsSound stamp h a v) i.rows_read))

  commit-IsSound :
      (a : Archive) (m : Result (Archive × Report))
      → IsSound a
      → ((b : Archive) (report : Report) → m ≡ ok (b, report) → IsSound b)
      → IsSound (commit a m).0
  unfolding commit
  commit-IsSound a (refused e) v k = v
  commit-IsSound a (ok (b, report)) v k = k b report refl

  pub import_replication_batch-IsSound :
      (stamp : ℕ) (batch : Batch) (expected : Text) (a : Archive)
      → IsSound a
      → IsSound (import_replication_batch codec stamp batch expected a).0
  unfolding import_replication_batch
  import_replication_batch-IsSound stamp batch expected a v = commit-IsSound a _ v λ b report e.
      let (h, head, done) =
        bind-eq-ok (check_head batch expected) (λ h. import_transaction codec stamp h a) e in
      transaction-IsSound stamp h a b report v done
