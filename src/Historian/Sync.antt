-- ===== src/Historian/Sync.antt =====
-- `ReplicaRecorder` of src/python/gizmo_historian.py: the loops that mirror the archive of a board.
-- A request to the board is the argument `fetch`, a function of the table and the cursor; the disk,
-- the clock and the stop flag are arguments too.
pub mod Parts
pub mod Connection
pub mod Sending
pub mod Import
pub mod Mirror
use gizmo.Prelude.{
  ℕ, zero, suc, ◌+◌, ◌*◌, Bool, true, false, not, ◌&&◌, ◌||◌, Option, none, some, List, [], ◌∷◌,
  ◌++◌, ltb, ◌==◌, if◌then◌else◌, length,
}
use gizmo.Text.{Text, text, text_eq}
use gizmo.Historian.Store.{Settings, apply_retention, record_event}
use gizmo.Historian.Archive.{Archive}
use gizmo.Historian.Replication.{
  Table, fast_sample, platform_sample, minute_rollup, event, table_name, Position, Failure,
  source_changed, Result, ok, refused, Batch, replication_cursor,
}
use gizmo.Historian.Replica.{Report, import_replication_batch}
use gizmo.Historian.Incoming.{Codec, nonempty}

-- The fields of `ReplicaRecorder`, with the archive of its store. A sample's time is in
-- microseconds, as `iso_from_us` is given it.
pub record Recorder : Type 0 where
  pub archive : Archive
  pub expected_source_id : Text
  pub source_id : Text
  pub source_hostname : Text
  pub connected : Bool
  pub last_connection_state : Option Bool
  pub last_sample_us : Option ℕ
  pub last_platform_us : Option ℕ
  pub sync_errors : ℕ
  pub rows_imported : ℕ
  pub disk_free_bytes : ℕ
  pub write_limited : Bool

abbrev bool_is : Option Bool → Bool → Bool
bool_is none b = false
bool_is (some true) b = b
bool_is (some false) b = not b

-- The event of a changed connection. Its details hold the URL and an error text, which are the
-- argument; a ValueError of `record_event` is passed over.
unfoldable pub connection_event : ℕ → Bool → Text → Archive → Archive
connection_event now connected details a =
    elim (record_event now (text "replication.connection")
      (if connected
        then text "Edge historian replication restored"
        else text "Edge historian replication unavailable")
      (if connected then text "info" else text "warning") none details none a) [
        | none ↦ a
        | some b ↦ b
      ]

-- `_set_connection`
unfoldable pub set_connection : ℕ → Text → Bool → Recorder → Recorder
set_connection now details connected r =
    let s = record r { connected = connected; last_connection_state = some connected } in
    if bool_is r.last_connection_state connected
    then s
    else record s { archive = connection_event now connected details r.archive }

-- `_cursor`
unfoldable pub cursor_of : Table → Recorder → Position
cursor_of table r =
    if nonempty r.source_id
    then replication_cursor r.source_id (table_name table) r.archive
    else (0, 0)

-- `source.get("id")` of a batch, and an empty text without one
unfoldable pub batch_source : Batch → Text
batch_source batch = elim batch.source [ none ↦ [] | some source ↦ source.0 ]

-- `self.expected_source_id or self._source_id`
unfoldable pub pinned : Recorder → Text
pinned r = if nonempty r.expected_source_id then r.expected_source_id else r.source_id

-- What a round of `_sync_table` notes behind the import.
unfoldable pub note_report : Table → Report → Recorder → Recorder
note_report table report r =
    let s = record r {
      source_id = report.source_id;
      source_hostname = report.hostname;
      rows_imported = r.rows_imported + report.imported;
    } in
    elim table [
      | fast_sample ↦ record s { last_sample_us = some report.cursor.0 }
      | platform_sample ↦ record s { last_platform_us = some report.cursor.0 }
      | _ ↦ s
    ]

module _ {ℓ} {N : Type ℓ} (codec : Codec N) (now : ℕ) (details : Text) where
  -- The rest of a round behind the import.
  unfoldable pub after_import : Table → Recorder → Archive × Result Report → Recorder × Result Bool
  after_import table r (a, refused e) = (record r { archive = a }, refused e)
  after_import table r (a, ok report) = (
    set_connection now details true (note_report table report (record r { archive = a })),
    ok true,
  )

  -- One round with its batch: the result is whether it is to go on behind this round.
  unfoldable pub sync_batch : Table → Batch → Recorder → Recorder × Result Bool
  sync_batch table batch r =
      if nonempty r.source_id && not (text_eq (batch_source batch) r.source_id)
      then (r, refused source_changed)
      else let (s, result) =
          after_import table r (import_replication_batch codec now batch (pinned r) r.archive) in
        (s, elim result [ refused e ↦ refused e | ok b ↦ ok batch.has_more ])

  unfoldable pub sync_round : Table → Result Batch → Recorder → Recorder × Result Bool
  sync_round table (refused e) r = (r, refused e)
  sync_round table (ok batch) r = sync_batch table batch r

  -- The end of a round of `_sync_table`: an exception, a further round or the `return`.
  unfoldable pub go_on :
      Recorder × Result Bool → (Recorder → Recorder × Result Bool) → Recorder × Result Bool
  go_on (s, refused e) next = (s, refused e)
  go_on (s, ok true) next = next s
  go_on (s, ok false) next = (s, ok true)

  -- `_sync_table`, where the stop flag is clear as many times as the count says. The result is
  -- whether the loop ended by its `return`.
  unfoldable pub sync_table :
      ℕ → Table → (Table → Position → Result Batch) → Recorder → Recorder × Result Bool
  sync_table zero table fetch r = (r, ok false)
  sync_table (suc rounds) table fetch r =
      go_on (sync_round table (fetch table (cursor_of table r)) r) (sync_table rounds table fetch)
