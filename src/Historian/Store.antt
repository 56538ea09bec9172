-- ===== src/Historian/Store.antt =====
-- `HistorianStore` of src/python/gizmo_historian.py: the statements that write the tables
-- of the archive. Times are microseconds of the epoch; the clock is an argument, `now`.
pub mod FreeTime
pub mod Streams
pub mod Sound
pub mod Recorded
use gizmo.Prelude.{
  ℕ, zero, suc, ◌+◌, ◌-◌, ◌*◌, Bool, true, false, not, ◌&&◌, Option, none, some, List, [], ◌∷◌,
  ◌++◌, map, ltb, leb, ◌==◌, if◌then◌else◌, length, take, any, is_some,
}
use gizmo.Text.{Text, text}
use gizmo.Common.{ℤ}
use gizmo.Historian.Payload.{Blob}
use gizmo.Historian.Table.{find, insert, upsert, delete_below}
use gizmo.Historian.Archive.{
  Archive, CursorRow, EventRow, FastRow, MappedStream, PlatformRow, RollupRow, SourceRow, StreamRow,
  fast_key, new_archive, platform_key, rollup_key,
}

-- `boot_id or "unknown"`
unfoldable pub boot_id_or_unknown : Text → Text
boot_id_or_unknown [] = text "unknown"
boot_id_or_unknown (c ∷ s) = c ∷ s

-- `begin_stream`: the archive with the new stream, and its id
unfoldable pub begin_stream : ℕ → Text → Option ℤ → Text → Archive → Archive × ℕ
begin_stream now boot_id sequence reason a =
    let row : StreamRow = record {
      id = a.next_stream_id;
      boot_id = boot_id_or_unknown boot_id;
      started_us = now;
      ended_us = none;
      first_sequence = sequence;
      last_sequence = sequence;
      reason = reason;
    } in
    (
      record a { stream = a.stream ++ row ∷ []; next_stream_id = a.next_stream_id + 1 },
      a.next_stream_id,
    )

-- `UPDATE stream SET ended_us=? WHERE id=? AND ended_us IS NULL`, on one row
unfoldable pub end_row : ℕ → ℕ → StreamRow → StreamRow
end_row now stream_id row =
    if row.id == stream_id && not (is_some row.ended_us)
    then record row { ended_us = some now }
    else row

-- `end_stream`
unfoldable pub end_stream : ℕ → ℕ → Archive → Archive
end_stream now stream_id a = record a { stream = map (end_row now stream_id) a.stream }

-- `UPDATE stream SET last_sequence=? WHERE id=?`, on one row
unfoldable pub continue_row : Option ℤ → ℕ → StreamRow → StreamRow
continue_row sequence stream_id row =
    if row.id == stream_id then record row { last_sequence = sequence } else row

-- The loop of `record_fast` and `record_platform` over a time that a row has, on fuel: `none` is
-- fuel that ran out.
unfoldable pub free_time {ℓ} : {R : Type ℓ} → (R → ℕ) → ℕ → List R → ℕ → Option ℕ
free_time key zero rows t = none
free_time key (suc fuel) rows t =
    let rest = free_time key fuel rows (t + 1) in if is_some (find key t rows) then rest else some t

-- Rounds that are enough.
abbrev pub rounds {ℓ} : {R : Type ℓ} → List R → ℕ
rounds rows = length rows + 1

-- `parse_time_us(…) or now_us()`
unfoldable pub time_or : ℕ → Option ℕ → ℕ
time_or now none = now
time_or now (some zero) = now
time_or now (some (suc t)) = suc t

-- The statements of `record_fast` behind its INSERT.
unfoldable pub with_fast : FastRow → Archive → Option (List FastRow) → Option Archive
with_fast row a none = none
with_fast row a (some rows) =
    some record a {
      fast_sample = rows;
      stream = map (continue_row row.sequence row.stream_id) a.stream;
    }

-- The body of `record_fast` behind the loop; `none` is an IntegrityError, of a time that is taken
-- or of a stream that is not there.
unfoldable pub insert_fast : FastRow → Archive → Option Archive
unfolding with_fast
insert_fast row a =
    if any (λ (s : StreamRow). s.id == row.stream_id) a.stream
    then with_fast row a (insert fast_key row a.fast_sample)
    else none

-- What a method returns: the archive and the time of the new row.
unfoldable pub timed : ℕ → Option Archive → Option (Archive × ℕ)
timed t none = none
timed t (some a) = some (a, t)

unfoldable pub fast_at : ℕ → Option ℤ → Blob → Archive → Option ℕ → Option (Archive × ℕ)
fast_at stream_id sequence payload a none = none
fast_at stream_id sequence payload a (some t) = timed t (
    insert_fast
      (record {
        receive_time_us = t;
        stream_id = stream_id;
        sequence = sequence;
        payload = payload;
      })
      a)

-- `record_fast`
unfoldable pub record_fast : ℕ → Option ℕ → ℕ → Option ℤ → Blob → Archive → Option (Archive × ℕ)
record_fast now generated_us stream_id sequence payload a =
    fast_at stream_id sequence payload a
      (free_time fast_key (rounds a.fast_sample) a.fast_sample (time_or now generated_us))

unfoldable pub with_platform : Archive → Option (List PlatformRow) → Option Archive
with_platform a none = none
with_platform a (some rows) = some record a { platform_sample = rows }

unfoldable pub platform_at : Blob → Archive → Option ℕ → Option (Archive × ℕ)
unfolding with_platform
platform_at payload a none = none
platform_at payload a (some t) = timed t (
    with_platform a
      (insert platform_key (record { receive_time_us = t; payload = payload }) a.platform_sample))

-- `record_platform`
unfoldable pub record_platform : ℕ → Option ℕ → Blob → Archive → Option (Archive × ℕ)
record_platform now generated_us payload a =
    platform_at payload a (
      free_time platform_key (rounds a.platform_sample) a.platform_sample
        (time_or now generated_us))

-- `INSERT INTO event`
unfoldable pub insert_event : EventRow → Archive → Archive
insert_event row a = record a {
  event = a.event ++ record row { id = a.next_event_id } ∷ [];
  next_event_id = a.next_event_id + 1;
}

-- `record_event`, with the details as JSON text in UTF-8; `none` is a ValueError
unfoldable pub record_event :
    ℕ → Text → Text → Text → Option ℕ → Text → Option ℕ → Archive → Option Archive
record_event now event_key summary severity source_time_us details time_us a =
    if ltb 16384 (length details)
    then none
    else some (
        insert_event
          (record {
            id = 0;
            time_us = time_or now time_us;
            source_time_us = source_time_us;
            severity = severity;
            event_key = event_key;
            summary = take 512 summary;
            details_json = details;
          })
          a)

-- `write_rollup`, of an accumulator that is encoded
unfoldable pub write_rollup : ℕ → ℕ → ℕ → Blob → Archive → Archive
write_rollup now bucket_us sample_count payload a = record a {
  minute_rollup =
      upsert rollup_key
        (record {
          bucket_us = bucket_us;
          sample_count = sample_count;
          payload = payload;
          updated_us = now;
        })
        a.minute_rollup;
}

-- What `load_rollup` decodes.
unfoldable pub load_rollup : ℕ → Archive → Option Blob
load_rollup bucket_us a = elim (find rollup_key bucket_us a.minute_rollup) [
  | none ↦ none
  | some row ↦ some row.payload
]

-- The retention settings of the store.
pub record Settings : Type 0 where
  pub raw_retention_days : ℕ
  pub platform_retention_days : ℕ
  pub rollup_retention_days : ℕ
  pub event_retention_days : ℕ
  pub retention_enabled : Bool
  pub max_query_points : ℕ
  pub max_export_rows : ℕ

-- `reference - days * 86400 * 1_000_000`. No time is negative, so a cutoff of 0 deletes as little
-- as one below it.
unfoldable pub cutoff_us : ℕ → ℕ → ℕ
cutoff_us reference days = reference - days * 86400 * 1_000_000

-- `DELETE FROM event WHERE time_us < ?`: the events stand in the order of their ids
unfoldable pub delete_events_below : ℕ → List EventRow → List EventRow
delete_events_below cutoff rows = delete_below (λ (r : EventRow). r.time_us) cutoff rows

-- The deletions of `apply_retention`.
unfoldable pub delete_expired : Settings → ℕ → Archive → Archive
unfolding delete_events_below
delete_expired s reference a = record a {
  fast_sample = delete_below fast_key (cutoff_us reference s.raw_retention_days) a.fast_sample;
  platform_sample =
      delete_below platform_key (cutoff_us reference s.platform_retention_days) a.platform_sample;
  minute_rollup =
      delete_below rollup_key (cutoff_us reference s.rollup_retention_days) a.minute_rollup;
  event = delete_events_below (cutoff_us reference s.event_retention_days) a.event;
}

-- `apply_retention`
unfoldable pub apply_retention : Settings → ℕ → Option ℕ → Archive → Archive
apply_retention s now reference_us a =
    if not s.retention_enabled then a else delete_expired s (time_or now reference_us) a
