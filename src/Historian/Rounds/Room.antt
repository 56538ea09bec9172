-- ===== src/Historian/Rounds/Room.antt =====
-- The steps of a round of `HistorianRecorder._run` before its sample, in src/python/gizmo_historian.py: the
-- connection, the disk and the stream.
use gizmo.Prelude.{
  ℕ, ◌≤◌, ◌≡◌, refl, sym, subst, inl, inr, Bool, true, false, Option, none, some, ◌++◌, ltb,
  if◌then◌else◌, length, arith, Option-cases, Bool-cases,
}
use gizmo.Text.{Text, text}
use gizmo.Common.{ℤ}
use gizmo.Historian.Payload.{get}
use gizmo.Historian.Table.{IsOrdered}
use gizmo.Historian.Store.{record_event, insert_event, begin_stream}
use gizmo.Historian.Store.Streams.{known, known-last}
use gizmo.Historian.Archive.{Archive, fast_key}
use gizmo.Historian.Recorder.{
  Python, Snapshot, Tick, HistorianRecorder, Reason, reason_text, and_then, ◌>>=◌, ◌>>◌, stored,
  put_event, is_state, event_for_connection, value_of, sequence_of, take_sequence, boot_id_of,
  end_old, restart_stream, start_stream, return_stream, stream_reason, ensure_stream_of,
  ensure_stream,
}
use gizmo.Historian.Capture.{due}
use gizmo.Historian.Rounds.{boundary, note_disk, disk_of, check_disk, disk_allows}

-- The details of the events before the sample are short enough for `record_event`.
pub record IsBrief {N : Type 0} (py : Python N) : Type 0 where
  pub connection : (b : Bool) → length (py.connection_details b) ≤ 16384
  pub stream :
      (id : ℕ) (boot_id : Text) (sequence : Option ℤ)
      → length (py.stream_details id boot_id sequence) ≤ 16384

-- The recorder's stream is in the archive, the samples are in the order of their times, and the
-- disk has not been found full.
pub record IsReady {N : Type 0} (r : HistorianRecorder N) : Type 0 where
  pub ordered : IsOrdered fast_key r.archive.fast_sample
  pub open_stream : (id : ℕ) → r.stream_id ≡ some id → known id r.archive.stream ≡ true
  pub room : r.write_limited ≡ false

record_event-ends :
    (now : ℕ) (key summary severity : Text) (source : Option ℕ) (details : Text) (a : Archive)
    → length details ≤ 16384
    → (b : Archive) × (record_event now key summary severity source details none a ≡ some b)
      × (b.fast_sample ≡ a.fast_sample)
      × (b.stream ≡ a.stream)
unfolding record_event insert_event
record_event-ends now key summary severity source details a h =
    elim (Option-cases (record_event now key summary severity source details none a)) [
      | inl n ↦ absurd (ground arith)
      | inr (b, e) ↦ (b, e, ground arith, ground arith)
    ]

module _ {N : Type 0} where
  put_event-ends :
      (now : ℕ) (key summary severity : Text) (source : Option ℕ) (details : Text)
      (r : HistorianRecorder N)
      → length details ≤ 16384
      → (b : Archive) × (put_event now key summary severity source details r
          ≡ (record r { archive = b }, some tt))
        × (b.fast_sample ≡ r.archive.fast_sample)
        × (b.stream ≡ r.archive.stream)
  unfolding put_event stored
  put_event-ends now key summary severity source details r h =
      let (b, e, f, g) = record_event-ends now key summary severity source details r.archive h in
      (b, rw e refl, f, g)

module _ {N : Type 0} (py : Python N) where
  pub event_for_connection-ends :
      (now : ℕ) (b : Bool) (r : HistorianRecorder N)
      → IsBrief py
      → IsReady r
      → (q : HistorianRecorder N) × (event_for_connection py now b r ≡ (q, some tt)) × IsReady q
  unfolding event_for_connection
  event_for_connection-ends now b r brief h = elim (Bool-cases (is_state r.connection_state b)) [
    | inl t ↦ (r, rw t refl, h)
    | inr f ↦
        let s = record r { connection_state = some b } in
        let (a, e, same, streams) =
          put_event-ends now (text "opcua.connection")
            (if b then text "OPC UA connection restored" else text "OPC UA connection lost")
            (if b then text "info" else text "warning") none (py.connection_details b) s
            (brief.connection b) in
        (
          record s { archive = a },
          rw f e,
          record {
            ordered = subst (IsOrdered fast_key) (sym same) h.ordered;
            open_stream = λ id i. subst (λ l. known id l ≡ true) (sym streams) (h.open_stream id i);
            room = h.room;
          },
        )
  ]

  -- The stream of a sample is in the archive.
  start_stream-ends :
      (now : ℕ) (boot_id : Text) (sequence : Option ℤ) (o : Option Reason) (r : HistorianRecorder N)
      → IsBrief py
      → IsReady r
      → o ≡ stream_reason r.stream_id boot_id r.boot_id sequence r.last_sequence
      → (q : HistorianRecorder N) × (id : ℕ) × (start_stream py now boot_id sequence o r
          ≡ (q, some tt))
        × (q.stream_id ≡ some id)
        × (known id q.archive.stream ≡ true)
  unfolding start_stream restart_stream begin_stream stream_reason
  start_stream-ends now boot_id sequence none r brief h e = elim (Option-cases r.stream_id) [
    | inl n ↦ absurd (ground arith)
    | inr (id, i) ↦ (r, id, refl, i, h.open_stream id i)
  ]
  start_stream-ends now boot_id sequence (some reason) r brief h e =
      let s = restart_stream now boot_id sequence reason r in
      let (a, done, same, streams) =
        put_event-ends now (text "history.stream")
          (text "Historian sequence epoch started: " ++ reason_text reason) (text "info") none
          (py.stream_details r.archive.next_stream_id boot_id sequence) s
          (brief.stream _ boot_id sequence) in
      (
        record s { archive = a },
        (end_old now r.stream_id r.archive).next_stream_id,
        done,
        refl,
        subst (λ l. known (end_old now r.stream_id r.archive).next_stream_id l ≡ true) (sym streams)
            (known-last _ (end_old now r.stream_id r.archive).stream),
      )

  pub ensure_stream-ends :
      (now : ℕ) (s : Snapshot N) (sequence : Option ℤ) (r : HistorianRecorder N)
      → IsBrief py
      → IsReady r
      → sequence_of py (value_of (get (text "Measurement.Sequence") s.values)) ≡ some sequence
      → (q : HistorianRecorder N) × (id : ℕ) × (ensure_stream py now s r ≡ (q, some id))
        × (known id q.archive.stream ≡ true)
  unfolding ensure_stream ensure_stream_of take_sequence return_stream and_then ◌>>=◌ ◌>>◌
  ensure_stream-ends now s sequence r brief h n =
      let (q, id, e, i, k) =
        start_stream-ends now (boot_id_of py (value_of (get (text "Identity.BootId") s.values)))
          sequence _ r brief h refl in
      (
        record q {
          boot_id = boot_id_of py (value_of (get (text "Identity.BootId") s.values));
          last_sequence = sequence;
        },
        id,
        rw (n, e, i) refl,
        k,
      )

module _ {N : Type 0} (py : Python N) (min_free_bytes : ℕ) where
  -- A disk with room lets a recorder through that has not found it full.
  pub disk_allows-ends :
      (tick : Tick) (free total : ℕ) (r : HistorianRecorder N)
      → IsReady r
      → tick.disk ≡ some (free, total)
      → boundary py min_free_bytes total ≤ free
      → (q : HistorianRecorder N) × (disk_allows py min_free_bytes tick r ≡ (q, some true))
        × (q.archive ≡ r.archive)
        × (q.stream_id ≡ r.stream_id)
        × (q.write_limited ≡ false)
  unfolding disk_allows check_disk disk_of note_disk
  disk_allows-ends tick free total r h d room =
      elim (Bool-cases (due tick.monotonic r.last_disk_check 60_000_000)) [
        | inl t ↦ (
          record r {
            last_disk_check = tick.monotonic;
            disk_free_bytes = free;
            write_limited = false;
          },
          rw (t, d, enough free (boundary py min_free_bytes total) room, h.room) refl,
          refl,
          refl,
          refl,
        )
        | inr f ↦ (r, rw (f, h.room) refl, refl, refl, h.room)
      ]
    where
      enough : (m n : ℕ) → n ≤ m → ltb m n ≡ false
      enough m n k = ground arith
