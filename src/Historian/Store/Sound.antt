-- ===== src/Historian/Store/Sound.antt =====
-- The writes of `HistorianStore` of src/python/gizmo_historian.py, one by one: what its primary keys
-- and its foreign key ask of the tables.
pub mod Samples
use gizmo.Prelude.{
  ℕ, ◌+◌, ◌≡◌, refl, ap, sym, ◌∙◌, Bool, true, false, not, ◌&&◌, Option, none, some, List, [], ◌∷◌,
  ◌++◌, map, ltb, ◌==◌, if◌then◌else◌, any, length, take, arith, if_ind, if_cases, Option-cases,
  inl, inr, is_some, Bool-cases, subst,
}
use gizmo.Text.{Text}
use gizmo.Common.{ℤ}
use gizmo.Historian.Payload.{Blob}
use gizmo.Historian.Table.{find, insert, upsert, delete_below, IsOrdered}
use gizmo.Historian.Table.Laws.{
  IsBelow, insert-eq-some, upsert-IsOrdered, delete_below-IsOrdered, delete_below-IsBelow,
}
use gizmo.Historian.Store.{
  begin_stream, end_stream, end_row, continue_row, with_fast, insert_fast, fast_at, platform_at,
  with_platform, timed, record_fast, record_platform, insert_event, record_event, write_rollup,
  apply_retention, delete_expired, delete_events_below, Settings, free_time, rounds, time_or,
  cutoff_us,
}
use gizmo.Historian.Archive.{
  Archive, FastRow, PlatformRow, RollupRow, EventRow, StreamRow, MappedStream, fast_key,
  platform_key, rollup_key, new_archive,
}
use gizmo.Historian.Store.Streams.{
  stream_key, known, AllKnown, known-append, known-last, known-map, map-IsBelow, map-IsOrdered,
  AllKnown_grow, upsert-AllKnown, delete_below-AllKnown, append-IsOrdered, append-IsBelow,
}

abbrev pub event_key : EventRow → ℕ
event_key r = r.id

abbrev pub fast_stream : FastRow → ℕ
fast_stream r = r.stream_id

abbrev pub mapped_stream : MappedStream → ℕ
mapped_stream m = m.local_stream_id

-- The keys of every table go up, ids are those handed out, and every stream that a sample or a
-- mapping refers to is there.
pub record IsSound (a : Archive) : Type 0 where
  pub streams : IsOrdered stream_key a.stream
  pub stream_ids : IsBelow stream_key a.next_stream_id a.stream
  pub fast_samples : IsOrdered fast_key a.fast_sample
  pub platform_samples : IsOrdered platform_key a.platform_sample
  pub rollups : IsOrdered rollup_key a.minute_rollup
  pub events : IsOrdered event_key a.event
  pub event_ids : IsBelow event_key a.next_event_id a.event
  pub referred : AllKnown fast_stream a.stream a.fast_sample
  pub mapped : AllKnown mapped_stream a.stream a.replication_stream

pub new_archive-IsSound : IsSound new_archive
unfolding new_archive
new_archive-IsSound = ground arith

-- The streams change, and stay those that were there.
pub streams-IsSound :
    (f : StreamRow → StreamRow) (a : Archive)
    → ((s : StreamRow) → (f s).id ≡ s.id)
    → IsSound a
    → IsSound (record a { stream = map f a.stream })
streams-IsSound f a keeps v = record {
  streams = map-IsOrdered f keeps a.stream v.streams;
  stream_ids = map-IsBelow f keeps a.next_stream_id a.stream v.stream_ids;
  fast_samples = v.fast_samples;
  platform_samples = v.platform_samples;
  rollups = v.rollups;
  events = v.events;
  event_ids = v.event_ids;
  referred = AllKnown_grow fast_stream a.stream (map f a.stream) a.fast_sample grow v.referred;
  mapped = AllKnown_grow mapped_stream a.stream (map f a.stream) a.replication_stream grow v.mapped;
}
  where
    grow : (k : ℕ) → known k a.stream ≡ true → known k (map f a.stream) ≡ true
    grow k e = known-map f keeps k a.stream ∙ e

-- A stream is added under the next id.
pub new_stream-IsSound :
    (s : StreamRow) (a : Archive)
    → s.id ≡ a.next_stream_id
    → IsSound a
    → IsSound (record a { stream = a.stream ++ s ∷ []; next_stream_id = a.next_stream_id + 1 })
new_stream-IsSound s a e v = record {
  streams = append-IsOrdered stream_key s a.stream (rw e v.stream_ids) v.streams;
  stream_ids = rw (← e) (append-IsBelow stream_key s a.stream (rw e v.stream_ids));
  fast_samples = v.fast_samples;
  platform_samples = v.platform_samples;
  rollups = v.rollups;
  events = v.events;
  event_ids = v.event_ids;
  referred = AllKnown_grow fast_stream a.stream (a.stream ++ s ∷ []) a.fast_sample grow v.referred;
  mapped =
      AllKnown_grow mapped_stream a.stream (a.stream ++ s ∷ []) a.replication_stream grow v.mapped;
}
  where
    grow : (k : ℕ) → known k a.stream ≡ true → known k (a.stream ++ s ∷ []) ≡ true
    grow k = known-append k a.stream (s ∷ [])

pub begin_stream-IsSound :
    (now : ℕ) (boot_id : Text) (sequence : Option ℤ) (reason : Text) (a : Archive)
    → IsSound a
    → IsSound (begin_stream now boot_id sequence reason a).0
unfolding begin_stream
begin_stream-IsSound now boot_id sequence reason a v = new_stream-IsSound _ a refl v

pub end_stream-IsSound :
    (now stream_id : ℕ) (a : Archive) → IsSound a → IsSound (end_stream now stream_id a)
unfolding end_stream end_row
end_stream-IsSound now stream_id a v =
    streams-IsSound (end_row now stream_id) a
      (λ s.
        if_ind (λ (t : StreamRow). t.id ≡ s.id) (s.id == stream_id && not (is_some s.ended_us)) _ _
          refl refl)
      v

pub fast_sample-IsSound :
    (row : FastRow) (a : Archive)
    → known row.stream_id a.stream ≡ true
    → IsSound a
    → IsSound (record a { fast_sample = upsert fast_key row a.fast_sample })
fast_sample-IsSound row a k v = record {
  streams = v.streams;
  stream_ids = v.stream_ids;
  fast_samples = upsert-IsOrdered fast_key row a.fast_sample v.fast_samples;
  platform_samples = v.platform_samples;
  rollups = v.rollups;
  events = v.events;
  event_ids = v.event_ids;
  referred = upsert-AllKnown fast_stream fast_key a.stream row a.fast_sample k v.referred;
  mapped = v.mapped;
}

pub platform_sample-IsSound :
    (row : PlatformRow) (a : Archive)
    → IsSound a
    → IsSound (record a { platform_sample = upsert platform_key row a.platform_sample })
platform_sample-IsSound row a v =
    ground (arith, upsert-IsOrdered platform_key row a.platform_sample)

pub rollup-IsSound :
    (row : RollupRow) (a : Archive)
    → IsSound a
    → IsSound (record a { minute_rollup = upsert rollup_key row a.minute_rollup })
rollup-IsSound row a v = ground (arith, upsert-IsOrdered rollup_key row a.minute_rollup)

pub insert_event-IsSound : (row : EventRow) (a : Archive) → IsSound a → IsSound (insert_event row a)
unfolding insert_event
insert_event-IsSound row a v = ground (
  arith,
  append-IsOrdered event_key (record row { id = a.next_event_id }) a.event,
  append-IsBelow event_key (record row { id = a.next_event_id }) a.event,
)

delete_expired-IsSound :
    (s : Settings) (reference : ℕ) (a : Archive)
    → IsSound a
    → IsSound (delete_expired s reference a)
unfolding delete_expired
delete_expired-IsSound s reference a v = record {
  streams = v.streams;
  stream_ids = v.stream_ids;
  fast_samples = delete_below-IsOrdered fast_key fast_key _ a.fast_sample v.fast_samples;
  platform_samples =
      delete_below-IsOrdered platform_key platform_key _ a.platform_sample v.platform_samples;
  rollups = delete_below-IsOrdered rollup_key rollup_key _ a.minute_rollup v.rollups;
  events = delete_below-IsOrdered event_key event_time _ a.event v.events;
  event_ids = delete_below-IsBelow event_key event_time _ a.next_event_id a.event v.event_ids;
  referred = delete_below-AllKnown fast_stream fast_key a.stream _ a.fast_sample v.referred;
  mapped = v.mapped;
}
  where
    event_time : EventRow → ℕ
    event_time r = r.time_us

pub apply_retention-IsSound :
    (s : Settings) (now : ℕ) (reference_us : Option ℕ) (a : Archive)
    → IsSound a
    → IsSound (apply_retention s now reference_us a)
unfolding apply_retention
apply_retention-IsSound s now reference_us a v =
    if_ind IsSound (not s.retention_enabled) a _ v
      (delete_expired-IsSound s (time_or now reference_us) a v)
