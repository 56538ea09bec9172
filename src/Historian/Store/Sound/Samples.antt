-- ===== src/Historian/Store/Sound/Samples.antt =====
-- `record_fast`, `record_platform`, `record_event` and `write_rollup` of src/python/gizmo_historian.py
-- on the keys of the tables.
use gizmo.Prelude.{
  ℕ, ◌≡◌, refl, ap, sym, ◌∙◌, Bool, true, false, Option, none, some, List, map, ltb, ◌==◌,
  if◌then◌else◌, length, arith, if_ind, inl, inr, Bool-cases, subst,
}
use gizmo.Text.{Text}
use gizmo.Common.{ℤ}
use gizmo.Historian.Payload.{Blob}
use gizmo.Historian.Table.{insert, upsert}
use gizmo.Historian.Table.Laws.{insert-eq-some}
use gizmo.Historian.Store.{
  continue_row, with_fast, insert_fast, fast_at, platform_at, with_platform, timed, record_fast,
  record_platform, record_event, write_rollup,
}
use gizmo.Historian.Archive.{Archive, FastRow, PlatformRow, StreamRow, fast_key, platform_key}
use gizmo.Historian.Store.Streams.{known}
use gizmo.Historian.Store.Sound.{
  IsSound, streams-IsSound, fast_sample-IsSound, platform_sample-IsSound, rollup-IsSound,
  insert_event-IsSound,
}

with_fast-IsSound :
    (row : FastRow) (a b : Archive) (o : Option (List FastRow))
    → known row.stream_id a.stream ≡ true
    → IsSound a
    → ((rows : List FastRow) → o ≡ some rows → rows ≡ upsert fast_key row a.fast_sample)
    → with_fast row a o ≡ some b
    → IsSound b
unfolding with_fast continue_row
with_fast-IsSound row a b none k v new e = cc
with_fast-IsSound row a b (some rows) k v new e = subst IsSound (same ∙ written) (
    streams-IsSound f (record a { fast_sample = upsert fast_key row a.fast_sample }) keeps
      (fast_sample-IsSound row a k v))
  where
    f : StreamRow → StreamRow
    f = continue_row row.sequence row.stream_id

    keeps : (s : StreamRow) → (f s).id ≡ s.id
    keeps s = if_ind (λ (t : StreamRow). t.id ≡ s.id) (s.id == row.stream_id) _ _ refl refl

    written : record a { fast_sample = rows; stream = map f a.stream } ≡ b
    written = ground arith

    same :
        record a { fast_sample = upsert fast_key row a.fast_sample; stream = map f a.stream }
        ≡ record a { fast_sample = rows; stream = map f a.stream }
    same =
        ap (λ (t : List FastRow). record a { fast_sample = t; stream = map f a.stream })
          (sym (new rows refl))

insert_fast-IsSound :
    (row : FastRow) (a b : Archive) → IsSound a → insert_fast row a ≡ some b → IsSound b
unfolding insert_fast known
insert_fast-IsSound row a b v e = elim (Bool-cases (known row.stream_id a.stream)) [
  | inl k ↦
      with_fast-IsSound row a b (insert fast_key row a.fast_sample) k v
        (λ rows h. insert-eq-some fast_key row a.fast_sample h) (rw k at e)
  | inr k ↦ absurd (ground arith)
]

timed-eq-some :
    (t s : ℕ) (o : Option Archive) (b : Archive) → timed t o ≡ some (b, s) → (o ≡ some b) × (t ≡ s)
unfolding timed
timed-eq-some t s none b e = cc
timed-eq-some t s (some a) b e = ground arith

fast_at-IsSound :
    (stream_id : ℕ) (sequence : Option ℤ) (payload : Blob) (a b : Archive) (o : Option ℕ) (t : ℕ)
    → IsSound a
    → fast_at stream_id sequence payload a o ≡ some (b, t)
    → IsSound b
unfolding fast_at
fast_at-IsSound stream_id sequence payload a b none t v e = cc
fast_at-IsSound stream_id sequence payload a b (some s) t v e =
    insert_fast-IsSound _ a b v (timed-eq-some s t _ b e).0

pub record_fast-IsSound :
    (now : ℕ) (generated_us : Option ℕ) (stream_id : ℕ) (sequence : Option ℤ) (payload : Blob)
    (a b : Archive) (t : ℕ)
    → IsSound a
    → record_fast now generated_us stream_id sequence payload a ≡ some (b, t)
    → IsSound b
unfolding record_fast
record_fast-IsSound now generated_us stream_id sequence payload a b t v e =
    fast_at-IsSound stream_id sequence payload a b _ t v e

with_platform-IsSound :
    (row : PlatformRow) (a b : Archive) (o : Option (List PlatformRow))
    → IsSound a
    → ((rows : List PlatformRow) → o ≡ some rows → rows ≡ upsert platform_key row a.platform_sample)
    → with_platform a o ≡ some b
    → IsSound b
unfolding with_platform
with_platform-IsSound row a b none v new e = cc
with_platform-IsSound row a b (some rows) v new e =
    subst IsSound
      (ap (λ (t : List PlatformRow). record a { platform_sample = t }) (sym (new rows refl))
        ∙ written)
      (platform_sample-IsSound row a v)
  where
    written : record a { platform_sample = rows } ≡ b
    written = ground arith

platform_at-IsSound :
    (payload : Blob) (a b : Archive) (o : Option ℕ) (t : ℕ)
    → IsSound a
    → platform_at payload a o ≡ some (b, t)
    → IsSound b
unfolding platform_at
platform_at-IsSound payload a b none t v e = cc
platform_at-IsSound payload a b (some s) t v e =
    with_platform-IsSound (record { receive_time_us = s; payload = payload }) a b _ v
      (λ rows h. insert-eq-some platform_key _ a.platform_sample h) (timed-eq-some s t _ b e).0

pub record_platform-IsSound :
    (now : ℕ) (generated_us : Option ℕ) (payload : Blob) (a b : Archive) (t : ℕ)
    → IsSound a
    → record_platform now generated_us payload a ≡ some (b, t)
    → IsSound b
unfolding record_platform
record_platform-IsSound now generated_us payload a b t v e = platform_at-IsSound payload a b _ t v e

unless-eq-some :
    (t : Bool) (a b : Archive)
    → ◌≡◌ {A = Option Archive} (if t then none else some a) (some b)
    → a ≡ b
unless-eq-some true a b e = cc
unless-eq-some false a b e = ground arith

pub record_event-IsSound :
    (now : ℕ) (key summary severity : Text) (source_time_us : Option ℕ) (details : Text)
    (time_us : Option ℕ) (a b : Archive)
    → IsSound a
    → record_event now key summary severity source_time_us details time_us a ≡ some b
    → IsSound b
unfolding record_event
record_event-IsSound now key summary severity source_time_us details time_us a b v e =
    subst IsSound (unless-eq-some (ltb 16384 (length details)) _ b e) (insert_event-IsSound _ a v)

pub write_rollup-IsSound :
    (now bucket_us sample_count : ℕ) (payload : Blob) (a : Archive)
    → IsSound a
    → IsSound (write_rollup now bucket_us sample_count payload a)
unfolding write_rollup
write_rollup-IsSound now bucket_us sample_count payload a v = rollup-IsSound _ a v
