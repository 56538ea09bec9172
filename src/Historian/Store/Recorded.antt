-- ===== src/Historian/Store/Recorded.antt =====
-- `record_fast` of src/python/gizmo_historian.py: the row that a sample becomes.
use gizmo.Prelude.{
  ℕ, refl, ◌≡◌, ◌≢◌, ◌∙◌, sym, ap, subst, arith, false, none, Bool-cases, inl, inr, true, Option,
  some, if◌then◌else◌, ◌==◌, map,
}
use gizmo.Common.{ℤ}
use gizmo.Historian.Payload.{Blob}
use gizmo.Historian.Table.{find, upsert, IsOrdered}
use gizmo.Historian.Table.Laws.{find-upsert, insert_fresh}
use gizmo.Historian.Store.{
  time_or, with_fast, insert_fast, timed, fast_at, record_fast, continue_row,
}
use gizmo.Historian.Archive.{Archive, FastRow, fast_key}
use gizmo.Historian.Store.FreeTime.{IsFirstFree, free_time_ends}
use gizmo.Historian.Store.Streams.{known}

-- For a stream that is there and samples in the order of their times, `record_fast` ends and
-- stores the sample under the first time from that of its snapshot on that no sample has; every
-- sample that was there is still found under its time.
pub record_fast-IsFirstFree :
    (now : ℕ) (generated_us : Option ℕ) (stream_id : ℕ) (sequence : Option ℤ) (payload : Blob)
    (a : Archive)
    → IsOrdered fast_key a.fast_sample
    → known stream_id a.stream ≡ true
    → (t : ℕ) × (b : Archive) × (record_fast now generated_us stream_id sequence payload a
        ≡ some (b, t))
      × IsFirstFree fast_key a.fast_sample (time_or now generated_us) t
      × ((k : ℕ)
          → find fast_key k b.fast_sample ≡ (
              if t == k
              then some (record {
                receive_time_us = t;
                stream_id = stream_id;
                sequence = sequence;
                payload = payload;
              })
              else find fast_key k a.fast_sample))
unfolding record_fast fast_at insert_fast timed with_fast known
record_fast-IsFirstFree now generated_us stream_id sequence payload a o k =
    let (t, found, first) = free_time_ends fast_key a.fast_sample (time_or now generated_us) in
    let row : FastRow = record {
      receive_time_us = t;
      stream_id = stream_id;
      sequence = sequence;
      payload = payload;
    } in
    (
      t,
      record a {
        fast_sample = upsert fast_key row a.fast_sample;
        stream = map (continue_row sequence stream_id) a.stream;
      },
      rw (found, k, insert_fresh fast_key row a.fast_sample first.free),
      first,
      λ j. find-upsert fast_key j row a.fast_sample o,
    )

some-eq : {a b : Archive × ℕ} → some a ≡ some b → a ≡ b
some-eq {a} e = ap (λ o. elim o [ none ↦ a | some p ↦ p ]) e

fast_at-unknown :
    (stream_id : ℕ) (sequence : Option ℤ) (payload : Blob) (a : Archive) (o : Option ℕ)
    → known stream_id a.stream ≡ false
    → fast_at stream_id sequence payload a o ≡ none
unfolding fast_at insert_fast timed known
fast_at-unknown stream_id sequence payload a none f = refl
fast_at-unknown stream_id sequence payload a (some t) f = rw f refl

record_fast-unknown :
    (now : ℕ) (generated_us : Option ℕ) (stream_id : ℕ) (sequence : Option ℤ) (payload : Blob)
    (a : Archive)
    → known stream_id a.stream ≡ false
    → record_fast now generated_us stream_id sequence payload a ≡ none
unfolding record_fast
record_fast-unknown now generated_us stream_id sequence payload a f =
    fast_at-unknown stream_id sequence payload a _ f

none-ne-some : (p : Archive × ℕ) → none ≢ some p
none-ne-some p e = cc

-- A row under its own key.
pub itself : {A : Type 0} (t : ℕ) (x y : A) → (if t == t then x else y) ≡ x
itself t x y = ground arith

-- Where `record_fast` returns, its stream is there, and so it has done that.
pub record_fast-found :
    (now : ℕ) (generated_us : Option ℕ) (stream_id : ℕ) (sequence : Option ℤ) (payload : Blob)
    (a b : Archive) (t : ℕ)
    → IsOrdered fast_key a.fast_sample
    → record_fast now generated_us stream_id sequence payload a ≡ some (b, t)
    → IsFirstFree fast_key a.fast_sample (time_or now generated_us) t
      × (find fast_key t b.fast_sample
          ≡ some (record {
            receive_time_us = t;
            stream_id = stream_id;
            sequence = sequence;
            payload = payload;
          }))
record_fast-found now generated_us stream_id sequence payload a b t o e =
    elim (Bool-cases (known stream_id a.stream)) [
      | inl k ↦
          let (t', b', made, first, finds) =
            record_fast-IsFirstFree now generated_us stream_id sequence payload a o k in
          let same_t : t' ≡ t = ap (λ p. p.1) (some-eq (sym made ∙ e)) in
          let same_b : b' ≡ b = ap (λ p. p.0) (some-eq (sym made ∙ e)) in
          (
            subst (IsFirstFree fast_key a.fast_sample (time_or now generated_us)) same_t first,
            subst (λ (c : Archive). find fast_key t c.fast_sample ≡ some (row t)) same_b
                (subst
                    (λ u.
                      find fast_key t b'.fast_sample
                      ≡ (if u == t then some (row u) else find fast_key t a.fast_sample))
                    same_t (finds t)
                  ∙ itself t (some (row t)) _),
          )
      | inr f ↦ absurd (
          none-ne-some _
            (sym (record_fast-unknown now generated_us stream_id sequence payload a f) ∙ e))
    ]
  where
    row : ℕ → FastRow
    row u = record {
      receive_time_us = u;
      stream_id = stream_id;
      sequence = sequence;
      payload = payload;
    }
