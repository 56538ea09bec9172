-- ===== src/Historian/Rounds/Ends.antt =====
-- The part of a round of `HistorianRecorder._run` of src/python/gizmo_historian.py behind its guards:
-- it stores the sample or raises.
use gizmo.Prelude.{
  ℕ, ◌+◌, ◌<◌, ◌≤◌, ◌≡◌, ◌⊎◌, inl, refl, sym, subst, ◌∙◌, true, false, Option, none, some,
}
use gizmo.Text.{text}
use gizmo.Common.{ℤ}
use gizmo.Historian.Payload.{get, encode_payload}
use gizmo.Historian.Table.{find, IsOrdered}
use gizmo.Historian.Store.{Settings, time_or, cutoff_us, record_fast}
use gizmo.Historian.Store.Recorded.{record_fast-found}
use gizmo.Historian.Archive.{Archive, FastRow, fast_key}
use gizmo.Historian.Recorder.{
  Python, Paths, Snapshot, Tick, HistorianRecorder, Action, ensure_stream, and_then, ◌>>=◌, change,
  value_of, sequence_of, take_sequence,
}
use gizmo.Historian.Capture.{stored_at}
use gizmo.Historian.Rounds.{store_fast, capture_sample}
use gizmo.Historian.Rounds.Quiet.{
  IsQuiet, Quiet, ensure_stream-Quiet, record_transitions-Quiet, update_rollup-Quiet,
}

-- The sample of a snapshot has a row of its own: the time is that of the snapshot or a later one,
-- and no row had it.
pub record IsRow {N : Type 0} (py : Python N) (paths : Paths) (tick : Tick) (s : Snapshot N)
    (r : HistorianRecorder N) (row : FastRow) : Type 0 where
  pub not_before : time_or tick.now s.generated_us ≤ row.receive_time_us
  pub fresh : find fast_key row.receive_time_us r.archive.fast_sample ≡ none
  pub sequence :
      sequence_of py (value_of (get (text "Measurement.Sequence") s.values)) ≡ some row.sequence
  pub payload : row.payload ≡ encode_payload py.finite py.pack paths.fast_capture s.values

-- The row is in the archive, but where the retention that may follow has found it too old.
abbrev pub IsKept : Settings → Tick → FastRow → Archive → Type 0
IsKept settings tick row a =
    (find fast_key row.receive_time_us a.fast_sample ≡ some row)
    ⊎ ((settings.retention_enabled ≡ true)
        × (row.receive_time_us < cutoff_us tick.now settings.raw_retention_days))

-- The sample is stored: nothing is dropped, its time is the last and no error stands.
pub record IsStored {N : Type 0} (py : Python N) (paths : Paths) (settings : Settings) (tick : Tick)
    (s : Snapshot N) (r q : HistorianRecorder N) : Type 0 where
  pub drops : q.dropped_samples ≡ r.dropped_samples
  pub row : FastRow
  pub new : IsRow py paths tick s r row
  pub kept : IsKept settings tick row q.archive
  pub sample : q.last_sample_us ≡ some row.receive_time_us
  pub error : q.has_error ≡ false

-- The sample is counted as dropped, for an error or for the disk.
pub record IsDropped {N : Type 0} (r q : HistorianRecorder N) : Type 0 where
  pub drops : q.dropped_samples ≡ r.dropped_samples + 1
  pub cause : (q.has_error ≡ true) ⊎ (q.write_limited ≡ true)

module _ {N : Type 0} (py : Python N) (paths : Paths) (settings : Settings) (tick : Tick)
    (s : Snapshot N) where
  -- The end of a part of a round that has a sample to store.
  unfoldable pub Ends : HistorianRecorder N → HistorianRecorder N × Option (Unit {0}) → Type 0
  Ends r (q, none) = q.dropped_samples ≡ r.dropped_samples
  Ends r (q, some u) = IsStored py paths settings tick s r q

  pub quiet-IsRow :
      (r q : HistorianRecorder N) (row : FastRow)
      → IsQuiet r q
      → IsRow py paths tick s q row
      → IsRow py paths tick s r row
  quiet-IsRow r q row h n = record {
    not_before = n.not_before;
    fresh = subst (λ rows. find fast_key row.receive_time_us rows ≡ none) h.samples n.fresh;
    sequence = n.sequence;
    payload = n.payload;
  }

  pub trans-Ends :
      (r q : HistorianRecorder N) (p : HistorianRecorder N × Option (Unit {0}))
      → IsQuiet r q
      → Ends q p
      → Ends r p
  unfolding Ends
  trans-Ends r q (t, none) h e = e ∙ h.drops
  trans-Ends r q (t, some u) h e = record {
    drops = e.drops ∙ h.drops;
    row = e.row;
    new = quiet-IsRow r q e.row h e.new;
    kept = e.kept;
    sample = e.sample;
    error = e.error;
  }

  quiet_first :
      {A : Type 0} (rest : A → Action N (Unit {0})) (r : HistorianRecorder N)
      (p : HistorianRecorder N × Option A)
      → IsQuiet r p.0
      → ((a : A) (q : HistorianRecorder N) → IsQuiet r q → Ends q (rest a q))
      → Ends r (and_then p rest)
  unfolding and_then Ends
  quiet_first rest r (q, none) h k = h.drops
  quiet_first rest r (q, some a) h k = trans-Ends r q _ h (k a q h)

  first_then :
      {A : Type 0} (action : Action N A) (rest : A → Action N (Unit {0})) (r : HistorianRecorder N)
      → Quiet action
      → ((a : A) (q : HistorianRecorder N) → IsQuiet r q → Ends q (rest a q))
      → Ends r ((action >>= rest) r)
  unfolding ◌>>=◌
  first_then action rest r h k = quiet_first rest r (action r) (h r) k

  -- A row that is in the archive, before the round tells of it.
  record IsHeld (r q : HistorianRecorder N) (row : FastRow) : Type 0 where
    drops : q.dropped_samples ≡ r.dropped_samples
    new : IsRow py paths tick s r row
    found : find fast_key row.receive_time_us q.archive.fast_sample ≡ some row

  held_after :
      {A : Type 0} (rest : A → Action N (Unit {0})) (r q : HistorianRecorder N) (row : FastRow)
      (p : HistorianRecorder N × Option A)
      → IsHeld r q row
      → IsQuiet q p.0
      → ((a : A) (t : HistorianRecorder N) → IsHeld r t row → Ends r (rest a t))
      → Ends r (and_then p rest)
  unfolding and_then Ends
  held_after rest r q row (t, none) h k e = k.drops ∙ h.drops
  held_after rest r q row (t, some a) h k e = e a t (record {
    drops = k.drops ∙ h.drops;
    new = h.new;
    found =
        subst (λ rows. find fast_key row.receive_time_us rows ≡ some row) (sym k.samples) h.found;
  })

  held_then :
      {A : Type 0} (action : Action N A) (rest : A → Action N (Unit {0})) (row : FastRow)
      → Quiet action
      → ((a : A) (r t : HistorianRecorder N) → IsHeld r t row → Ends r (rest a t))
      → (r q : HistorianRecorder N) → IsHeld r q row
      → Ends r ((action >>= rest) q)
  unfolding ◌>>=◌
  held_then action rest row k e r q h = held_after rest r q row (action q) h (k q) (λ a. e a r)

  noted-Ends :
      (row : FastRow) (r q : HistorianRecorder N)
      → IsHeld r q row
      → Ends r (
          change
            (λ (r : HistorianRecorder N). record r {
              last_sample_us = some row.receive_time_us;
              has_error = false;
            })
            q)
  unfolding change Ends
  noted-Ends row r q h = record {
    drops = h.drops;
    row = row;
    new = h.new;
    kept = inl h.found;
    sample = refl;
    error = refl;
  }

  -- The row that `record_fast` has written.
  stored_then :
      (id : ℕ) (sequence : Option ℤ) (rest : ℕ → Action N (Unit {0})) (q : HistorianRecorder N)
      (o : Option (Archive × ℕ))
      → IsOrdered fast_key q.archive.fast_sample
      → sequence_of py (value_of (get (text "Measurement.Sequence") s.values)) ≡ some sequence
      → record_fast tick.now s.generated_us id sequence
          (encode_payload py.finite py.pack paths.fast_capture s.values)
          q.archive
        ≡ o
      → ((row : FastRow) (t : HistorianRecorder N)
          → IsHeld q t row
          → Ends q (rest row.receive_time_us t))
      → Ends q (and_then (stored_at o q) rest)
  unfolding stored_at and_then Ends
  stored_then id sequence rest q none o n e k = refl
  stored_then id sequence rest q (some (a, t)) o n e k =
      let (first, found) =
        record_fast-found tick.now s.generated_us id sequence _ q.archive a t o e in
      k _ _ (record {
        drops = refl;
        new = record {
          not_before = first.not_before;
          fresh = first.free;
          sequence = n;
          payload = refl;
        };
        found = found;
      })

  sequence_then :
      (id : ℕ) (rest : ℕ → Action N (Unit {0})) (q : HistorianRecorder N) (o : Option (Option ℤ))
      → IsOrdered fast_key q.archive.fast_sample
      → sequence_of py (value_of (get (text "Measurement.Sequence") s.values)) ≡ o
      → ((row : FastRow) (t : HistorianRecorder N)
          → IsHeld q t row
          → Ends q (rest row.receive_time_us t))
      → Ends q (
          and_then
            (and_then (take_sequence py o q) (λ sequence r.
              stored_at
                (record_fast tick.now s.generated_us id sequence
                  (encode_payload py.finite py.pack paths.fast_capture s.values)
                  q.archive)
                r))
            rest)
  unfolding take_sequence and_then Ends
  sequence_then id rest q none o n k = refl
  sequence_then id rest q (some sequence) o n k = stored_then id sequence rest q _ o n refl k

  store_fast_then :
      (id : ℕ) (rest : ℕ → Action N (Unit {0})) (q : HistorianRecorder N)
      → IsOrdered fast_key q.archive.fast_sample
      → ((row : FastRow) (t : HistorianRecorder N)
          → IsHeld q t row
          → Ends q (rest row.receive_time_us t))
      → Ends q ((store_fast py paths tick s id >>= rest) q)
  unfolding store_fast ◌>>=◌
  store_fast_then id rest q o k = sequence_then id rest q _ o refl k

  pub capture_sample-Ends :
      (r : HistorianRecorder N)
      → IsOrdered fast_key r.archive.fast_sample
      → Ends r (capture_sample py paths tick s r)
  unfolding capture_sample
  capture_sample-Ends r o =
      first_then (ensure_stream py tick.now s) _ r (ensure_stream-Quiet py tick.now s) λ id q h.
        store_fast_then id _ q (subst (IsOrdered fast_key) (sym h.samples) o) λ row t held.
          held_then _ _ row (update_rollup-Quiet py paths tick s.values row.receive_time_us)
            (λ u.
              held_then _ _ row (record_transitions-Quiet py paths tick.now s.values paths.event)
                (λ v. noted-Ends row))
            q t held
