-- ===== src/Historian/Rounds/Quiet.antt =====
-- What of `HistorianRecorder._run` of src/python/gizmo_historian.py leaves the count of dropped
-- samples, the last sample's time and the error alone.
use gizmo.Prelude.{ℕ, ◌≡◌, refl, ◌∙◌, Bool, Option, none, some, List, [], ◌∷◌, ◌==◌, arith, if_ind}
use gizmo.Text.{Text}
use gizmo.Common.{ℤ}
use gizmo.Historian.Accumulator.{Accumulator}
use gizmo.Historian.Payload.{Value, Payload, Dict}
use gizmo.Historian.Archive.{Archive}
use gizmo.Historian.Store.{record_event, insert_event, begin_stream, end_stream, write_rollup}
use gizmo.Historian.Recorder.{
  end_old, Python, Paths, Snapshot, Tick, HistorianRecorder, Action, and_then, ◌>>=◌, ◌>>◌, pure,
  change, stored, put_event, is_state, event_for_connection, take_sequence, restart_stream,
  start_stream, return_stream, ensure_stream_of, ensure_stream, Reason,
}
use gizmo.Historian.Capture.{
  due, stored_at, some_rollup, flush_rollup, transition_event, record_transition,
  record_transitions, same_state, write_open, rollup_for, flush_due, update_rollup,
}

-- What a round tells of samples: the count of the dropped, the last one's time, the error and the
-- samples themselves.
pub record IsQuiet {N : Type 0} (r s : HistorianRecorder N) : Type 0 where
  pub drops : s.dropped_samples ≡ r.dropped_samples
  pub sample : s.last_sample_us ≡ r.last_sample_us
  pub error : s.has_error ≡ r.has_error
  pub samples : s.archive.fast_sample ≡ r.archive.fast_sample

samples-record_event :
    (now : ℕ) (key summary severity : Text) (source : Option ℕ) (details : Text) (a b : Archive)
    → record_event now key summary severity source details none a ≡ some b
    → b.fast_sample ≡ a.fast_sample
unfolding record_event insert_event
samples-record_event now key summary severity source details a b e = ground arith

samples-end_old :
    (now : ℕ) (o : Option ℕ) (a : Archive) → (end_old now o a).fast_sample ≡ a.fast_sample
unfolding end_old end_stream
samples-end_old now none a = refl
samples-end_old now (some id) a = refl

-- The action changes none of it, whether it raises or not.
abbrev pub Quiet : {N A : Type 0} → Action N A → Type 0
Quiet {N} action = (r : HistorianRecorder N) → IsQuiet r (action r).0

module _ {N : Type 0} where
  pub trans-IsQuiet : {r s t : HistorianRecorder N} → IsQuiet r s → IsQuiet s t → IsQuiet r t
  trans-IsQuiet a b = record {
    drops = b.drops ∙ a.drops;
    sample = b.sample ∙ a.sample;
    error = b.error ∙ a.error;
    samples = b.samples ∙ a.samples;
  }

  pub refl-IsQuiet : (r : HistorianRecorder N) → IsQuiet r r
  refl-IsQuiet r = record { drops = refl; sample = refl; error = refl; samples = refl }

  pub and_then-IsQuiet :
      {A B : Type 0} (r : HistorianRecorder N) (p : HistorianRecorder N × Option A)
      (rest : A → Action N B)
      → IsQuiet r p.0
      → ((a : A) → Quiet (rest a))
      → IsQuiet r (and_then p rest).0
  unfolding and_then
  and_then-IsQuiet r (s, none) rest q k = q
  and_then-IsQuiet r (s, some a) rest q k = trans-IsQuiet q (k a s)

  pub bind-Quiet :
      {A B : Type 0} (action : Action N A) (rest : A → Action N B)
      → Quiet action
      → ((a : A) → Quiet (rest a))
      → Quiet (action >>= rest)
  unfolding ◌>>=◌
  bind-Quiet action rest q k r = and_then-IsQuiet r (action r) rest (q r) k

  pub then-Quiet :
      {B : Type 0} (action : Action N (Unit {0})) (rest : Action N B)
      → Quiet action
      → Quiet rest
      → Quiet (action >> rest)
  unfolding ◌>>◌
  then-Quiet action rest q k = bind-Quiet action (λ _. rest) q (λ _. k)

  -- A method that keeps the samples, where it does not raise.
  pub stored-IsQuiet :
      (o : Option Archive) (r : HistorianRecorder N)
      → ((a : Archive) → o ≡ some a → a.fast_sample ≡ r.archive.fast_sample)
      → IsQuiet r (stored o r).0
  unfolding stored
  stored-IsQuiet none r h = refl-IsQuiet r
  stored-IsQuiet (some a) r h = record {
    drops = refl;
    sample = refl;
    error = refl;
    samples = h a refl;
  }

  pub stored_at-IsQuiet :
      (o : Option (Archive × ℕ)) (r : HistorianRecorder N)
      → ((a : Archive) (t : ℕ) → o ≡ some (a, t) → a.fast_sample ≡ r.archive.fast_sample)
      → IsQuiet r (stored_at o r).0
  unfolding stored_at
  stored_at-IsQuiet none r h = refl-IsQuiet r
  stored_at-IsQuiet (some (a, t)) r h = record {
    drops = refl;
    sample = refl;
    error = refl;
    samples = h a t refl;
  }

  some_rollup-Quiet : (o : Option (Accumulator N)) → Quiet {N = N} (some_rollup o)
  unfolding some_rollup
  some_rollup-Quiet none r = refl-IsQuiet r
  some_rollup-Quiet (some a) r = refl-IsQuiet r

  pub put_event-Quiet :
      (now : ℕ) (key summary severity : Text) (source : Option ℕ) (details : Text)
      → Quiet {N = N} (put_event now key summary severity source details)
  unfolding put_event
  put_event-Quiet now key summary severity source details r =
      stored-IsQuiet _ r (samples-record_event now key summary severity source details r.archive)

  pub change-Quiet :
      (f : HistorianRecorder N → HistorianRecorder N)
      → ((r : HistorianRecorder N) → IsQuiet r (f r))
      → Quiet (change f)
  unfolding change
  change-Quiet f h r = h r

  return_stream-Quiet :
      (boot_id : Text) (sequence : Option ℤ) → Quiet {N = N} (return_stream boot_id sequence)
  unfolding return_stream
  return_stream-Quiet boot_id sequence r = ground arith

module _ {N : Type 0} (py : Python N) where
  pub take_sequence-Quiet : (o : Option (Option ℤ)) → Quiet (take_sequence py o)
  unfolding take_sequence
  take_sequence-Quiet none r = refl-IsQuiet r
  take_sequence-Quiet (some s) r = refl-IsQuiet r

  start_stream-Quiet :
      (now : ℕ) (boot_id : Text) (sequence : Option ℤ) (o : Option Reason)
      → Quiet (start_stream py now boot_id sequence o)
  unfolding start_stream restart_stream begin_stream
  start_stream-Quiet now boot_id sequence none r = refl-IsQuiet r
  start_stream-Quiet now boot_id sequence (some reason) r =
      trans-IsQuiet
        (record {
          drops = refl;
          sample = refl;
          error = refl;
          samples = samples-end_old now r.stream_id r.archive;
        })
        (put_event-Quiet _ _ _ _ _ _ _)

  pub ensure_stream-Quiet : (now : ℕ) (s : Snapshot N) → Quiet (ensure_stream py now s)
  unfolding ensure_stream ensure_stream_of
  ensure_stream-Quiet now s =
      bind-Quiet (take_sequence py _) _ (take_sequence-Quiet _) λ sequence r.
        then-Quiet _ _ (start_stream-Quiet now _ sequence _) (return_stream-Quiet _ sequence) r

  pub event_for_connection-Quiet : (now : ℕ) (b : Bool) → Quiet (event_for_connection py now b)
  unfolding event_for_connection
  event_for_connection-Quiet now b r =
      if_ind (λ (p : HistorianRecorder N × Option (Unit {0})). IsQuiet r p.0)
        (is_state r.connection_state b) _ _ (refl-IsQuiet r)
        (trans-IsQuiet (record { drops = refl; sample = refl; error = refl; samples = refl })
          (put_event-Quiet _ _ _ _ _ _ _))

  transition_event-Quiet :
      (paths : Paths) (now : ℕ) (path : Text) (source : Option ℕ) (o : Option (Value N × Text))
      (current : Value N × Text)
      → Quiet (transition_event py paths now path source o current)
  unfolding transition_event pure
  transition_event-Quiet paths now path source none current r = refl-IsQuiet r
  transition_event-Quiet paths now path source (some previous) current r =
      if_ind (λ (action : Action N (Unit {0})). IsQuiet r (action r).0)
        (same_state py paths previous current) _ _ (refl-IsQuiet r) (put_event-Quiet _ _ _ _ _ _ r)

  record_transition-Quiet :
      (paths : Paths) (now : ℕ) (values : Dict (Payload N)) (path : Text)
      → Quiet (record_transition py paths now values path)
  unfolding record_transition
  record_transition-Quiet paths now values path r =
      trans-IsQuiet (record { drops = refl; sample = refl; error = refl; samples = refl })
        (transition_event-Quiet paths _ _ _ _ _ _)

  pub record_transitions-Quiet :
      (paths : Paths) (now : ℕ) (values : Dict (Payload N)) (all : List Text)
      → Quiet (record_transitions py paths now values all)
  unfolding record_transitions pure
  record_transitions-Quiet paths now values [] r = refl-IsQuiet r
  record_transitions-Quiet paths now values (path ∷ rest) r =
      then-Quiet _ _ (record_transition-Quiet paths now values path)
        (record_transitions-Quiet paths now values rest) r

  rollup_for-Quiet :
      (paths : Paths) (now bucket : ℕ) (o : Option (ℕ × Accumulator N))
      → Quiet (rollup_for py paths now bucket o)
  unfolding rollup_for write_open flush_rollup write_rollup
  rollup_for-Quiet paths now bucket none r = some_rollup-Quiet _ r
  rollup_for-Quiet paths now bucket (some (other, a)) r =
      if_ind (λ (p : HistorianRecorder N × Option (Accumulator N)). IsQuiet r p.0) (other == bucket)
        _ _ (refl-IsQuiet r)
        (trans-IsQuiet (record { drops = refl; sample = refl; error = refl; samples = refl })
          (some_rollup-Quiet _ _))

  flush_due-Quiet :
      (paths : Paths) (tick : Tick) (bucket : ℕ) (a : Accumulator N)
      → Quiet (flush_due py paths tick bucket a)
  unfolding flush_due flush_rollup write_rollup
  flush_due-Quiet paths tick bucket a r =
      if_ind (λ (p : HistorianRecorder N × Option (Unit {0})). IsQuiet r p.0)
        (due tick.monotonic r.last_rollup_flush 10_000_000) _ _
        (record { drops = refl; sample = refl; error = refl; samples = refl }) (refl-IsQuiet r)

  pub update_rollup-Quiet :
      (paths : Paths) (tick : Tick) (values : Dict (Payload N)) (t : ℕ)
      → Quiet (update_rollup py paths tick values t)
  unfolding update_rollup
  update_rollup-Quiet paths tick values t r =
      bind-Quiet _ _ (rollup_for-Quiet paths tick.now _ r.rollup)
        (λ a.
          bind-Quiet _ _
            (change-Quiet _
              (λ s. record { drops = refl; sample = refl; error = refl; samples = refl }))
            (λ u. bind-Quiet _ _ (some_rollup-Quiet _) (λ b.
              bind-Quiet _ _
                (change-Quiet _
                  (λ s. record { drops = refl; sample = refl; error = refl; samples = refl }))
                (λ v. flush_due-Quiet paths tick _ b))))
        r
