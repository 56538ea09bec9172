-- ===== src/Historian/Capture.antt =====
-- `_record_transitions` and `_update_rollup` of src/python/gizmo_historian.py: the events and the
-- minutes that `HistorianRecorder` makes of a snapshot.
use gizmo.Prelude.{
  ℕ, ◌+◌, ◌*◌, ◌/◌, Bool, true, false, ◌&&◌, Option, none, some, List, [], ◌∷◌, map, leb, ◌==◌,
  if◌then◌else◌,
}
use gizmo.Text.{Text, text, text_eq}
use gizmo.Historian.Accumulator as Accumulator
use gizmo.Historian.Accumulator.{Accumulator, status_rank}
use gizmo.Historian.Payload.{
  Value, nothing, flag, number, words, Payload, Blob, Dict, get, set_item,
}
use gizmo.Historian.Store.{write_rollup, load_rollup}
use gizmo.Historian.Archive.{Archive}
use gizmo.Historian.Recorder.{
  Python, Paths, Tick, HistorianRecorder, Action, ◌>>=◌, ◌>>◌, pure, change, put_event, value_of,
  status_of, time_of,
}

-- The minute of a time.
unfoldable pub minute_of : ℕ → ℕ
minute_of t = t / 60_000_000 * 60_000_000

-- `monotonic - last >= period`
unfoldable pub due : ℕ → ℕ → ℕ → Bool
due monotonic last period = leb (last + period) monotonic

module _ {N : Type 0} where
  -- A method that stores a row and returns its time.
  unfoldable pub stored_at : Option (Archive × ℕ) → Action N ℕ
  stored_at none r = (r, none)
  stored_at (some (a, t)) r = (record r { archive = a }, some t)

  unfoldable pub some_rollup : Option (Accumulator N) → Action N (Accumulator N)
  some_rollup none r = (r, none)
  some_rollup (some a) r = (r, some a)

  unfoldable pub flush_rollup :
      ℕ → ℕ → Blob → Accumulator N → HistorianRecorder N → HistorianRecorder N
  flush_rollup now bucket payload a r = record r {
    archive = write_rollup now bucket a.sample_count payload r.archive;
  }

  unfoldable pub is_words : Text → Value N → Bool
  is_words s (words t) = text_eq t s
  is_words s nothing = false
  is_words s (flag b) = false
  is_words s (number n) = false

module _ {N : Type 0} (py : Python N) where
  -- `finite_number`
  unfoldable pub finite_number : Value N → Option N
  finite_number (flag true) = some py.one_value
  finite_number (flag false) = some py.zero_value
  finite_number (number n) = if py.finite n then some n else none
  finite_number nothing = none
  finite_number (words s) = none

module _ {N : Type 0} (py : Python N) (paths : Paths) where
  -- The severity of a transition.
  unfoldable pub transition_severity : Text → Value N × Text → Text
  transition_severity path current =
      if text_eq path (text "Alarm.Active") && py.is_true current.0
      then text "alarm"
      else if leb 2 (status_rank current.1)
      then text "warning"
      else text "info"

  unfoldable pub same_state : Value N × Text → Value N × Text → Bool
  same_state a b = py.same_value a.0 b.0 && text_eq a.1 b.1

  -- The event of one path, where its state was known and has changed.
  unfoldable pub transition_event :
      ℕ → Text → Option ℕ → Option (Value N × Text) → Value N × Text → Action N (Unit {0})
  transition_event now path source none current = pure tt
  transition_event now path source (some previous) current =
      if same_state previous current
      then pure tt
      else put_event now path (py.change_summary path previous.0 current.0)
          (transition_severity path current) source (py.change_details previous current)

  unfoldable pub current_state : Text → Dict (Payload N) → Value N × Text
  current_state path values =
      (value_of (get path values), status_of (text "Unknown") (get path values))

  -- One round of the loop in `_record_transitions`.
  unfoldable pub record_transition : ℕ → Dict (Payload N) → Text → Action N (Unit {0})
  record_transition now values path r =
      transition_event now path (time_of (get path values)) (get path r.event_state)
        (current_state path values)
        (record r { event_state = set_item path (current_state path values) r.event_state })

  -- `_record_transitions`
  unfoldable pub record_transitions : ℕ → Dict (Payload N) → List Text → Action N (Unit {0})
  record_transitions now values [] = pure tt
  record_transitions now values (path ∷ rest) =
      record_transition now values path >> record_transitions now values rest

  unfoldable pub rollup_payload : Option (Payload N) → Accumulator.Payload N
  rollup_payload p = record {
    value = finite_number py (value_of p);
    status = status_of (text "BadWaitingForInitialData") p;
  }

  -- What `MinuteAccumulator.update` reads of a snapshot.
  unfoldable pub rollup_snapshot : Dict (Payload N) → Accumulator.Snapshot N
  rollup_snapshot values =
      let range = get (text "Measurement.ResistanceRange") values in
      record {
        out_of_range = is_words (text "OutOfRange") (value_of range);
        range_status = status_of (text "BadWaitingForInitialData") range;
        payloads = map (λ path. rollup_payload (get path values)) paths.rollup;
      }

  -- `existing or MinuteAccumulator(bucket)`; the outer `none` is a payload that does not decode
  unfoldable pub existing_or_new : Option Blob → Option (Accumulator N)
  existing_or_new none = some Accumulator.empty
  existing_or_new (some payload) = py.decode_rollup payload

  unfoldable pub write_open :
      ℕ → Option (ℕ × Accumulator N) → HistorianRecorder N → HistorianRecorder N
  write_open now none r = r
  write_open now (some (bucket, a)) r = flush_rollup now bucket (py.encode_rollup a) a r

  -- The rollup of the bucket: the open one, or one that is existing_or_new.
  unfoldable pub rollup_for : ℕ → ℕ → Option (ℕ × Accumulator N) → Action N (Accumulator N)
  rollup_for now bucket none r = some_rollup (existing_or_new (load_rollup bucket r.archive)) r
  rollup_for now bucket (some (open_bucket, a)) r =
      if open_bucket == bucket
      then (r, some a)
      else let s = write_open now (some (open_bucket, a)) r in
        some_rollup (existing_or_new (load_rollup bucket s.archive)) s

  unfoldable pub flush_due : Tick → ℕ → Accumulator N → Action N (Unit {0})
  flush_due tick bucket a r =
      if due tick.monotonic r.last_rollup_flush 10_000_000
      then (
        record (flush_rollup tick.now bucket (py.encode_rollup a) a r) {
          last_rollup_flush = tick.monotonic;
        },
        some tt,
      )
      else (r, some tt)

  -- `_update_rollup`. Where `update` raises, which takes a stored rollup with a count and no minimum,
  -- the rollup is taken to be as before it.
  unfoldable pub update_rollup : Tick → Dict (Payload N) → ℕ → Action N (Unit {0})
  update_rollup tick values receive_time_us r =
      let bucket = minute_of receive_time_us in
      (do
        open_rollup ← rollup_for tick.now bucket r.rollup
        _ ← change (λ s. record s { rollup = some (bucket, open_rollup) })
        a ← some_rollup (
            Accumulator.update py.zero_value py.min py.max py.add (rollup_snapshot values)
              open_rollup)
        _ ← change (λ s. record s { rollup = some (bucket, a) })
        flush_due tick bucket a)
        r
