-- ===== src/Historian/Recorder.antt =====
-- `HistorianRecorder` of src/python/gizmo_historian.py: the thread of a board that archives what its
-- OPC UA server publishes. A method is an action on the recorder and its archive that may raise, and
-- keeps what it has done so far. Times of the monotonic clock are microseconds.
pub mod Epochs
use gizmo.Prelude.{
  ℕ, zero, suc, ◌+◌, ◌-◌, ◌*◌, ◌/◌, Bool, true, false, not, ◌&&◌, ◌||◌, Option, none, some, List,
  [], ◌∷◌, ◌++◌, map, ltb, leb, ◌==◌, if◌then◌else◌, length, is_some,
}
use gizmo.Text.{Text, text, text_eq}
use gizmo.Common.{ℤ, pos, negsuc}
use gizmo.Historian.Accumulator as Accumulator
use gizmo.Historian.Accumulator.{Accumulator, status_rank}
use gizmo.Historian.Payload.{
  Value, nothing, flag, number, words, Payload, Blob, Dict, get, set_item, status_or,
  encode_payload, Entry,
}
use gizmo.Historian.Store.{
  Settings, begin_stream, end_stream, record_fast, record_platform, record_event, write_rollup,
  load_rollup, apply_retention,
}
use gizmo.Historian.Archive.{Archive}

-- Python's numbers, and the texts that the recorder builds of what it saw.
pub record Python (N : Type 0) : Type 0 where
  pub finite : N → Bool
  pub to_int : N → Option ℤ
  pub zero_value : N
  pub one_value : N
  pub min : N → N → N
  pub max : N → N → N
  pub add : N → N → N
  pub same_value : Value N → Value N → Bool
  pub is_true : Value N → Bool
  -- `str(value)`, of a value that is true
  pub str : Value N → Text
  pub pack : List (Entry N) → Blob
  pub encode_rollup : Accumulator N → Blob
  pub decode_rollup : Blob → Option (Accumulator N)
  pub connection_details : Bool → Text
  pub stream_details : ℕ → Text → Option ℤ → Text
  pub change_summary : Text → Value N → Value N → Text
  pub change_details : Value N × Text → Value N × Text → Text
  pub disk_details : ℕ → ℕ → Text
  pub retention_details : Archive → Archive → Text
  -- `int(total_bytes * 0.15)`
  pub share : ℕ → ℕ

-- What the source builds of the catalogue of variables.
pub record Paths : Type 0 where
  pub fast_capture : List Text
  pub platform_capture : List Text
  pub rollup : List Text
  pub event : List Text

-- A snapshot of the monitor; its time is that of `parse_time_us`.
pub record Snapshot (N : Type 0) : Type 0 where
  pub connected : Bool
  pub generated_us : Option ℕ
  pub values : Dict (Payload N)

-- The clocks and the disk in one round; `none` is an OSError of statvfs.
pub record Tick : Type 0 where
  pub now : ℕ
  pub monotonic : ℕ
  pub disk : Option (ℕ × ℕ)

-- The fields, with the archive of the store. An error is kept as whether there is one.
pub record HistorianRecorder (N : Type 0) : Type 0 where
  pub archive : Archive
  pub connected : Bool
  pub has_error : Bool
  pub last_sample_us : Option ℕ
  pub last_platform_us : Option ℕ
  pub dropped_samples : ℕ
  pub stream_id : Option ℕ
  pub boot_id : Text
  pub last_sequence : Option ℤ
  pub last_platform : ℕ
  pub last_retention : ℕ
  pub last_checkpoint : ℕ
  pub last_rollup_flush : ℕ
  pub last_disk_check : ℕ
  pub disk_free_bytes : ℕ
  pub write_limited : Bool
  pub rollup : Option (ℕ × Accumulator N)
  pub event_state : Dict (Value N × Text)
  pub connection_state : Option Bool

-- `none` is an exception.
abbrev pub Action : Type 0 → Type 0 → Type 0
Action N A = HistorianRecorder N → HistorianRecorder N × Option A

module _ {N : Type 0} where
  infixl 5 ◌>>=◌ ◌>>◌
  unfoldable pub and_then :
      {A B : Type 0}
      → HistorianRecorder N × Option A
      → (A → Action N B)
      → HistorianRecorder N × Option B
  and_then (r, none) rest = (r, none)
  and_then (r, some a) rest = rest a r

  unfoldable pub ◌>>=◌ : {A B : Type 0} → Action N A → (A → Action N B) → Action N B
  unfolding and_then
  ◌>>=◌ action rest r = and_then (action r) rest

  unfoldable pub ◌>>◌ : {B : Type 0} → Action N (Unit {0}) → Action N B → Action N B
  unfolding ◌>>=◌
  action >> rest = action >>= λ _. rest

  unfoldable pub pure : {A : Type 0} → A → Action N A
  pure a r = (r, some a)

  unfoldable pub raise : {A : Type 0} → Action N A
  raise r = (r, none)

  unfoldable pub change : (HistorianRecorder N → HistorianRecorder N) → Action N (Unit {0})
  change f r = (f r, some tt)

  -- A method of the store that changes the archive, or raises and leaves it.
  unfoldable pub stored : Option Archive → Action N (Unit {0})
  stored none r = (r, none)
  stored (some a) r = (record r { archive = a }, some tt)

  unfoldable pub put_event : ℕ → Text → Text → Text → Option ℕ → Text → Action N (Unit {0})
  put_event now key summary severity source_time_us details r =
      stored (record_event now key summary severity source_time_us details none r.archive) r

  -- `values.get(path, {}).get("value")`
  unfoldable pub value_of : Option (Payload N) → Value N
  value_of none = nothing
  value_of (some p) = p.value

  unfoldable pub status_of : Text → Option (Payload N) → Text
  status_of default none = default
  status_of default (some p) = status_or default p.status

  unfoldable pub time_of : Option (Payload N) → Option ℕ
  time_of none = none
  time_of (some p) = p.source_time_us

-- `self._connection_state is connected`
unfoldable pub is_state : Option Bool → Bool → Bool
is_state none b = false
is_state (some true) b = b
is_state (some false) b = not b

-- Why `_ensure_stream` starts a stream.
pub data Reason : Type 0 where
  historian_start board_boot sequence_reset : Reason

unfoldable pub reason_text : Reason → Text
reason_text historian_start = text "historian-start"
reason_text board_boot = text "board-boot"
reason_text sequence_reset = text "measurement-sequence-reset"

-- `sequence < self._last_sequence`
unfoldable pub int_lt : ℤ → ℤ → Bool
int_lt (pos a) (pos b) = ltb a b
int_lt (pos a) (negsuc b) = false
int_lt (negsuc a) (pos b) = true
int_lt (negsuc a) (negsuc b) = ltb b a

-- The test of the two sequences, each of which may be None.
unfoldable pub goes_back : Option ℤ → Option ℤ → Bool
goes_back none last = false
goes_back (some s) none = false
goes_back (some s) (some last) = int_lt s last

unfoldable pub stream_reason : Option ℕ → Text → Text → Option ℤ → Option ℤ → Option Reason
stream_reason none boot_id last_boot sequence last_sequence = some historian_start
stream_reason (some id) boot_id last_boot sequence last_sequence =
    if not (text_eq boot_id last_boot)
    then some board_boot
    else if goes_back sequence last_sequence
    then some sequence_reset
    else none

-- The end of the old stream, where there is one.
unfoldable pub end_old : ℕ → Option ℕ → Archive → Archive
end_old now none a = a
end_old now (some id) a = end_stream now id a

module _ {N : Type 0} where
  -- `end_stream` and `begin_stream`
  unfoldable pub restart_stream :
      ℕ → Text → Option ℤ → Reason → HistorianRecorder N → HistorianRecorder N
  restart_stream now boot_id sequence reason r =
      let begun =
        begin_stream now boot_id sequence (reason_text reason)
          (end_old now r.stream_id r.archive) in
      record r { archive = begun.0; stream_id = some begun.1 }

  -- `return self._stream_id`; `none` is the AssertionError
  unfoldable pub return_stream : Text → Option ℤ → Action N ℕ
  return_stream boot_id sequence r =
      (record r { boot_id = boot_id; last_sequence = sequence }, r.stream_id)

module _ {N : Type 0} (py : Python N) where
  -- `int(value) if isinstance(value, (int, float)) else None`; the outer `none` is an exception
  unfoldable pub sequence_of : Value N → Option (Option ℤ)
  sequence_of (number n) = elim (py.to_int n) [ none ↦ none | some s ↦ some (some s) ]
  sequence_of (flag true) = some (some (pos 1))
  sequence_of (flag false) = some (some (pos 0))
  sequence_of nothing = some none
  sequence_of (words s) = some none

  unfoldable pub take_sequence : Option (Option ℤ) → Action N (Option ℤ)
  take_sequence none r = (r, none)
  take_sequence (some s) r = (r, some s)

  -- `_event_for_connection`
  unfoldable pub event_for_connection : ℕ → Bool → Action N (Unit {0})
  event_for_connection now connected r =
      if is_state r.connection_state connected
      then (r, some tt)
      else put_event now (text "opcua.connection")
          (if connected then text "OPC UA connection restored" else text "OPC UA connection lost")
          (if connected then text "info" else text "warning") none (py.connection_details connected)
          (record r { connection_state = some connected })

  -- The body of `if reason`.
  unfoldable pub start_stream : ℕ → Text → Option ℤ → Option Reason → Action N (Unit {0})
  start_stream now boot_id sequence none r = (r, some tt)
  start_stream now boot_id sequence (some reason) r =
      put_event now (text "history.stream")
        (text "Historian sequence epoch started: " ++ reason_text reason) (text "info") none
        (py.stream_details r.archive.next_stream_id boot_id sequence)
        (restart_stream now boot_id sequence reason r)

  unfoldable pub ensure_stream_of : ℕ → Text → Option ℤ → Action N ℕ
  ensure_stream_of now boot_id sequence r =
      (start_stream now boot_id sequence
            (stream_reason r.stream_id boot_id r.boot_id sequence r.last_sequence)
          >> return_stream boot_id sequence)
        r

  -- `str(… or "unknown")`
  unfoldable pub boot_id_of : Value N → Text
  boot_id_of v = if py.is_true v then py.str v else text "unknown"

  -- `_ensure_stream`
  unfoldable pub ensure_stream : ℕ → Snapshot N → Action N ℕ
  ensure_stream now s = do
    sequence ← take_sequence (sequence_of (value_of (get (text "Measurement.Sequence") s.values)))
    ensure_stream_of now (boot_id_of (value_of (get (text "Identity.BootId") s.values))) sequence
