-- ===== src/Historian/Rounds/Kept.antt =====
-- A round of `HistorianRecorder._run` of src/python/gizmo_historian.py that reaches its sample.
use gizmo.Prelude.{ℕ}
use gizmo.Historian.Store.{Settings}
use gizmo.Historian.Archive.{Archive, FastRow}
use gizmo.Historian.Recorder.{Python, Paths, Snapshot, Tick, HistorianRecorder, Action}
use gizmo.Historian.Rounds.Ends.{IsKept}

module _ {N : Type 0} (py : Python N) (paths : Paths) (settings : Settings)
    (min_free_bytes platform_interval : ℕ) (tick : Tick) (s : Snapshot N) (row : FastRow) where
  -- An action that keeps the row, whether it raises or not.
  abbrev Keeps : {A : Type 0} → Action N A → Type 0
  Keeps action =
      (q : HistorianRecorder N)
      → IsKept settings tick row q.archive
      → IsKept settings tick row (action q).0.archive
