-- ===== src/Historian/Rounds/Counted.antt =====
-- A round of `HistorianRecorder._run` of src/python/gizmo_historian.py as a whole: what becomes of
-- the sample of a snapshot.
use gizmo.Prelude.{
  ℕ, ◌+◌, ◌⊎◌, inl, inr, refl, sym, ap, subst, ◌∙◌, Bool, true, false, Option, none, some,
}
use gizmo.Historian.Store.{Settings}
use gizmo.Historian.Recorder.{
  Python, Paths, Snapshot, Tick, HistorianRecorder, and_then, ◌>>=◌, pure, change,
}
use gizmo.Historian.Rounds.{
  drop_sample, capture_or_drop, capture_connected, try_round, handled, run_round,
}
use gizmo.Historian.Rounds.Quiet.{IsQuiet, trans-IsQuiet, event_for_connection-Quiet}
use gizmo.Historian.Table.{IsOrdered}
use gizmo.Historian.Archive.{fast_key}
use gizmo.Historian.Rounds.Ends.{Ends, IsStored, IsDropped, quiet-IsRow}
use gizmo.Historian.Rounds.After.{capture-Ends}
use gizmo.Historian.Rounds.Guards.{Allows, disk_allows-Allows}

module _ {N : Type 0} (py : Python N) (paths : Paths) (settings : Settings)
    (min_free_bytes platform_interval : ℕ) (tick : Tick) (s : Snapshot N) where
  -- What a round does with a snapshot of a monitor that is connected, or is not.
  abbrev pub IsAccounted : Bool → HistorianRecorder N → HistorianRecorder N → Type 0
  IsAccounted true r q = IsStored py paths settings tick s r q ⊎ IsDropped r q
  IsAccounted false r q = IsQuiet r q ⊎ IsDropped r q

  -- What becomes of the sample, where the server was connected.
  handled-IsAccounted :
      (r : HistorianRecorder N) (p : HistorianRecorder N × Option (Unit {0}))
      → Ends py paths settings tick s r p
      → IsAccounted true r (handled p)
  unfolding handled drop_sample Ends
  handled-IsAccounted r (q, none) e = inr (record { drops = ap (λ n. n + 1) e; cause = inl refl })
  handled-IsAccounted r (q, some u) e = inl e

  quiet-IsAccounted :
      (r t q : HistorianRecorder N) → IsQuiet r t → IsAccounted true t q → IsAccounted true r q
  quiet-IsAccounted r t q h (inl e) = inl (record {
    drops = e.drops ∙ h.drops;
    row = e.row;
    new = quiet-IsRow py paths settings tick s r t e.row h e.new;
    kept = e.kept;
    sample = e.sample;
    error = e.error;
  })
  quiet-IsAccounted r t q h (inr e) =
      inr (record { drops = e.drops ∙ ap (λ n. n + 1) h.drops; cause = e.cause })

  capture_or_drop-IsAccounted :
      (r : HistorianRecorder N) (p : HistorianRecorder N × Option Bool)
      → IsOrdered fast_key r.archive.fast_sample
      → Allows r p
      → IsAccounted true r (
          handled (
            and_then p (capture_or_drop py paths settings min_free_bytes platform_interval tick s)))
  unfolding and_then capture_or_drop handled drop_sample change Allows
  capture_or_drop-IsAccounted r (q, none) o h =
      inr (record { drops = ap (λ n. n + 1) h.drops; cause = inl refl })
  capture_or_drop-IsAccounted r (q, some true) o h = quiet-IsAccounted r q _ h (
      handled-IsAccounted q _ (
        capture-Ends py paths settings min_free_bytes platform_interval tick s q
          (subst (IsOrdered fast_key) (sym h.samples) o)))
  capture_or_drop-IsAccounted r (q, some false) o (h, full) =
      inr (record { drops = ap (λ n. n + 1) h.drops; cause = inr full })

  connected_round-IsAccounted :
      (b : Bool) (r : HistorianRecorder N) (p : HistorianRecorder N × Option (Unit {0}))
      → IsOrdered fast_key r.archive.fast_sample
      → IsQuiet r p.0
      → IsAccounted b r (
          handled (
            and_then p λ u. change (λ q. record q { connected = b }) >>= λ v.
            capture_connected py paths settings min_free_bytes platform_interval tick s b))
  unfolding and_then ◌>>=◌ handled drop_sample change capture_connected pure
  connected_round-IsAccounted true r (q, none) o h =
      inr (record { drops = ap (λ n. n + 1) h.drops; cause = inl refl })
  connected_round-IsAccounted false r (q, none) o h =
      inr (record { drops = ap (λ n. n + 1) h.drops; cause = inl refl })
  connected_round-IsAccounted false r (q, some u) o h =
      inl (trans-IsQuiet h (record { drops = refl; sample = refl; error = refl; samples = refl }))
  connected_round-IsAccounted true r (q, some u) o h =
      quiet-IsAccounted r (record q { connected = true }) _
        (trans-IsQuiet h (record { drops = refl; sample = refl; error = refl; samples = refl }))
        (capture_or_drop-IsAccounted (record q { connected = true }) _
          (subst (IsOrdered fast_key) (sym h.samples) o)
          (disk_allows-Allows py min_free_bytes tick _))

  -- For samples in the order of their times, a round of `_run` on a snapshot of a connected
  -- monitor either counts no drop, stands in no error and has a row for the sample, or counts
  -- exactly one dropped sample and stands in an error or in a full disk. The row has the sequence
  -- and the payload of the snapshot and a time that no row had, the snapshot's or a later one,
  -- which is the last sample's time; it is in the archive at the end, unless retention is enabled
  -- and its time is before the cutoff of raw samples. A round on another snapshot either counts
  -- exactly one and stands in an error or in a full disk, or leaves the count, the last sample's
  -- time, the error and the samples.
  pub run_round-IsAccounted :
      (r : HistorianRecorder N)
      → IsOrdered fast_key r.archive.fast_sample
      → IsAccounted s.connected r
          (run_round py paths settings min_free_bytes platform_interval tick s r)
  unfolding run_round try_round ◌>>=◌
  run_round-IsAccounted r o =
      connected_round-IsAccounted s.connected r _ o
        (event_for_connection-Quiet py tick.now s.connected r)
