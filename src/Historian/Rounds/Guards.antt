-- ===== src/Historian/Rounds/Guards.antt =====
-- The guard of the disk in `HistorianRecorder._run` of src/python/gizmo_historian.py.
use gizmo.Prelude.{ℕ, ◌≡◌, refl, Bool, true, false, not, Option, none, some, if_ind}
use gizmo.Historian.Recorder.{
  Python, Tick, HistorianRecorder, and_then, ◌>>=◌, ◌>>◌, pure, stored, put_event,
}
use gizmo.Historian.Capture.{due}
use gizmo.Historian.Rounds.{bool_eq, disk_event, note_disk, disk_of, check_disk, disk_allows}
use gizmo.Historian.Archive.{Archive}
use gizmo.Historian.Rounds.Quiet.{put_event-Quiet, IsQuiet, trans-IsQuiet, refl-IsQuiet}

-- What the guard lets through, and what it leaves.
unfoldable pub Allows :
    {N : Type 0} → HistorianRecorder N → HistorianRecorder N × Option Bool → Type 0
Allows r (q, none) = IsQuiet r q
Allows r (q, some true) = IsQuiet r q
Allows r (q, some false) = IsQuiet r q × (q.write_limited ≡ true)

module _ {N : Type 0} where
  kept-Allows :
      (r s : HistorianRecorder N) (limited : Bool)
      → IsQuiet r s
      → s.write_limited ≡ limited
      → Allows r (s, some (not limited))
  unfolding Allows
  kept-Allows r s true q e = (q, e)
  kept-Allows r s false q e = q

  stored-Allows :
      (limited : Bool) (r s : HistorianRecorder N) (o : Option Archive)
      → IsQuiet s (stored o s).0
      → IsQuiet r s
      → s.write_limited ≡ limited
      → Allows r (and_then (stored o s) (λ _. pure (not limited)))
  unfolding stored pure and_then Allows
  stored-Allows limited r s none k q e = q
  stored-Allows true r s (some a) k q e = (trans-IsQuiet q k, e)
  stored-Allows false r s (some a) k q e = trans-IsQuiet q k

  trans-Allows :
      (r s : HistorianRecorder N) (p : HistorianRecorder N × Option Bool)
      → IsQuiet r s
      → Allows s p
      → Allows r p
  unfolding Allows
  trans-Allows r s (q, none) h k = trans-IsQuiet h k
  trans-Allows r s (q, some true) h k = trans-IsQuiet h k
  trans-Allows r s (q, some false) h (k, full) = (trans-IsQuiet h k, full)

module _ {N : Type 0} (py : Python N) (min_free_bytes : ℕ) where
  disk_event-Allows :
      (now free total : ℕ) (limited : Bool) (r s : HistorianRecorder N)
      → IsQuiet r s
      → s.write_limited ≡ limited
      → Allows r ((disk_event py min_free_bytes now free total limited >> pure (not limited)) s)
  unfolding disk_event put_event ◌>>◌ ◌>>=◌
  disk_event-Allows now free total limited r s q e =
      stored-Allows limited r s _ (put_event-Quiet now _ _ _ none _ s) q e

  note_disk-Allows :
      (now free total : ℕ) (limited : Bool) (r : HistorianRecorder N)
      → Allows r (note_disk py min_free_bytes now free total limited r)
  unfolding note_disk
  note_disk-Allows now free total limited r =
      if_ind (Allows r) (bool_eq limited r.write_limited) _ _
        (kept-Allows r _ limited
          (record { drops = refl; sample = refl; error = refl; samples = refl }) refl)
        (disk_event-Allows now free total limited r _
          (record { drops = refl; sample = refl; error = refl; samples = refl }) refl)

  disk_of-Allows :
      (now : ℕ) (o : Option (ℕ × ℕ)) (r : HistorianRecorder N)
      → Allows r (disk_of py min_free_bytes now o r)
  unfolding disk_of Allows
  disk_of-Allows now none r = refl-IsQuiet r
  disk_of-Allows now (some (free, total)) r = note_disk-Allows now free total _ r

  pub disk_allows-Allows :
      (tick : Tick) (r : HistorianRecorder N) → Allows r (disk_allows py min_free_bytes tick r)
  unfolding disk_allows check_disk
  disk_allows-Allows tick r =
      if_ind (Allows r) (due tick.monotonic r.last_disk_check 60_000_000) _ _
        (trans-Allows r (record r { last_disk_check = tick.monotonic }) _
          (record { drops = refl; sample = refl; error = refl; samples = refl })
          (disk_of-Allows tick.now tick.disk _))
        (kept-Allows r r r.write_limited (refl-IsQuiet r) refl)
