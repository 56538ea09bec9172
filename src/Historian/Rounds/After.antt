-- ===== src/Historian/Rounds/After.antt =====
-- What follows the sample in a round of `HistorianRecorder._run` of src/python/gizmo_historian.py, and
-- the round behind its guards as a whole.
use gizmo.Prelude.{
  List, ℕ, ◌≡◌, inl, inr, refl, sym, subst, ◌∙◌, ltb, Option, none, some, if_ind, arith, Bool-cases,
}
use gizmo.Historian.Table.{find, IsOrdered}
use gizmo.Historian.Table.Laws.{find-delete_below}
use gizmo.Historian.Store.{
  Settings, time_or, cutoff_us, apply_retention, delete_expired, record_platform, platform_at,
  with_platform, timed,
}
use gizmo.Historian.Archive.{Archive, FastRow, fast_key}
use gizmo.Historian.Recorder.{
  Python, Paths, Snapshot, Tick, HistorianRecorder, Action, and_then, ◌>>=◌, change,
}
use gizmo.Historian.Capture.{due}
use gizmo.Historian.Rounds.{
  capture_platform, checkpoint_due, shorter, retention_event, retention_due, capture,
}
use gizmo.Historian.Rounds.Quiet.{
  IsQuiet, Quiet, refl-IsQuiet, bind-Quiet, stored_at-IsQuiet, put_event-Quiet, change-Quiet,
}
use gizmo.Historian.Archive.{PlatformRow}
use gizmo.Historian.Payload.{Blob}
use gizmo.Historian.Rounds.Quiet.{and_then-IsQuiet}
use gizmo.Historian.Rounds.Ends.{Ends, IsStored, IsKept, capture_sample-Ends}

samples-with_platform :
    (a b : Archive) (t u : ℕ) (o : Option (List PlatformRow))
    → timed u (with_platform a o) ≡ some (b, t)
    → b.fast_sample ≡ a.fast_sample
unfolding timed with_platform
samples-with_platform a b t u none e = absurd (ground arith)
samples-with_platform a b t u (some rows) e = ground arith

samples-platform_at :
    (payload : Blob) (a b : Archive) (t : ℕ) (o : Option ℕ)
    → platform_at payload a o ≡ some (b, t)
    → b.fast_sample ≡ a.fast_sample
unfolding platform_at
samples-platform_at payload a b t none e = absurd (ground arith)
samples-platform_at payload a b t (some u) e = samples-with_platform a b t u _ e

samples-record_platform :
    (now : ℕ) (generated_us : Option ℕ) (payload : Blob) (a b : Archive) (t : ℕ)
    → record_platform now generated_us payload a ≡ some (b, t)
    → b.fast_sample ≡ a.fast_sample
unfolding record_platform
samples-record_platform now generated_us payload a b t e = samples-platform_at payload a b t _ e

module _ {N : Type 0} (py : Python N) (paths : Paths) (settings : Settings) (tick : Tick)
    (s : Snapshot N) where
  -- The part behind the sample keeps what is stored, but for retention.
  abbrev Stays : Action N (Unit {0}) → Type 0
  Stays action =
      (r q : HistorianRecorder N)
      → IsStored py paths settings tick s r q
      → Ends py paths settings tick s r (action q)

  weaken-Ends :
      (r q : HistorianRecorder N) (p : HistorianRecorder N × Option (Unit {0}))
      → IsStored py paths settings tick s r q
      → IsQuiet q p.0
      → Ends py paths settings tick s r p
  unfolding Ends
  weaken-Ends r q (t, none) h k = k.drops ∙ h.drops
  weaken-Ends r q (t, some u) h k = record {
    drops = k.drops ∙ h.drops;
    row = h.row;
    new = h.new;
    kept = elim h.kept [
      | inl found ↦ inl (
          subst (λ rows. find fast_key h.row.receive_time_us rows ≡ some h.row) (sym k.samples)
            found)
      | inr old ↦ inr old
    ];
    sample = k.sample ∙ h.sample;
    error = k.error ∙ h.error;
  }

  Quiet-Stays : (action : Action N (Unit {0})) → Quiet action → Stays action
  Quiet-Stays action k r q h = weaken-Ends r q (action q) h (k q)

  Stays-Ends :
      (rest : Unit {0} → Action N (Unit {0}))
      → ((u : Unit {0}) → Stays (rest u))
      → (r : HistorianRecorder N) (p : HistorianRecorder N × Option (Unit {0}))
      → Ends py paths settings tick s r p
      → Ends py paths settings tick s r (and_then p rest)
  unfolding and_then Ends
  Stays-Ends rest k r (q, none) e = e
  Stays-Ends rest k r (q, some u) e = k u r q e

  bind-Ends :
      (action : Action N (Unit {0})) (rest : Unit {0} → Action N (Unit {0}))
      (r q : HistorianRecorder N)
      → Ends py paths settings tick s r (action q)
      → ((u : Unit {0}) → Stays (rest u))
      → Ends py paths settings tick s r ((action >>= rest) q)
  unfolding ◌>>=◌
  bind-Ends action rest r q e k = Stays-Ends rest k r (action q) e

  pub cut-IsKept :
      (row : FastRow) (a : Archive)
      → IsKept settings tick row a
      → IsKept settings tick row (apply_retention settings tick.now none a)
  unfolding apply_retention delete_expired time_or
  cut-IsKept row a (inr old) = elim (Bool-cases settings.retention_enabled) [
    | inl e ↦ inr old
    | inr e ↦ inr old
  ]
  cut-IsKept row a (inl found) = elim (Bool-cases settings.retention_enabled) [
    | inr e ↦ rw e (inl found)
    | inl e ↦
        elim (Bool-cases
          (ltb row.receive_time_us (cutoff_us tick.now settings.raw_retention_days))) [
            | inl t ↦ inr (e, ground arith)
            | inr f ↦ rw e (
                inl (
                  find-delete_below fast_key row.receive_time_us
                    (cutoff_us tick.now settings.raw_retention_days) a.fast_sample
                  ∙ rw f found))
          ]
  ]

module _ {N : Type 0} (py : Python N) (paths : Paths) (settings : Settings)
    (min_free_bytes platform_interval : ℕ) (tick : Tick) (s : Snapshot N) where
  pub capture_platform-Quiet : Quiet (capture_platform py paths platform_interval tick s)
  unfolding capture_platform ◌>>=◌
  capture_platform-Quiet r =
      if_ind (λ (p : HistorianRecorder N × Option (Unit {0})). IsQuiet r p.0)
        (due tick.monotonic r.last_platform platform_interval) _ _
        (and_then-IsQuiet r _ _
          (stored_at-IsQuiet _ r (samples-record_platform tick.now s.generated_us _ r.archive))
          (λ t.
            change-Quiet _
              λ q. record { drops = refl; sample = refl; error = refl; samples = refl }))
        (refl-IsQuiet r)

  pub checkpoint_due-Quiet : Quiet {N = N} (checkpoint_due tick)
  unfolding checkpoint_due
  checkpoint_due-Quiet r =
      if_ind (λ (p : HistorianRecorder N × Option (Unit {0})). IsQuiet r p.0)
        (due tick.monotonic r.last_checkpoint 300_000_000) _ _
        (record { drops = refl; sample = refl; error = refl; samples = refl }) (refl-IsQuiet r)

  pub retention_event-Quiet : (now : ℕ) (before : Archive) → Quiet (retention_event py now before)
  unfolding retention_event
  retention_event-Quiet now before r =
      if_ind (λ (p : HistorianRecorder N × Option (Unit {0})). IsQuiet r p.0)
        (shorter before r.archive) _ _ (put_event-Quiet _ _ _ _ _ _ r) (refl-IsQuiet r)

  expire-Ends :
      (r q : HistorianRecorder N)
      → IsStored py paths settings tick s r q
      → Ends py paths settings tick s r (
          change
            (λ (t : HistorianRecorder N). record t {
              archive = apply_retention settings tick.now none t.archive;
            })
            q)
  unfolding change Ends
  expire-Ends r q h = record {
    drops = h.drops;
    row = h.row;
    new = h.new;
    kept = cut-IsKept py paths settings tick s h.row q.archive h.kept;
    sample = h.sample;
    error = h.error;
  }

  retention-Stays : Stays py paths settings tick s (retention_due py settings tick)
  unfolding retention_due
  retention-Stays r q h =
      if_ind (Ends py paths settings tick s r) (due tick.monotonic q.last_retention 3_600_000_000) _
        _
        (bind-Ends py paths settings tick s _ _ r q (expire-Ends r q h) λ u.
          Quiet-Stays py paths settings tick s _ (
            bind-Quiet _ _ (retention_event-Quiet tick.now q.archive) (λ v.
              change-Quiet _
                λ t. record { drops = refl; sample = refl; error = refl; samples = refl })))
        (weaken-Ends py paths settings tick s r q (q, some tt) h (refl-IsQuiet q))

  pub capture-Ends :
      (r : HistorianRecorder N)
      → IsOrdered fast_key r.archive.fast_sample
      → Ends py paths settings tick s r
          (capture py paths settings min_free_bytes platform_interval tick s r)
  unfolding capture
  capture-Ends r o =
      bind-Ends py paths settings tick s _ _ r r (capture_sample-Ends py paths settings tick s r o)
        λ u r' q h.
          bind-Ends py paths settings tick s _ _ r' q
            (Quiet-Stays py paths settings tick s
              (capture_platform py paths platform_interval tick s) capture_platform-Quiet r' q h)
            λ v r'' q' h'.
              bind-Ends py paths settings tick s _ _ r'' q'
                (Quiet-Stays py paths settings tick s (checkpoint_due tick) checkpoint_due-Quiet r''
                  q' h')
                λ w. retention-Stays
