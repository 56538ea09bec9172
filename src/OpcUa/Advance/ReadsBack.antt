-- ===== src/OpcUa/Advance/ReadsBack.antt =====
-- What the readbacks of src/python/gizmo_opcua.py mean: normal mode, a value, a clear latch.
use gizmo.Prelude.{
  ℕ, ◌+◌, ◌≤◌, ◌<◌, ◌≡◌, ◌≢◌, ◌⊎◌, ◌↔◌, refl, true, false, some, [], ◌∷◌, ◌*◌, arith, Option-cases,
  inl, inr,
}
use gizmo.Text.{Text}
use gizmo.Text.Equality.{eq_of_text_eq, text_eq_of_eq}
use gizmo.OpcUa.State.{ActiveCommand, Measurement, second, Verification, Server, World}
use gizmo.OpcUa.Readback.{
  threshold_reads_back, averages_read_back, time_reads_back, adc_reads_back, fresh_measurement_for,
  normal_mode_verified, latch_readback, is_empty,
}

-- A good measurement was taken after the command was requested, with a later sequence number.
pub record IsFresh (c : ActiveCommand) (s : Server) : Type 0 where
  pub later : c.start_sequence < s.last_good_measurement_sequence
  pub taken : (at : ℕ) × (s.last_good_measurement_at ≡ some at) × (c.requested_at ≤ at)

-- The measurement engine runs in a new process, from the executable of the command's start.
pub record IsNormalMode (w : World) (c : ActiveCommand) (s : Server) : Type 0 where
  pub fresh : IsFresh c s
  pub alive : 0 < s.zmon_pid
  pub restarted : (c.start_pid ≡ 0) ⊎ (s.zmon_pid ≢ c.start_pid)
  pub hashed : c.expected_hash ≢ []
  pub unchanged : w.binary_hash ≡ c.expected_hash

pub fresh_measurement_for-IsFresh :
    (c : ActiveCommand) (s : Server) → fresh_measurement_for c s ≡ true → IsFresh c s
unfolding fresh_measurement_for
fresh_measurement_for-IsFresh c s h = elim (Option-cases s.last_good_measurement_at) [
  | inl n ↦ ground arith
  | inr (at, e) ↦ record { later = ground arith; taken = (at, e, ground arith) }
]

IsFresh-fresh_measurement_for :
    (c : ActiveCommand) (s : Server) → IsFresh c s → fresh_measurement_for c s ≡ true
unfolding fresh_measurement_for
IsFresh-fresh_measurement_for c s h = let (at, e, le) = h.taken in ground (arith, h.later, e, le)

is_empty-false : (t : Text) → t ≢ [] → is_empty t ≡ false
is_empty-false [] h = absurd (h refl)
is_empty-false (x ∷ t) h = refl

module _ (w : World) (c : ActiveCommand) (s : Server) where
  pub verified-IsNormalMode : (normal_mode_verified w c s).0 ≡ true → IsNormalMode w c s
  unfolding normal_mode_verified
  verified-IsNormalMode h = record {
    fresh = fresh_measurement_for-IsFresh c s (ground arith);
    alive = ground arith;
    restarted = ground arith;
    hashed = ground arith;
    unchanged = eq_of_text_eq _ _ (ground arith);
  }

  IsNormalMode-verified : IsNormalMode w c s → (normal_mode_verified w c s).0 ≡ true
  unfolding normal_mode_verified
  IsNormalMode-verified h = ground (
    arith,
    IsFresh-fresh_measurement_for c s h.fresh,
    h.alive,
    h.restarted,
    is_empty-false c.expected_hash h.hashed,
    text_eq_of_eq w.binary_hash c.expected_hash h.unchanged,
  )

  -- `_normal_mode_verified` decides normal mode: a fresh good measurement, a live engine process
  -- that is not the one from before, and the executable that the command found.
  pub verified_iff_IsNormalMode : ((normal_mode_verified w c s).0 ≡ true) ↔ IsNormalMode w c s
  verified_iff_IsNormalMode = (verified-IsNormalMode, IsNormalMode-verified)

-- What must read back before a command that waits for it may succeed.
abbrev pub ReadsBack : World → ActiveCommand → Server → Verification → Type 0
ReadsBack w c s Verification.threshold =
    (m : Measurement) × (v : ℕ) × (s.last_measurement_snapshot ≡ some m)
    × (m.threshold_ohm ≡ some v)
    × (c.expected_value ≡ some v)
ReadsBack w c s Verification.averages =
    (m : Measurement) × (s.last_measurement_snapshot ≡ some m)
    × (c.expected_value ≡ some m.averages_per_calculation)
ReadsBack w c s Verification.set_time =
    (t : ℕ) × (e : ℕ) × (s.latest_time_snapshot ≡ some t)
    × (c.expected_value ≡ some e)
    × (t ≤ (e + 5) * second)
    × (e * second ≤ t + 5 * second)
ReadsBack w c s Verification.capture_adc =
    (mtime : ℕ) × (size : ℕ) × (requested : ℕ) × (w.adc_file ≡ some (mtime, size))
    × (c.expected_value ≡ some requested)
    × (requested ≤ mtime + second)
    × (0 < size)
    × (size ≤ w.adc_max_bytes)
ReadsBack w c s Verification.restart = Unit
ReadsBack w c s Verification.calibration = Unit
ReadsBack w c s Verification.restore = Unit
ReadsBack w c s _ = ⊥

pub threshold_reads_back-ReadsBack :
    (w : World) (c : ActiveCommand) (s : Server)
    → threshold_reads_back c s ≡ true
    → ReadsBack w c s Verification.threshold
unfolding threshold_reads_back
threshold_reads_back-ReadsBack w c s h = elim (Option-cases s.last_measurement_snapshot) [
  | inl n ↦ ground arith
  | inr (m, e) ↦ elim (Option-cases m.threshold_ohm) [
    | inl n ↦ ground arith
    | inr (v, t) ↦ (m, v, e, t, ground arith)
  ]
]

pub averages_read_back-ReadsBack :
    (w : World) (c : ActiveCommand) (s : Server)
    → averages_read_back c s ≡ true
    → ReadsBack w c s Verification.averages
unfolding averages_read_back
averages_read_back-ReadsBack w c s h = elim (Option-cases s.last_measurement_snapshot) [
  | inl n ↦ ground arith
  | inr (m, e) ↦ (m, e, ground arith)
]

pub time_reads_back-ReadsBack :
    (w : World) (c : ActiveCommand) (s : Server)
    → time_reads_back c s ≡ true
    → ReadsBack w c s Verification.set_time
unfolding time_reads_back
time_reads_back-ReadsBack w c s h = elim (Option-cases s.latest_time_snapshot) [
  | inl n ↦ ground arith
  | inr (t, e) ↦ elim (Option-cases c.expected_value) [
    | inl n ↦ ground arith
    | inr (v, x) ↦ (t, v, e, x, ground arith, ground arith)
  ]
]

pub adc_reads_back-ReadsBack :
    (w : World) (c : ActiveCommand) (s : Server)
    → adc_reads_back w c ≡ true
    → ReadsBack w c s Verification.capture_adc
unfolding adc_reads_back
adc_reads_back-ReadsBack w c s h = elim (Option-cases w.adc_file) [
  | inl n ↦ ground arith
  | inr (f, e) ↦ elim (Option-cases c.expected_value) [
    | inl n ↦ ground arith
    | inr (requested, x) ↦ (f.0, f.1, requested, e, x, ground arith, ground arith, ground arith)
  ]
]

-- A latch that reads back as clear, or an alarm that is still active.
abbrev pub LatchReadsBack : ActiveCommand → Server → Type 0
LatchReadsBack c s =
    (m : Measurement) × (s.last_measurement_snapshot ≡ some m)
    × ((m.alarm_latched ≡ false) ⊎ (m.alarm_active ≡ true))

pub latch_readback_sound :
    (c : ActiveCommand) (s : Server) {m : Text}
    → latch_readback c s ≡ some m
    → IsFresh c s × LatchReadsBack c s
unfolding latch_readback
latch_readback_sound c s h = elim (Option-cases s.last_measurement_snapshot) [
  | inl n ↦ ground arith
  | inr (m, e) ↦ (fresh_measurement_for-IsFresh c s (ground arith), (m, e, ground arith))
]
