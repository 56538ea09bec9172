-- ===== src/Historian/Store/FreeTime.antt =====
-- The loop of `record_fast` and `record_platform` of src/python/gizmo_historian.py that looks for a
-- time of its own for a new row.
use gizmo.Prelude.{
  ℕ, zero, suc, ◌+◌, ◌<◌, ◌≤◌, ◌≡◌, ◌≢◌, none, some, List, [], ◌∷◌, leb, if◌then◌else◌, length,
  arith, Option-cases, inl, inr,
}
use native.Mathlib.Decide.{dec_lt}
use gizmo.Historian.Table.{find}
use gizmo.Historian.Store.{free_time, rounds}

module _ {ℓ} {R : Type ℓ} (key : R → ℕ) where
  -- How many rows have the time or a later one.
  later : ℕ → List R → ℕ
  later t [] = 0
  later t (r ∷ rows) = if leb t (key r) then later t rows + 1 else later t rows

  later-le-length : (t : ℕ) (rows : List R) → later t rows ≤ length rows
  unfolding later
  later-le-length t [] = omega arith
  later-le-length t (r ∷ rows) = ground (arith, later-le-length t rows)

  later_mono : (t : ℕ) (rows : List R) → later (t + 1) rows ≤ later t rows
  unfolding later
  later_mono t [] = omega arith
  later_mono t (r ∷ rows) = ground (arith, later_mono t rows)

  later-find :
      (t : ℕ) (rows : List R) (found : R)
      → find key t rows ≡ some found
      → later (t + 1) rows < later t rows
  unfolding later find
  later-find t [] found e = cc
  later-find t (r ∷ rows) found e = ground (arith, later-find t rows found, later_mono t rows)

  -- The first time from `t` on that no row has.
  pub record IsFirstFree (rows : List R) (t found : ℕ) : Type ℓ where
    pub free : find key found rows ≡ none
    pub not_before : t ≤ found
    pub taken : (u : ℕ) → t ≤ u → u < found → find key u rows ≢ none

  free_time_enough :
      (fuel : ℕ) (rows : List R) (t : ℕ)
      → later t rows < fuel
      → (found : ℕ) × (free_time key fuel rows t ≡ some found) × IsFirstFree rows t found
  unfolding free_time
  free_time_enough zero rows t h = elim h [ ]
  free_time_enough (suc fuel) rows t h = elim (Option-cases (find key t rows)) [
    | inl e ↦ (
      t,
      rw e,
      record { free = e; not_before = omega arith; taken = λ u p q. absurd (omega arith) },
    )
    | inr (r, e) ↦
        let (found, found_e, first) =
          free_time_enough fuel rows (t + 1) (omega (arith, later-find t rows r e)) in
        (
          found,
          rw e found_e,
          record {
            free = first.free;
            not_before = omega (arith, first.not_before);
            taken = λ u p q. elim (dec_lt t u) [
              | yes l ↦ first.taken u (omega arith) q
              | no n ↦ λ z. let u_e : u ≡ t = omega arith in cc (e, z, u_e)
            ];
          },
        )
  ]

  -- More rounds than there are rows find a time.
  pub free_time_ends :
      (rows : List R) (t : ℕ)
      → (found : ℕ) × (free_time key (rounds rows) rows t ≡ some found) × IsFirstFree rows t found
  free_time_ends rows t =
      free_time_enough (rounds rows) rows t (omega (arith, later-le-length t rows))
