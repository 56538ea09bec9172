-- ===== src/Historian/Accumulator.antt =====
-- `MinuteAccumulator` of src/python/gizmo_historian.py: the aggregation of one minute, series by
-- series. The finite numbers, with `min`, `max` and `+`, are parameters; `none` is a value that is
-- no finite number.
pub mod Summary
use gizmo.Prelude.{
  ℕ, zero, suc, ◌+◌, Bool, true, false, Option, none, some, List, [], ◌∷◌, leb, ◌==◌, if◌then◌else◌,
}
use gizmo.Text.{Text, text, text_eq, lower, starts_with}

-- `status_rank`
unfoldable pub status_rank : Text → ℕ
status_rank status =
    if starts_with (lower status) (text "bad")
    then 3
    else if starts_with (lower status) (text "uncertain")
    then 2
    else if text_eq (lower status) (text "good")
    then 0
    else 1

-- The later of two statuses that rank alike, and else the worse.
unfoldable pub worse_status : Text → Text → Text
worse_status current status =
    if leb (status_rank current) (status_rank status) then status else current

-- One value of `self.series`.
pub record Entry {ℓ} (V : Type ℓ) : Type ℓ where
  pub first : Option V
  pub last : Option V
  pub minimum : Option V
  pub maximum : Option V
  pub total : V
  pub count : ℕ
  pub status : Text

-- The value and the status of one path in a snapshot.
pub record Payload {ℓ} (V : Type ℓ) : Type ℓ where
  pub value : Option V
  pub status : Text

-- What `update` reads of a snapshot: the range and the payloads of ROLLUP_PATHS, in their order.
pub record Snapshot {ℓ} (V : Type ℓ) : Type ℓ where
  pub out_of_range : Bool
  pub range_status : Text
  pub payloads : List (Payload V)

pub record Accumulator {ℓ} (V : Type ℓ) : Type ℓ where
  pub sample_count : ℕ
  pub high_z_count : ℕ
  pub high_z_status : Text
  pub series : ℕ → Option (Entry V)

-- `min(current, value)` and `max(current, value)`: `none` is the TypeError of a missing number
unfoldable pub pick {ℓ} : {V : Type ℓ} → (V → V → V) → Option V → V → Option V
pick f none v = none
pick f (some m) v = some (f m v)

module _ {ℓ} {V : Type ℓ} (zero_value : V) (min max add : V → V → V) where
  -- The entry that the first payload of a series makes.
  unfoldable pub first_entry : Payload V → Entry V
  first_entry p = record {
    first = p.value;
    last = p.value;
    minimum = p.value;
    maximum = p.value;
    total = elim p.value [ none ↦ zero_value | some v ↦ v ];
    count = elim p.value [ none ↦ 0 | some v ↦ 1 ];
    status = p.status;
  }

  -- The statements behind the test for the first finite value; `none` is a TypeError.
  unfoldable pub extend_entry : V → Entry V → Option (Entry V)
  extend_entry v current = elim (pick min current.minimum v) [
    | none ↦ none
    | some low ↦ elim (pick max current.maximum v) [
      | none ↦ none
      | some high ↦ some (record current {
        last = some v;
        minimum = some low;
        maximum = some high;
        total = add current.total v;
        count = current.count + 1;
      })
    ]
  ]

  -- The entry with one more finite value; `none` is a TypeError.
  unfoldable pub add_value : V → Entry V → Option (Entry V)
  add_value v e =
      extend_entry v (
        if e.count == 0 then record e { first = some v; minimum = some v; maximum = some v } else e)

  -- The rest of a round of the loop in `update`, on an entry that is there.
  unfoldable pub update_entry : Payload V → Entry V → Option (Entry V)
  update_entry p e =
      let current = record e { status = worse_status e.status p.status } in
      elim p.value [ none ↦ some current | some v ↦ add_value v current ]

  -- One round of the loop: `none` is a TypeError.
  unfoldable pub update_series : Payload V → Option (Entry V) → Option (Entry V)
  update_series p none = some (first_entry p)
  update_series p (some e) = update_entry p e

  unfoldable pub update_paths :
      ℕ → List (Payload V) → (ℕ → Option (Entry V)) → Option (ℕ → Option (Entry V))
  update_paths index [] series = some series
  update_paths index (p ∷ payloads) series = elim (update_series p (series index)) [
    | none ↦ none
    | some e ↦ update_paths (index + 1) payloads (λ i. if i == index then some e else series i)
  ]

  -- `update`; `none` is a TypeError
  unfoldable pub update : Snapshot V → Accumulator V → Option (Accumulator V)
  update s a = elim (update_paths 0 s.payloads a.series) [
    | none ↦ none
    | some series ↦ some record {
      sample_count = a.sample_count + 1;
      high_z_count = if s.out_of_range then a.high_z_count + 1 else a.high_z_count;
      high_z_status =
          if s.out_of_range then worse_status a.high_z_status s.range_status else a.high_z_status;
      series = series;
    }
  ]

-- `MinuteAccumulator(...)`
unfoldable pub empty {ℓ} : {V : Type ℓ} → Accumulator V
empty = record {
  sample_count = 0;
  high_z_count = 0;
  high_z_status = text "Good";
  series = λ i. none;
}
