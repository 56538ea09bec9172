-- ===== src/Historian/Coarse.antt =====
-- `_coarsen_rollup_points` of src/python/gizmo_historian.py: groups of minutes as one point each.
pub mod Groups
pub mod Counts
use gizmo.Prelude.{
  ℕ, zero, suc, ◌+◌, ◌-◌, ◌*◌, ◌/◌, Bool, true, false, not, Option, none, some, List, [], ◌∷◌, ◌++◌,
  map, leb, ltb, ◌==◌, if◌then◌else◌, any, length, take, drop,
}
use Prim.Native.Nat.{max}
use gizmo.Text.{Text, text, text_eq}
use gizmo.Historian.Accumulator.{status_rank}
use gizmo.Historian.Payload.{Value, nothing, number, words, Dict, get, status_or}
use gizmo.Historian.Recorder.{Python}
use gizmo.Historian.Capture.{finite_number, is_words}
use gizmo.Historian.Points.{Arithmetic, Aggregate, PointPayload, Point}

-- `math.ceil(a / b)`, which is exact for counts of rows
unfoldable pub ceil_divide : ℕ → ℕ → ℕ
ceil_divide a b = (a + b - 1) / b

-- `max(…, key=status_rank)` from one status on: the first of the worst
unfoldable pub worst_from : Text → List Text → Text
worst_from worst [] = worst
worst_from worst (status ∷ rest) =
    worst_from (if ltb (status_rank worst) (status_rank status) then status else worst) rest

unfoldable pub worst_of : List Text → Text
worst_of [] = text "BadNoData"
worst_of (status ∷ rest) = worst_from status rest

-- `points[offset : offset + width]` for each offset, a point and those behind it. The rounds are at
-- most as many as the points.
unfoldable pub groups {ℓ} : {A : Type ℓ} → ℕ → ℕ → List A → List (A × List A)
groups zero width points = []
groups (suc n) width [] = []
groups (suc n) width (p ∷ points) =
    (p, take (width - 1) points) ∷ groups n width (drop (width - 1) points)

-- `group[n]`; n is at most the number of points behind the first
unfoldable pub group_at {ℓ} : {A : Type ℓ} → ℕ → A → List A → A
group_at zero p points = p
group_at (suc n) p [] = p
group_at (suc n) p (q ∷ points) = group_at n q points

unfoldable pub middle {ℓ} : {A : Type ℓ} → A × List A → A
middle (p, points) = group_at ((length points + 1) / 2) p points

-- What is summed up of a group for one path.
pub record Sums (N : Type 0) : Type 0 where
  pub weighted_total : N
  pub count : ℕ
  pub minimum : N
  pub maximum : N
  pub first : Option N
  pub last : Option N

module _ {N : Type 0} where
  unfoldable pub status_of_payload : Option (PointPayload N) → Text
  status_of_payload none = text "BadNoData"
  status_of_payload (some p) = status_or (text "BadNoData") (some p.status)

  unfoldable pub payload_value : Option (PointPayload N) → Value N
  payload_value none = nothing
  payload_value (some p) = p.value

  unfoldable pub aggregate_of : Option (PointPayload N) → Option (Aggregate N)
  aggregate_of none = none
  aggregate_of (some p) = p.aggregate

  -- `max(1, int(aggregate.get("count") or 1))`
  unfoldable pub item_count : Option (Aggregate N) → ℕ
  item_count none = 1
  item_count (some a) = max 1 a.count

  -- `aggregate.get("first", item_value)` and its like
  unfoldable pub field_or : (Aggregate N → Option N) → N → Option (Aggregate N) → Option N
  field_or field value none = some value
  field_or field value (some a) = field a

  unfoldable pub some_else : Option N → N → N
  some_else none value = value
  some_else (some n) value = n

  unfoldable pub keep_first : Option N → Option N → Option N
  keep_first none new = new
  keep_first (some n) new = some n

  unfoldable pub payloads_at : Text → List (Point N) → List (Option (PointPayload N))
  payloads_at path group = map (λ (p : Point N). get path p.values) group

  unfoldable pub is_high_z : Point N → Bool
  is_high_z p = is_words (text "OutOfRange") p.resistance_range

module _ {N : Type 0} (py : Python N) (math : Arithmetic N) where
  unfoldable pub finite_field : (Aggregate N → Option N) → Option (Aggregate N) → Option N
  finite_field field none = none
  finite_field field (some a) = elim (field a) [
    | none ↦ none
    | some n ↦ finite_number py (number n)
  ]

  unfoldable pub no_sums : Sums N
  no_sums = record {
    weighted_total = py.zero_value;
    count = 0;
    minimum = math.infinity;
    maximum = math.minus_infinity;
    first = none;
    last = none;
  }

  -- One round of the loop over the usable payloads.
  unfoldable pub add_item : N → Option (Aggregate N) → Sums N → Sums N
  add_item value aggregate s = record {
    weighted_total = py.add s.weighted_total (math.times value (item_count aggregate));
    count = s.count + item_count aggregate;
    minimum =
        py.min s.minimum
          (some_else (finite_field (λ (a : Aggregate N). a.minimum) aggregate) value);
    maximum =
        py.max s.maximum
          (some_else (finite_field (λ (a : Aggregate N). a.maximum) aggregate) value);
    first = keep_first s.first (field_or (λ (a : Aggregate N). a.first) value aggregate);
    last = field_or (λ (a : Aggregate N). a.last) value aggregate;
  }

  unfoldable pub add_usable : Option N → Option (Aggregate N) → Sums N → Sums N
  add_usable none aggregate s = s
  add_usable (some value) aggregate s = add_item value aggregate s

  -- The sums of the usable payloads.
  unfoldable pub sum_payloads : List (Option (PointPayload N)) → Sums N → Sums N
  sum_payloads [] s = s
  sum_payloads (p ∷ payloads) s =
      sum_payloads payloads (add_usable (finite_number py (payload_value p)) (aggregate_of p) s)

  -- The payload of a group; where no payload is usable, nothing is counted.
  unfoldable pub coarse_payload : ℕ → Text → Sums N → PointPayload N
  coarse_payload time worst s =
      if s.count == 0
      then record { value = nothing; status = worst; source_us = none; aggregate = none }
      else record {
        value = number (math.divide s.weighted_total s.count);
        status = worst;
        source_us = some (time * 1000);
        aggregate = some (record {
          first = s.first;
          last = s.last;
          minimum = some s.minimum;
          maximum = some s.maximum;
          count = s.count;
        });
      }

  unfoldable pub coarse_item : Point N × List (Point N) → Text → Text × PointPayload N
  coarse_item group path =
      let payloads = payloads_at path (group.0 ∷ group.1) in
      (
        path,
        coarse_payload (middle group).time (worst_of (map status_of_payload payloads))
            (sum_payloads payloads no_sums),
      )

  -- One round of the loop over the groups.
  unfoldable pub coarse_point : List Text → Point N × List (Point N) → Point N
  coarse_point paths group = record {
    time = (middle group).time;
    sequence = none;
    values = map (coarse_item group) paths;
    resistance_range =
        words (if any is_high_z (group.0 ∷ group.1) then text "OutOfRange" else text "InRange");
    resistance_range_status = some (
        worst_of (
          map (λ (p : Point N). status_or (text "BadNoData") p.resistance_range_status)
            (group.0 ∷ group.1)));
  }

  -- `_coarsen_rollup_points`
  unfoldable pub coarsen_rollup_points : List (Point N) → List Text → ℕ → List (Point N)
  coarsen_rollup_points points paths limit =
      let width = max 1 (ceil_divide (length points) limit) in
      map (coarse_point paths) (groups (length points) width points)
