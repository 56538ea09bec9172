-- ===== src/Historian/Coarse/Counts.antt =====
-- `_coarsen_rollup_points` of src/python/gizmo_historian.py as a whole: how many points it makes, and
-- what becomes of the samples that the minutes count.
use gizmo.Prelude.{
  zero, suc, if◌then◌else◌, ℕ, ◌+◌, ◌≤◌, ◌<◌, ◌≡◌, refl, sym, ap, ◌∙◌, Bool, true, false, ◌||◌,
  Option, none, some, List, [], ◌∷◌, map, length, arith, Bool-cases, if_cases, inl, inr,
}
use Prim.Native.Nat.{max}
use gizmo.Text.{Text, text_eq}
use gizmo.Text.Equality.{eq_of_text_eq, text_eq_of_eq}
use gizmo.Historian.Payload.{Value, nothing, words, flag, number, get}
use gizmo.Historian.Recorder.{Python}
use gizmo.Historian.Capture.{finite_number}
use gizmo.Historian.Points.{Arithmetic, Aggregate, PointPayload, Point, contains}
use gizmo.Historian.Coarse.{
  ceil_divide, worst_of, groups, middle, Sums, status_of_payload, payload_value, aggregate_of,
  item_count, no_sums, add_usable, add_item, sum_payloads, coarse_payload, payloads_at, coarse_item,
  coarse_point, coarsen_rollup_points,
}
use gizmo.Historian.Coarse.Groups.{
  length-groups, length-map, map-map, sum, sum-groups, width_enough,
}

elsewhere : (b c : Bool) → b ≡ false → (b || c) ≡ true → c ≡ true
elsewhere true c e h = cc
elsewhere false c e h = h

text_eq-eq-false : (s t : Text) → text_eq s t ≡ false → text_eq t s ≡ false
text_eq-eq-false s t e = elim (Bool-cases (text_eq t s)) [
  | inl same ↦ cc (text_eq_of_eq s t (sym (eq_of_text_eq t s same)))
  | inr other ↦ other
]

module _ {N : Type 0} where
  -- The samples that the aggregate of a payload counts.
  unfoldable pub samples_counted : Option (PointPayload N) → ℕ
  samples_counted none = 0
  samples_counted (some p) = elim p.aggregate [ none ↦ 0 | some a ↦ a.count ]

  unfoldable pub samples_counted_in : Text → List (Point N) → ℕ
  samples_counted_in path points =
      sum (map (λ (p : Point N). samples_counted (get path p.values)) points)

abbrev pub at_least_one : ℕ → ℕ
at_least_one zero = 1
at_least_one (suc n) = suc n

abbrev pub item_weight : {N : Type 0} → Option (Aggregate N) → ℕ
item_weight none = 1
item_weight (some a) = at_least_one a.count

max-at_least_one : (n : ℕ) → max 1 n ≡ at_least_one n
max-at_least_one zero = omega arith
max-at_least_one (suc n) = omega arith

item_count-weight : {N : Type 0} (a : Option (Aggregate N)) → item_count a ≡ item_weight a
unfolding item_count
item_count-weight none = refl
item_count-weight (some a) = max-at_least_one a.count

module _ {N : Type 0} (py : Python N) where
  unfoldable pub is_finite : Value N → Bool
  is_finite (number n) = py.finite n
  is_finite (flag b) = true
  is_finite nothing = false
  is_finite (words s) = false

  -- The samples that a payload stands for: none without a finite value, and else the count of its
  -- aggregate, but one where there is no aggregate or its count is zero.
  unfoldable pub weight : Option (PointPayload N) → ℕ
  weight none = 0
  weight (some p) = if is_finite p.value then item_weight p.aggregate else 0

  unfoldable pub weight_in : Text → List (Point N) → ℕ
  weight_in path points = sum (map (λ (p : Point N). weight (get path p.values)) points)

module _ {N : Type 0} (py : Python N) (math : Arithmetic N) where
  count-add_item :
      (value : N) (a : Option (Aggregate N)) (s : Sums N)
      → (add_item py math value a s).count ≡ s.count + item_weight a
  unfolding add_item
  count-add_item value a s = ap (λ n. s.count + n) (item_count-weight a)

  count-value :
      (v : Value N) (a : Option (Aggregate N)) (s : Sums N)
      → (add_usable py math (finite_number py v) a s).count
        ≡ s.count + (if is_finite py v then item_weight a else 0)
  unfolding add_usable finite_number is_finite
  count-value nothing a s = omega arith
  count-value (words t) a s = omega arith
  count-value (flag true) a s = count-add_item _ a s
  count-value (flag false) a s = count-add_item _ a s
  count-value (number n) a s = elim (Bool-cases (py.finite n)) [
    | inl e ↦ rw e (count-add_item n a s)
    | inr e ↦ rw e (omega arith)
  ]

  count-add_usable :
      (p : Option (PointPayload N)) (s : Sums N)
      → (add_usable py math (finite_number py (payload_value p)) (aggregate_of p) s).count
        ≡ s.count + weight py p
  unfolding payload_value aggregate_of weight is_finite
  count-add_usable none s = count-value nothing none s
  count-add_usable (some p) s = count-value p.value p.aggregate s

  count-sum_payloads :
      (payloads : List (Option (PointPayload N))) (s : Sums N)
      → (sum_payloads py math payloads s).count ≡ s.count + sum (map (weight py) payloads)
  unfolding sum_payloads sum
  count-sum_payloads [] s = omega arith
  count-sum_payloads (p ∷ payloads) s =
      let next = add_usable py math (finite_number py (payload_value p)) (aggregate_of p) s in
      omega (arith, count-sum_payloads payloads next, count-add_usable p s)

  samples_counted-coarse_payload :
      (time : ℕ) (worst : Text) (s : Sums N)
      → samples_counted (some (coarse_payload py math time worst s)) ≡ s.count
  unfolding coarse_payload samples_counted
  samples_counted-coarse_payload time worst s = ground arith

  samples_counted-coarse_item :
      (path : Text) (group : Point N × List (Point N))
      → samples_counted (some (coarse_item py math group path).1)
        ≡ weight_in py path (group.0 ∷ group.1)
  unfolding coarse_item payloads_at weight_in no_sums
  samples_counted-coarse_item path group =
      let payloads = payloads_at path (group.0 ∷ group.1) in
      omega (
        arith,
        samples_counted-coarse_payload (middle group).time
            (worst_of (map status_of_payload payloads))
            (sum_payloads py math payloads (no_sums py math)),
        count-sum_payloads payloads (no_sums py math),
        ap sum (map-map (weight py) (λ (p : Point N). get path p.values) (group.0 ∷ group.1)),
      )

  get-coarse_item :
      (path : Text) (group : Point N × List (Point N)) (paths : List Text)
      → contains path paths ≡ true
      → get path (map (coarse_item py math group) paths) ≡ some (coarse_item py math group path).1
  unfolding contains get coarse_item
  get-coarse_item path group [] h = cc
  get-coarse_item path group (p ∷ paths) h =
      if_cases (λ (o : Option (PointPayload N)). o ≡ some (coarse_item py math group path).1)
        (text_eq p path) _ _
        (λ e. ap (λ q. some (coarse_item py math group q).1) (eq_of_text_eq p path e))
        (λ e.
          get-coarse_item path group paths
            (elsewhere (text_eq path p) _ (text_eq-eq-false p path e) h))

  samples_counted-coarse_point :
      (path : Text) (paths : List Text) (group : Point N × List (Point N))
      → contains path paths ≡ true
      → samples_counted (get path (coarse_point py math paths group).values)
        ≡ weight_in py path (group.0 ∷ group.1)
  unfolding coarse_point
  samples_counted-coarse_point path paths group h =
      ap samples_counted (get-coarse_item path group paths h)
      ∙ samples_counted-coarse_item path group

  samples_counted-groups :
      (path : Text) (paths : List Text) (all : List (Point N × List (Point N)))
      → contains path paths ≡ true
      → samples_counted_in path (map (coarse_point py math paths) all)
        ≡ sum (map (λ (g : Point N × List (Point N)). weight_in py path (g.0 ∷ g.1)) all)
  unfolding samples_counted_in sum
  samples_counted-groups path paths [] h = refl
  samples_counted-groups path paths (g ∷ all) h =
      omega (
        arith,
        samples_counted-coarse_point path paths g h,
        samples_counted-groups path paths all h,
      )

  pub length-coarsen_rollup_points :
      (points : List (Point N)) (paths : List Text) (limit : ℕ)
      → 0 < limit
      → length (coarsen_rollup_points py math points paths limit) ≤ limit
  unfolding coarsen_rollup_points
  length-coarsen_rollup_points points paths limit h =
      let width = max 1 (ceil_divide (length points) limit) in
      omega (
        arith,
        length-map (coarse_point py math paths) (groups (length points) width points),
        length-groups (length points) width limit points (omega arith)
            (width_enough (length points) limit h),
      )

  -- Coarsening keeps the samples: the counts of the coarse points of a path that was asked for add
  -- up to what the payloads of the points stand for, which is nothing without a finite value, and
  -- else the count of the aggregate, but one where there is no aggregate or its count is zero.
  pub coarsen_rollup_points_keeps_counts :
      (points : List (Point N)) (paths : List Text) (limit : ℕ) (path : Text)
      → contains path paths ≡ true
      → samples_counted_in path (coarsen_rollup_points py math points paths limit)
        ≡ weight_in py path points
  unfolding coarsen_rollup_points weight_in
  coarsen_rollup_points_keeps_counts points paths limit path h =
      let width = max 1 (ceil_divide (length points) limit) in
      samples_counted-groups path paths (groups (length points) width points) h
      ∙ sum-groups (λ (p : Point N). weight py (get path p.values)) (length points) width points
          (omega arith)
