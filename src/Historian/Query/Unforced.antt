-- ===== src/Historian/Query/Unforced.antt =====
-- `query` of src/python/gizmo_historian.py where it does not insist on samples: what it answers.
use gizmo.Prelude.{
  ◌*◌, ◌<◌, ◌⊎◌, inl, inr, ltb, ◌==◌, Bool-cases, sym, ◌++◌, ℕ, suc, ◌+◌, ◌≤◌, ◌≡◌, refl, true,
  false, Option, none, some, List, [], ◌∷◌, length, arith, length-append,
}
use gizmo.Text.{Text}
use gizmo.Historian.Store.{Settings}
use gizmo.Historian.Archive.{Archive}
use gizmo.Historian.Recorder.{Python, Paths}
use gizmo.Historian.Points.{
  rollup_points, rollups_between, points_for, index_item, rollup_point, contains, Arithmetic, Point,
  append_all, cons_some, both, insert_point, sort_points, sort_all, raw_points,
}
use gizmo.Historian.Query.Bounds.{refusal-limit, length-within_limit}
use gizmo.Historian.Coarse.Groups.{width_enough}
use gizmo.Historian.Coarse.Counts.{
  samples_counted_in, weight_in, coarsen_rollup_points_keeps_counts,
}
use Prim.Native.Nat.{max}
use gizmo.Historian.Query.{
  Answer, answers, from_keys, limit_of, minutes, raw, minutes_of, within_limit, refusal, use_rollup,
  answer, answer_raw, answer_minutes, raw_count_of, answer_by, query_unless, query,
}

length-cons_some {ℓ} :
    {B : Type ℓ} (o : Option B) (p : Option (List B)) (n : ℕ) (made : List B)
    → cons_some o p ≡ some made
    → ((rest : List B) → p ≡ some rest → length rest ≡ n)
    → length made ≡ suc n
unfolding cons_some
length-cons_some (some b) (some rest) n made e h = ground (arith, h rest refl)
length-cons_some none p n made e h = absurd (ground arith)
length-cons_some (some b) none n made e h = absurd (ground arith)

length-append_all {ℓ κ} :
    {A : Type ℓ} {B : Type κ} (f : A → Option B) (all : List A) (made : List B)
    → append_all f all ≡ some made
    → length made ≡ length all
unfolding append_all
length-append_all f [] made e = ground arith
length-append_all f (a ∷ all) made e =
    length-cons_some (f a) (append_all f all) (length all) made e (length-append_all f all)

length-both {ℓ} :
    {A : Type ℓ} (o p : Option (List A)) (m n : ℕ) (all : List A)
    → both o p ≡ some all
    → ((l : List A) → o ≡ some l → length l ≡ m)
    → ((l : List A) → p ≡ some l → length l ≡ n)
    → length all ≡ m + n
unfolding both
length-both none p m n all e h k = cc
length-both (some xs) none m n all e h k = cc
length-both (some xs) (some ys) m n all e h k =
    ground (arith, h xs refl, k ys refl, length-append xs ys)

module _ {N : Type 0} where
  length-insert_point :
      (p : Point N) (points : List (Point N)) → length (insert_point p points) ≡ suc (length points)
  unfolding insert_point
  length-insert_point p [] = refl
  length-insert_point p (q ∷ points) = ground (arith, length-insert_point p points)

  length-sort_points : (points : List (Point N)) → length (sort_points points) ≡ length points
  unfolding sort_points
  length-sort_points [] = refl
  length-sort_points (p ∷ points) =
      omega (arith, length-insert_point p (sort_points points), length-sort_points points)

  length-sort_all :
      (o : Option (List (Point N))) (n : ℕ) (points : List (Point N))
      → sort_all o ≡ some points
      → ((l : List (Point N)) → o ≡ some l → length l ≡ n)
      → length points ≡ n
  unfolding sort_all
  length-sort_all none n points e h = cc
  length-sort_all (some l) n points e h = ground (arith, h l refl, length-sort_points l)

module _ {N : Type 0} (math : Arithmetic N) (paths : Paths) (fast_query : List Text) where
  -- A sample that is read makes one point.
  pub length-raw_points :
      (selected : List Text) (start_us end_us : ℕ) (a : Archive) (points : List (Point N))
      → raw_points math paths fast_query selected start_us end_us a ≡ some points
      → length points ≡ raw_count_of fast_query paths.platform_capture selected start_us end_us a
  unfolding raw_points raw_count_of
  length-raw_points selected start_us end_us a points e =
      length-sort_all _ _ points e
        λ l d. length-both _ _ _ _ l d (length-append_all _ _) (length-append_all _ _)

module _ {N : Type 0} (py : Python N) (math : Arithmetic N) (paths : Paths) where
  -- A minute that is read makes one point.
  length-rollup_points :
      (selected : List Text) (start_us end_us : ℕ) (a : Archive) (points : List (Point N))
      → rollup_points py math paths selected start_us end_us a ≡ some points
      → length points ≡ length (rollups_between start_us end_us a)
  unfolding rollup_points points_for
  length-rollup_points selected start_us end_us a points e =
      for_indexes (append_all (index_item py math paths) selected) e
    where
      for_indexes :
          (o : Option (List (Text × ℕ)))
          → points_for py math paths (rollups_between start_us end_us a) o ≡ some points
          → length points ≡ length (rollups_between start_us end_us a)
      for_indexes none h = absurd (ground arith)
      for_indexes (some indexes) h =
          length-append_all (rollup_point py math paths indexes) _ points h

-- An answer in samples: they are few enough, and there are some or no minutes either.
pub record IsRaw {N : Type 0} (limit : ℕ) (samples minute_points : List (Point N)) (r : Answer N)
    : Type 0 where
  pub few : length samples ≤ limit
  pub some_sample : (0 < length samples) ⊎ (length minute_points ≡ 0)
  pub resolution : r.resolution ≡ raw
  pub points : r.points ≡ samples

-- An answer in minutes: the samples are too many, or there are minutes and no samples. The minutes
-- are as they are or, where they are too many, coarse: of every path all samples are counted.
pub record IsMinutes {N : Type 0} (py : Python N) (selected : List Text) (limit : ℕ)
    (samples minute_points : List (Point N)) (r : Answer N) : Type 0 where
  pub many : (limit < length samples) ⊎ ((length samples ≡ 0) × (0 < length minute_points))
  pub count : r.point_count ≡ length r.points
  pub few : r.point_count ≤ limit
  pub resolution :
      (width : ℕ) × (r.resolution ≡ minutes width)
      × (length minute_points ≤ max 1 r.point_count * width)
  pub kept : length minute_points ≤ limit → r.points ≡ minute_points
  pub coarse :
      (path : Text)
      → limit < length minute_points
      → contains path selected ≡ true
      → samples_counted_in path r.points ≡ weight_in py path minute_points

is_more : (n limit : ℕ) → limit < n → ltb limit n ≡ true
is_more n limit l = ground arith

not_more : (n limit : ℕ) → n ≤ limit → ltb limit n ≡ false
not_more n limit l = ground arith

use_rollup-true :
    (n m limit : ℕ) → use_rollup false n m limit ≡ true → (limit < n) ⊎ ((n ≡ 0) × (0 < m))
unfolding use_rollup
use_rollup-true n m limit e = elim (Bool-cases (ltb limit n)) [
  | inl t ↦ inl (ground arith)
  | inr f ↦ inr (ground arith, ground arith)
]

use_rollup-false :
    (n m limit : ℕ) → use_rollup false n m limit ≡ false → (n ≤ limit) × ((0 < n) ⊎ (m ≡ 0))
unfolding use_rollup
use_rollup-false n m limit e = elim (Bool-cases (n == 0)) [
  | inl t ↦ (ground arith, inr (ground arith))
  | inr f ↦ (ground arith, inl (ground arith))
]

module _ {N : Type 0} where
  answer_raw-IsRaw :
      (start_us end_us : ℕ) (selected : List Text) (limit : ℕ)
      (samples minute_points : List (Point N))
      → length samples ≤ limit
      → (0 < length samples) ⊎ (length minute_points ≡ 0)
      → (r : Answer N) × (answer_raw start_us end_us selected limit (some samples) ≡ answers r)
        × IsRaw limit samples minute_points r
  unfolding answer_raw answer
  answer_raw-IsRaw start_us end_us selected limit samples minute_points h k = (
    record {
      resolution = raw;
      from_us = start_us;
      to_us = end_us;
      series = selected;
      point_count = length samples;
      points = samples;
    },
    rw (not_more (length samples) limit h) refl,
    record { few = h; some_sample = k; resolution = refl; points = refl },
  )

module _ {N : Type 0} (py : Python N) (math : Arithmetic N) where
  answer_minutes-IsMinutes :
      (start_us end_us : ℕ) (selected : List Text) (limit : ℕ)
      (samples minute_points : List (Point N))
      → 0 < limit
      → (limit < length samples) ⊎ ((length samples ≡ 0) × (0 < length minute_points))
      → (r : Answer N) × (answer_minutes py math start_us end_us selected limit
            (length minute_points)
            (some minute_points)
          ≡ answers r)
        × IsMinutes py selected limit samples minute_points r
  unfolding answer_minutes answer minutes_of within_limit
  answer_minutes-IsMinutes start_us end_us selected limit samples minute_points h k = (
    _,
    refl,
    record {
      many = k;
      count = refl;
      few = length-within_limit py math selected limit minute_points h;
      resolution = (_, refl, width_enough (length minute_points) _ (omega arith));
      kept = λ l. rw (not_more (length minute_points) limit l) refl;
      coarse = λ path l c.
          rw (is_more (length minute_points) limit l)
            (coarsen_rollup_points_keeps_counts py math minute_points selected limit path c);
    },
  )

module _ {N : Type 0} (py : Python N) (math : Arithmetic N) (paths : Paths) (fast_query : List Text)
    (s : Settings) where
  -- A query that passes its guards and does not insist on samples, over rows that decode, answers.
  -- It answers the samples as they are, where they are at most the limit and there are some of
  -- them or no minutes either. It answers minutes, where the samples are more than the limit, or
  -- there are none but there are minutes: at most as many points as the limit, the minutes
  -- themselves where these are few enough, and else coarse points whose counts of a path that was
  -- asked for add up to what the minutes stand for; the minutes in a point that it tells of are
  -- enough for all of them.
  pub query_unforced :
      (asked : List Text) (start_us end_us : ℕ) (max_points : Option ℕ) (a : Archive)
      (samples minute_points : List (Point N))
      → let selected = from_keys asked in
        let limit = limit_of s max_points in
        refusal s (fast_query ++ paths.platform_capture) selected start_us end_us limit ≡ none
        → raw_points math paths fast_query selected start_us end_us a ≡ some samples
        → rollup_points py math paths selected start_us end_us a ≡ some minute_points
        → (r : Answer N) × (query py math paths fast_query s asked start_us end_us max_points false
              a
            ≡ answers r)
          × (IsRaw limit samples minute_points r
              ⊎ IsMinutes py selected limit samples minute_points r)
  unfolding query query_unless answer_by
  query_unforced asked start_us end_us max_points a samples minute_points e f g =
      let selected = from_keys asked in
      let limit = limit_of s max_points in
      let n_e = length-raw_points math paths fast_query selected start_us end_us a samples f in
      let m_e = length-rollup_points py math paths selected start_us end_us a minute_points g in
      let limits =
        refusal-limit s (fast_query ++ paths.platform_capture) selected start_us end_us limit e in
      elim (Bool-cases (use_rollup false (length samples) (length minute_points) limit)) [
        | inl t ↦
            let (r, done, right) =
              answer_minutes-IsMinutes py math start_us end_us selected limit samples minute_points
                limits.0 (use_rollup-true (length samples) (length minute_points) limit t) in
            (r, rw (e, sym n_e, sym m_e, t, g) done, inr right)
        | inr t ↦
            let (few, some_sample) =
              use_rollup-false (length samples) (length minute_points) limit t in
            let (r, done, right) =
              answer_raw-IsRaw start_us end_us selected limit samples minute_points few
                some_sample in
            (r, rw (e, sym n_e, sym m_e, t, f) done, inl right)
      ]
