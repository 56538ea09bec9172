-- ===== src/Historian/Query/Bounds.antt =====
-- `query` of src/python/gizmo_historian.py: how many points an answer has.
use gizmo.Prelude.{
  ℕ, ◌≤◌, ◌<◌, ◌≡◌, refl, subst, Bool, true, false, Option, none, some, List, ◌++◌, ltb, length,
  arith, if_cases,
}
use gizmo.Text.{Text}
use gizmo.Historian.Store.{Settings}
use gizmo.Historian.Archive.{Archive}
use gizmo.Historian.Recorder.{Python, Paths}
use gizmo.Historian.Points.{Arithmetic, Point}
use gizmo.Historian.Coarse.Counts.{length-coarsen_rollup_points}
use gizmo.Historian.Query.{
  QueryError, Query, answers, rejects, Resolution, Answer, raw, from_keys, limit_of, refusal,
  answer, answer_raw, within_limit, answer_minutes, answer_by, query_unless, query,
}

pub refusal-limit :
    (s : Settings) (known selected : List Text) (start_us end_us limit : ℕ)
    → refusal s known selected start_us end_us limit ≡ none
    → (0 < limit) × (limit ≤ s.max_export_rows)
unfolding refusal
refusal-limit s known selected start_us end_us limit e = ground arith

-- The answer is consistent and within the limit.
pub record IsWithin {N : Type 0} (limit : ℕ) (r : Answer N) : Type 0 where
  pub count : r.point_count ≡ length r.points
  pub few : r.point_count ≤ limit

unfoldable Within : {N : Type 0} → ℕ → Query (Answer N) → Type 0
Within limit (answers r) = IsWithin limit r
Within limit (rejects e) = Unit {0}

module _ {N : Type 0} where
  answer-Within :
      (resolution : Resolution) (start_us end_us : ℕ) (selected : List Text)
      (points : List (Point N)) (limit : ℕ)
      → length points ≤ limit
      → Within limit (answer resolution start_us end_us selected points)
  unfolding answer Within
  answer-Within resolution start_us end_us selected points limit h = record {
    count = refl;
    few = h;
  }

  answer_raw-Within :
      (start_us end_us : ℕ) (selected : List Text) (limit : ℕ) (o : Option (List (Point N)))
      → Within limit (answer_raw start_us end_us selected limit o)
  unfolding answer_raw Within
  answer_raw-Within start_us end_us selected limit none = tt
  answer_raw-Within start_us end_us selected limit (some points) =
      if_cases (Within limit) (ltb limit (length points)) _ _ (λ e. tt)
        (λ e. answer-Within raw start_us end_us selected points limit (ground arith))

module _ {N : Type 0} (py : Python N) (math : Arithmetic N) where
  pub length-within_limit :
      (selected : List Text) (limit : ℕ) (points : List (Point N))
      → 0 < limit
      → length (within_limit py math selected limit points) ≤ limit
  unfolding within_limit
  length-within_limit selected limit points h =
      if_cases (λ (l : List (Point N)). length l ≤ limit) (ltb limit (length points)) _ _
        (λ e. length-coarsen_rollup_points py math points selected limit h) (λ e. ground arith)

  answer_minutes-Within :
      (start_us end_us : ℕ) (selected : List Text) (limit rollup_count : ℕ)
      (o : Option (List (Point N)))
      → 0 < limit
      → Within limit (answer_minutes py math start_us end_us selected limit rollup_count o)
  unfolding answer_minutes Within
  answer_minutes-Within start_us end_us selected limit rollup_count none h = tt
  answer_minutes-Within start_us end_us selected limit rollup_count (some points) h =
      answer-Within _ start_us end_us selected _ limit (length-within_limit selected limit points h)

module _ {N : Type 0} (py : Python N) (math : Arithmetic N) (paths : Paths) (fast_query : List Text)
    (s : Settings) where
  answer_by-Within :
      (selected : List Text) (start_us end_us limit rollup_count : ℕ) (a : Archive) (b : Bool)
      → 0 < limit
      → Within limit
          (answer_by py math paths fast_query s selected start_us end_us limit rollup_count a b)
  unfolding answer_by
  answer_by-Within selected start_us end_us limit rollup_count a true h =
      answer_minutes-Within py math start_us end_us selected limit rollup_count _ h
  answer_by-Within selected start_us end_us limit rollup_count a false h =
      answer_raw-Within start_us end_us selected limit _

  query_unless-IsWithin :
      (o : Option QueryError) (selected : List Text) (start_us end_us limit : ℕ) (force_raw : Bool)
      (a : Archive) (r : Answer N)
      → (o ≡ none → 0 < limit)
      → query_unless py math paths fast_query s o selected start_us end_us limit force_raw a
        ≡ answers r
      → (o ≡ none) × IsWithin limit r
  unfolding query_unless Within
  query_unless-IsWithin (some x) selected start_us end_us limit force_raw a r h e = cc
  query_unless-IsWithin none selected start_us end_us limit force_raw a r h e = (
    refl,
    subst (Within limit) e (answer_by-Within selected start_us end_us limit _ a _ (h refl)),
  )

  -- Where a query answers, the count it gives is that of its points, it is at most the limit that
  -- was asked for or configured, and that limit is at most what may be exported.
  pub query-IsWithin :
      (asked : List Text) (start_us end_us : ℕ) (max_points : Option ℕ) (force_raw : Bool)
      (a : Archive) (r : Answer N)
      → query py math paths fast_query s asked start_us end_us max_points force_raw a ≡ answers r
      → IsWithin (limit_of s max_points) r × (limit_of s max_points ≤ s.max_export_rows)
  unfolding query
  query-IsWithin asked start_us end_us max_points force_raw a r e =
      let refused =
        refusal s (fast_query ++ paths.platform_capture) (from_keys asked) start_us end_us
          (limit_of s max_points) in
      let limits =
        refusal-limit s (fast_query ++ paths.platform_capture) (from_keys asked) start_us end_us
          (limit_of s max_points) in
      let (passed, within) = query_unless-IsWithin refused _ _ _ _ _ _ r (λ n. (limits n).0) e in
      (within, (limits passed).1)
