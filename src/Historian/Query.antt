-- ===== src/Historian/Query.antt =====
-- `query` and `query_events` of src/python/gizmo_historian.py: what is asked, in samples or in
-- minutes. The archive stands still while a query reads it.
pub mod Bounds
pub mod Unforced
use gizmo.Prelude.{
  ℕ, zero, suc, ◌+◌, ◌-◌, ◌*◌, ◌/◌, Bool, true, false, not, ◌&&◌, ◌||◌, Option, none, some, List,
  [], ◌∷◌, ◌++◌, foldl, leb, ltb, ◌==◌, if◌then◌else◌, any, all, length, take,
}
use Prim.Native.Nat.{max}
use gizmo.Text.{Text, text, text_eq}
use gizmo.Historian.Table.{between}
use gizmo.Historian.Store.{Settings}
use gizmo.Historian.Archive.{Archive, EventRow, fast_key, platform_key}
use gizmo.Historian.Recorder.{Python, Paths}
use gizmo.Historian.Points.{
  Arithmetic, Point, contains, those_in, rows_for, raw_points, rollup_points, rollups_between,
}
use gizmo.Historian.Coarse.{ceil_divide, coarsen_rollup_points}

-- The ValueErrors of a query, and `broken` for an exception of the rows that it reads.
pub data QueryError : Type 0 where
  no_series unknown_series bad_interval beyond_retention bad_limit too_many_points broken :
      QueryError

pub data Query {ℓ} (A : Type ℓ) : Type ℓ where
  answers : A → Query A
  rejects : QueryError → Query A

pub data Resolution : Type 0 where
  raw : Resolution
  minutes : ℕ → Resolution

pub record Answer (N : Type 0) : Type 0 where
  pub resolution : Resolution
  pub from_us : ℕ
  pub to_us : ℕ
  pub series : List Text
  pub point_count : ℕ
  pub points : List (Point N)

-- `dict.fromkeys(paths)`
unfoldable pub add_key : List Text → Text → List Text
add_key keys path = if contains path keys then keys else keys ++ path ∷ []

unfoldable pub from_keys : List Text → List Text
from_keys paths = foldl add_key [] paths

-- `max_points or self.max_query_points`
unfoldable pub limit_of : Settings → Option ℕ → ℕ
limit_of s none = s.max_query_points
limit_of s (some zero) = s.max_query_points
limit_of s (some (suc n)) = suc n

unfoldable pub is_empty : List Text → Bool
is_empty [] = true
is_empty (path ∷ paths) = false

-- The guard that the arguments do not pass, if there is one.
unfoldable pub refusal : Settings → List Text → List Text → ℕ → ℕ → ℕ → Option QueryError
refusal s known selected start_us end_us limit =
    if is_empty selected
    then some no_series
    else if not (all (λ path. contains path known) selected)
    then some unknown_series
    else if leb end_us start_us
    then some bad_interval
    else if s.retention_enabled
        && ltb (s.event_retention_days * 86400 * 1_000_000) (end_us - start_us)
    then some beyond_retention
    else if not (leb 1 limit && leb limit s.max_export_rows)
    then some bad_limit
    else none

-- `not force_raw and (…)`
unfoldable pub use_rollup : Bool → ℕ → ℕ → ℕ → Bool
use_rollup force_raw raw_count rollup_count limit =
    not force_raw && (ltb limit raw_count || raw_count == 0 && ltb 0 rollup_count)

-- `max(1, math.ceil(rollup_count / max(1, len(points))))`
unfoldable pub minutes_of : ℕ → ℕ → ℕ
minutes_of rollup_count count = max 1 (ceil_divide rollup_count (max 1 count))

module _ {N : Type 0} where
  unfoldable pub answer : Resolution → ℕ → ℕ → List Text → List (Point N) → Query (Answer N)
  answer resolution start_us end_us selected points = answers (record {
    resolution = resolution;
    from_us = start_us;
    to_us = end_us;
    series = selected;
    point_count = length points;
    points = points;
  })

  -- The rest of a query whose points are samples.
  unfoldable pub answer_raw : ℕ → ℕ → List Text → ℕ → Option (List (Point N)) → Query (Answer N)
  answer_raw start_us end_us selected limit none = rejects broken
  answer_raw start_us end_us selected limit (some points) =
      if ltb limit (length points)
      then rejects too_many_points
      else answer raw start_us end_us selected points

module _ {N : Type 0} (py : Python N) (math : Arithmetic N) where
  -- The points, coarsened where they are too many.
  unfoldable pub within_limit : List Text → ℕ → List (Point N) → List (Point N)
  within_limit selected limit points =
      if ltb limit (length points)
      then coarsen_rollup_points py math points selected limit
      else points

  unfoldable pub answer_minutes :
      ℕ → ℕ → List Text → ℕ → ℕ → Option (List (Point N)) → Query (Answer N)
  answer_minutes start_us end_us selected limit rollup_count none = rejects broken
  answer_minutes start_us end_us selected limit rollup_count (some points) =
      let few = within_limit selected limit points in
      answer (minutes (minutes_of rollup_count (length few))) start_us end_us selected few

-- The samples of the tables that a query reads.
unfoldable pub raw_count_of : List Text → List Text → List Text → ℕ → ℕ → Archive → ℕ
raw_count_of fast_query platform_query selected start_us end_us a =
    length
      (rows_for (those_in fast_query selected) (between fast_key start_us end_us a.fast_sample))
    + length (
        rows_for (those_in platform_query selected)
          (between platform_key start_us end_us a.platform_sample))

module _ {N : Type 0} (py : Python N) (math : Arithmetic N) (paths : Paths) (fast_query : List Text)
    (s : Settings) where
  unfoldable pub answer_by : List Text → ℕ → ℕ → ℕ → ℕ → Archive → Bool → Query (Answer N)
  answer_by selected start_us end_us limit rollup_count a false =
      answer_raw start_us end_us selected limit
        (raw_points math paths fast_query selected start_us end_us a)
  answer_by selected start_us end_us limit rollup_count a true =
      answer_minutes py math start_us end_us selected limit rollup_count
        (rollup_points py math paths selected start_us end_us a)

  unfoldable pub query_unless :
      Option QueryError → List Text → ℕ → ℕ → ℕ → Bool → Archive → Query (Answer N)
  query_unless (some e) selected start_us end_us limit force_raw a = rejects e
  query_unless none selected start_us end_us limit force_raw a =
      let raw_count = raw_count_of fast_query paths.platform_capture selected start_us end_us a in
      let rollup_count = length (rollups_between start_us end_us a) in
      answer_by selected start_us end_us limit rollup_count a
        (use_rollup force_raw raw_count rollup_count limit)

  -- `query`
  unfoldable pub query : List Text → ℕ → ℕ → Option ℕ → Bool → Archive → Query (Answer N)
  query asked start_us end_us max_points force_raw a =
      let selected = from_keys asked in
      let limit = limit_of s max_points in
      query_unless (refusal s (fast_query ++ paths.platform_capture) selected start_us end_us limit)
        selected start_us end_us limit force_raw a

-- `ORDER BY time_us`, where rows of one time stay in the order of their ids
unfoldable pub insert_event_row : EventRow → List EventRow → List EventRow
insert_event_row e [] = e ∷ []
insert_event_row e (f ∷ rows) =
    let rest = insert_event_row e rows in if leb e.time_us f.time_us then e ∷ f ∷ rows else f ∷ rest

-- `WHERE time_us BETWEEN ? AND ? ORDER BY time_us`
unfoldable pub events_between : ℕ → ℕ → List EventRow → List EventRow
events_between start_us end_us [] = []
events_between start_us end_us (e ∷ rows) =
    let rest = events_between start_us end_us rows in
    if leb start_us e.time_us && leb e.time_us end_us then insert_event_row e rest else rest

-- `query_events`, with the details left in JSON
unfoldable pub query_events : ℕ → ℕ → ℕ → Archive → Query (List EventRow)
query_events start_us end_us limit a =
    if leb 1 limit && leb limit 5000
    then answers (take limit (events_between start_us end_us a.event))
    else rejects bad_limit
