-- ===== src/Historian/Points.antt =====
-- `_raw_points` and `_rollup_points` of src/python/gizmo_historian.py: the points of an answer, of
-- samples and of minutes. Times of points are milliseconds.
use gizmo.Prelude.{
  ℕ, ◌+◌, ◌/◌, Bool, Option, none, some, List, [], ◌∷◌, ◌++◌, map, leb, ◌==◌, if◌then◌else◌, any,
}
use gizmo.Text.{Text, text, text_eq}
use gizmo.Common.{ℤ}
use gizmo.Historian.Accumulator as Accumulator
use gizmo.Historian.Accumulator.{Accumulator}
use gizmo.Historian.Payload.{Value, nothing, number, words, Blob, Dict, get, Entry, decode_payload}
use gizmo.Historian.Table.{between}
use gizmo.Historian.Archive.{
  Archive, FastRow, PlatformRow, RollupRow, fast_key, platform_key, rollup_key,
}
use gizmo.Historian.Recorder.{Python, Paths}
use gizmo.Historian.Capture.{minute_of}

-- Python's arithmetic on numbers in an answer, and the inverse of `pack`.
pub record Arithmetic (N : Type 0) : Type 0 where
  pub unpack : Blob → Option (List (Entry N))
  pub divide : N → ℕ → N
  pub times : N → ℕ → N
  pub infinity : N
  pub minus_infinity : N

pub record Aggregate (N : Type 0) : Type 0 where
  pub first : Option N
  pub last : Option N
  pub minimum : Option N
  pub maximum : Option N
  pub count : ℕ

-- A payload of a point: its time is that which `iso_from_us` writes.
pub record PointPayload (N : Type 0) : Type 0 where
  pub value : Value N
  pub status : Text
  pub source_us : Option ℕ
  pub aggregate : Option (Aggregate N)

pub record Point (N : Type 0) : Type 0 where
  pub time : ℕ
  pub sequence : Option ℤ
  pub values : Dict (PointPayload N)
  pub resistance_range : Value N
  pub resistance_range_status : Option Text

-- `path in paths`
unfoldable pub contains : Text → List Text → Bool
contains path paths = any (text_eq path) paths

-- The paths of the second list that are in the first.
unfoldable pub those_in : List Text → List Text → List Text
those_in known [] = []
those_in known (path ∷ paths) =
    let rest = those_in known paths in if contains path known then path ∷ rest else rest

-- `PATH_INDEX[path]`, from an index on; `none` is a KeyError
unfoldable pub path_index : ℕ → Text → List Text → Option ℕ
path_index index path [] = none
path_index index path (p ∷ paths) =
    let rest = path_index (index + 1) path paths in if text_eq p path then some index else rest

unfoldable pub cons_some {ℓ} : {A : Type ℓ} → Option A → Option (List A) → Option (List A)
cons_some (some a) (some rest) = some (a ∷ rest)
cons_some none rest = none
cons_some (some a) none = none

-- A list that is built of what each round of a loop appends; `none` is an exception.
unfoldable pub append_all {ℓ κ} :
    {A : Type ℓ} {B : Type κ} → (A → Option B) → List A → Option (List B)
append_all f [] = some []
append_all f (a ∷ rest) = cons_some (f a) (append_all f rest)

unfoldable pub both {ℓ} : {A : Type ℓ} → Option (List A) → Option (List A) → Option (List A)
both (some xs) (some ys) = some (xs ++ ys)
both none ys = none
both (some xs) none = none

-- The minutes of an interval.
unfoldable pub rollups_between : ℕ → ℕ → Archive → List RollupRow
rollups_between start_us end_us a =
    between rollup_key (minute_of start_us) (minute_of end_us) a.minute_rollup

-- A table is read where one of its paths is asked for.
unfoldable pub rows_for {ℓ} : {R : Type ℓ} → List Text → List R → List R
rows_for [] rows = []
rows_for (path ∷ selected) rows = rows

module _ {N : Type 0} where
  -- `_public_payload`
  unfoldable pub public_payload : Entry N → PointPayload N
  public_payload e = record {
    value = e.value;
    status = e.status;
    source_us = e.source_time_us;
    aggregate = none;
  }

  -- `(path, _public_payload(decoded[path]))`; `none` is a KeyError
  unfoldable pub public_item : Dict (Entry N) → Text → Option (Text × PointPayload N)
  public_item decoded path = elim (get path decoded) [
    | none ↦ none
    | some e ↦ some (path, public_payload e)
  ]

  unfoldable pub fast_point_of :
      FastRow → Option (Dict (PointPayload N)) → Option (Entry N) → Option (Point N)
  fast_point_of row none range = none
  fast_point_of row (some values) none = none
  fast_point_of row (some values) (some range) = some (record {
    time = row.receive_time_us / 1000;
    sequence = row.sequence;
    values = values;
    resistance_range = range.value;
    resistance_range_status = some range.status;
  })

  unfoldable pub platform_point_of : PlatformRow → Option (Dict (PointPayload N)) → Option (Point N)
  platform_point_of row none = none
  platform_point_of row (some values) = some (record {
    time = row.receive_time_us / 1000;
    sequence = none;
    values = values;
    resistance_range = nothing;
    resistance_range_status = none;
  })

  -- `points.sort(key=…)`, which is stable
  unfoldable pub insert_point : Point N → List (Point N) → List (Point N)
  insert_point p [] = p ∷ []
  insert_point p (q ∷ points) =
      let rest = insert_point p points in if leb p.time q.time then p ∷ q ∷ points else q ∷ rest

  unfoldable pub sort_points : List (Point N) → List (Point N)
  sort_points [] = []
  sort_points (p ∷ points) = insert_point p (sort_points points)

  unfoldable pub sort_all : Option (List (Point N)) → Option (List (Point N))
  sort_all none = none
  sort_all (some points) = some (sort_points points)

  unfoldable pub fast_decoded : List Text → FastRow → Option (Dict (Entry N)) → Option (Point N)
  fast_decoded fast_paths row none = none
  fast_decoded fast_paths row (some decoded) =
      fast_point_of row (append_all (public_item decoded) fast_paths)
        (get (text "Measurement.ResistanceRange") decoded)

  unfoldable pub platform_decoded :
      List Text → PlatformRow → Option (Dict (Entry N)) → Option (Point N)
  platform_decoded platform_paths row none = none
  platform_decoded platform_paths row (some decoded) =
      platform_point_of row (append_all (public_item decoded) platform_paths)

module _ {N : Type 0} (math : Arithmetic N) (paths : Paths) (fast_query : List Text) where
  unfoldable pub fast_point : List Text → FastRow → Option (Point N)
  fast_point fast_paths row =
      fast_decoded fast_paths row (decode_payload math.unpack paths.fast_capture row.payload)

  unfoldable pub platform_point : List Text → PlatformRow → Option (Point N)
  platform_point platform_paths row =
      platform_decoded platform_paths row
        (decode_payload math.unpack paths.platform_capture row.payload)

  -- `_raw_points`; PLATFORM_QUERY_PATHS are the paths of a platform sample
  unfoldable pub raw_points : List Text → ℕ → ℕ → Archive → Option (List (Point N))
  raw_points selected start_us end_us a =
      let fast_paths = those_in fast_query selected in
      let platform_paths = those_in paths.platform_capture selected in
      sort_all (
        both
          (append_all (fast_point fast_paths)
            (rows_for fast_paths (between fast_key start_us end_us a.fast_sample)))
          (append_all (platform_point platform_paths)
            (rows_for platform_paths (between platform_key start_us end_us a.platform_sample))))

module _ {N : Type 0} (py : Python N) (math : Arithmetic N) (paths : Paths) where
  -- The payload of one series of a minute.
  unfoldable pub rollup_value : ℕ → Option (Accumulator.Entry N) → PointPayload N
  rollup_value bucket none = record {
    value = nothing;
    status = text "BadNoData";
    source_us = none;
    aggregate = none;
  }
  rollup_value bucket (some item) = record {
    value = if item.count == 0 then nothing else number (math.divide item.total item.count);
    status = item.status;
    source_us = some (bucket + 30_000_000);
    aggregate = some (record {
      first = item.first;
      last = item.last;
      minimum = item.minimum;
      maximum = item.maximum;
      count = item.count;
    });
  }

  -- `PATH_INDEX[path]` with the path; `none` is a KeyError
  unfoldable pub index_item : Text → Option (Text × ℕ)
  index_item path = elim (path_index 0 path paths.rollup) [
    | none ↦ none
    | some index ↦ some (path, index)
  ]

  unfoldable pub rollup_item : ℕ → Accumulator N → Text × ℕ → Text × PointPayload N
  rollup_item bucket a (path, index) = (path, rollup_value bucket (a.series index))

  unfoldable pub rollup_point_of : List (Text × ℕ) → ℕ → Accumulator N → Point N
  rollup_point_of indexes bucket a = record {
    time = (bucket + 30_000_000) / 1000;
    sequence = none;
    values = map (rollup_item bucket a) indexes;
    resistance_range = words (if a.high_z_count == 0 then text "InRange" else text "OutOfRange");
    resistance_range_status = some a.high_z_status;
  }

  unfoldable pub rollup_decoded : List (Text × ℕ) → ℕ → Option (Accumulator N) → Option (Point N)
  rollup_decoded indexes bucket none = none
  rollup_decoded indexes bucket (some a) = some (rollup_point_of indexes bucket a)

  unfoldable pub rollup_point : List (Text × ℕ) → RollupRow → Option (Point N)
  rollup_point indexes row = rollup_decoded indexes row.bucket_us (py.decode_rollup row.payload)

  unfoldable pub points_for : List RollupRow → Option (List (Text × ℕ)) → Option (List (Point N))
  points_for rows none = none
  points_for rows (some indexes) = append_all (rollup_point indexes) rows

  -- `_rollup_points`
  unfoldable pub rollup_points : List Text → ℕ → ℕ → Archive → Option (List (Point N))
  rollup_points selected start_us end_us a =
      points_for (rollups_between start_us end_us a) (append_all index_item selected)
