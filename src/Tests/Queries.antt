-- ===== src/Tests/Queries.antt =====
-- Queries of src/python/gizmo_historian.py at concrete archives, with numbers that are natural.
use gizmo.Prelude.{◌⊎◌, ℕ, ◌*◌, ◌/◌, ◌≤◌, ◌≡◌, refl, true, false, none, some, List, [], ◌∷◌}
use gizmo.Text.{Text, text, text_eq}
use gizmo.Historian.Payload.{words, number, nothing, get, set_item, collect, decode_payload}
use gizmo.Historian.Table.{between}
use gizmo.Historian.Archive.{Archive, new_archive}
use gizmo.Historian.Recorder.{Python, Paths}
use gizmo.Historian.Capture.{minute_of}
use gizmo.Historian.Points.{
  rollup_points, points_for, index_item, path_index, rollup_point, rollup_decoded, rollup_point_of,
  rollup_item, rollup_value, Arithmetic, Point, contains, those_in, rows_for, append_all, cons_some,
  both, public_item, public_payload, platform_point, platform_decoded, platform_point_of,
  insert_point, sort_points, sort_all, raw_points, rollups_between,
}
use gizmo.Historian.Coarse.{coarsen_rollup_points}
use gizmo.Historian.Coarse.Counts.{
  samples_counted_in, weight_in, coarsen_rollup_points_keeps_counts,
}
use gizmo.Historian.Query.{
  Answer, raw, answers, query, from_keys, add_key, limit_of, is_empty, refusal, use_rollup,
  raw_count_of, answer_by, answer_raw, answer, query_unless,
}
use gizmo.Historian.Query.Bounds.{IsWithin, query-IsWithin}
use gizmo.Historian.Query.Unforced.{IsRaw, IsMinutes, query_unforced}
use gizmo.Historian.Accumulator.{Accumulator}
use gizmo.Tests.Recorder.{naturals, one_day}

abbrev path : Text
path = 5 ∷ []

abbrev one_path : Paths
one_path = record {
  fast_capture = [];
  platform_capture = path ∷ [];
  rollup = path ∷ [];
  event = [];
}

abbrev arithmetic : Arithmetic ℕ
arithmetic = record {
  unpack = λ b. some (record { value = number 4; status = []; source_time_us = none } ∷ []);
  divide = λ n m. n / m;
  times = λ n m. n * m;
  infinity = 1_000_000;
  minus_infinity = 0;
}

abbrev two_samples : Archive
two_samples = record new_archive {
  platform_sample =
      record { receive_time_us = 3000; payload = [] }
      ∷ record { receive_time_us = 9000; payload = [] }
      ∷ [];
}

abbrev point_at : ℕ → Point ℕ
point_at t = record {
  time = t;
  sequence = none;
  values =
      (path, record { value = number 4; status = []; source_us = none; aggregate = none }) ∷ [];
  resistance_range = nothing;
  resistance_range_status = none;
}

abbrev both_samples : Answer ℕ
both_samples = record {
  resolution = raw;
  from_us = 1000;
  to_us = 20000;
  series = path ∷ [];
  point_count = 2;
  points = point_at 3 ∷ point_at 9 ∷ [];
}

query_lem :
    query naturals arithmetic one_path [] one_day
      (path ∷ path ∷ [])
      1000
      20000
      none
      false
      two_samples
    ≡ answers both_samples
unfolding query from_keys add_key refusal query_unless answer_by answer_raw answer raw_points
    is_empty contains text_eq limit_of use_rollup raw_count_of rows_for those_in between sort_all
    both append_all cons_some platform_point platform_decoded decode_payload platform_point_of
    collect get set_item public_item public_payload insert_point sort_points rollups_between
    minute_of new_archive
query_lem = refl

query-IsWithin_example :
    IsWithin (limit_of one_day none) both_samples
    × (limit_of one_day none ≤ one_day.max_export_rows)
query-IsWithin_example =
    query-IsWithin naturals arithmetic one_path [] one_day (path ∷ path ∷ []) 1000 20000 none false
      two_samples both_samples query_lem

abbrev minute : Accumulator ℕ
minute = record {
  sample_count = 2;
  high_z_count = 0;
  high_z_status = [];
  series = λ i. some (record {
    first = some 3;
    last = some 5;
    minimum = some 3;
    maximum = some 5;
    total = 8;
    count = 2;
    status = [];
  });
}

abbrev decoding : Python ℕ
decoding = record naturals { decode_rollup = λ b. some minute }

-- Two samples and two minutes, where one point is asked for.
abbrev two_minutes : Archive
two_minutes = record two_samples {
  minute_rollup =
      record { bucket_us = 0; sample_count = 2; payload = []; updated_us = 0 }
      ∷ record { bucket_us = 60_000_000; sample_count = 2; payload = []; updated_us = 0 }
      ∷ [];
}

abbrev minute_at : ℕ → ℕ → Point ℕ
minute_at t us = record {
  time = t;
  sequence = none;
  values =
      (
        path,
        record {
          value = number 4;
          status = [];
          source_us = some us;
          aggregate = some (record {
            first = some 3;
            last = some 5;
            minimum = some 3;
            maximum = some 5;
            count = 2;
          });
        },
      )
      ∷ [];
  resistance_range = words (text "InRange");
  resistance_range_status = some [];
}

abbrev minute_points : List (Point ℕ)
minute_points = minute_at 30_000 30_000_000 ∷ minute_at 90_000 90_000_000 ∷ []

abbrev samples : List (Point ℕ)
samples = point_at 3 ∷ point_at 9 ∷ []

admitted :
    refusal one_day (path ∷ []) (from_keys (path ∷ [])) 1000 120_000_000 (limit_of one_day (some 1))
    ≡ none
unfolding refusal is_empty contains text_eq limit_of from_keys add_key
admitted = refl

read_samples :
    raw_points arithmetic one_path [] (from_keys (path ∷ [])) 1000 120_000_000 two_minutes
    ≡ some samples
unfolding from_keys add_key contains text_eq raw_points rows_for those_in between sort_all both
    append_all cons_some platform_point platform_decoded decode_payload platform_point_of collect
    get set_item public_item public_payload insert_point sort_points new_archive
read_samples = refl

read_minutes :
    rollup_points decoding arithmetic one_path (from_keys (path ∷ [])) 1000 120_000_000 two_minutes
    ≡ some minute_points
unfolding from_keys add_key contains text_eq rollup_points points_for append_all cons_some
    index_item path_index rollups_between minute_of between rollup_point rollup_decoded
    rollup_point_of rollup_item rollup_value new_archive
read_minutes = refl

query_unforced_example :
    (r : Answer ℕ) × (query decoding arithmetic one_path [] one_day
        (path ∷ [])
        1000
        120_000_000
        (some 1)
        false
        two_minutes
      ≡ answers r)
    × (IsRaw (limit_of one_day (some 1)) samples minute_points r
        ⊎ IsMinutes decoding
            (from_keys (path ∷ []))
            (limit_of one_day (some 1))
            samples
            minute_points
            r)
query_unforced_example =
    query_unforced decoding arithmetic one_path [] one_day (path ∷ []) 1000 120_000_000 (some 1)
      two_minutes samples minute_points admitted read_samples read_minutes

path_known : contains path (path ∷ []) ≡ true
unfolding contains text_eq
path_known = refl

coarsen_rollup_points_keeps_counts_example :
    samples_counted_in path (
      coarsen_rollup_points naturals arithmetic
        (point_at 3 ∷ point_at 9 ∷ point_at 12 ∷ [])
        (path ∷ [])
        2)
    ≡ weight_in naturals path (point_at 3 ∷ point_at 9 ∷ point_at 12 ∷ [])
coarsen_rollup_points_keeps_counts_example =
    coarsen_rollup_points_keeps_counts naturals arithmetic
      (point_at 3 ∷ point_at 9 ∷ point_at 12 ∷ []) (path ∷ []) 2 path path_known
