-- ===== src/Historian/Sync/Sending.antt =====
-- A batch of platform samples: what `replication_batch` of src/python/gizmo_historian.py makes of an
-- archive, and the head that `import_replication_batch` reads of it.
use gizmo.Prelude.{
  ℕ, zero, suc, ◌+◌, ◌<◌, ◌≤◌, ◌≡◌, refl, ap, ◌∙◌, true, some, List, [], ◌∷◌, ◌++◌, map, ltb,
  length, take, arith, le→leb,
}
use gizmo.Text.{Text, strip}
use gizmo.Common.{pos}
use gizmo.Historian.Payload.{Blob}
use gizmo.Historian.Table.{IsAbove}
use gizmo.Historian.Table.Laws.{IsBelow, after-append}
use gizmo.Historian.Archive.{Archive, PlatformRow, platform_key}
use gizmo.Historian.Replication.{
  platform_sample, table_name, Row, platform, Position, ok, encode_row, replication_position,
  last_position, make_batch, replication_batch, Batch, streams_of, schema, max_batch_size, natural,
  rows_after,
}
use gizmo.Historian.Replication.Tables.{table_of-name}
use native.Mathlib.Numerals.{add-one}
use gizmo.Historian.Incoming.{Head, check_head, source_expected, nonempty}
use gizmo.Historian.Replica.Rows.{last_key}

take-map {ℓ κ} :
    {A : Type ℓ} {B : Type κ} (f : A → B) (n : ℕ) (xs : List A)
    → take n (map f xs) ≡ map f (take n xs)
take-map f zero xs = refl
take-map f (suc n) [] = refl
take-map f (suc n) (x ∷ xs) = ap (λ ys. f x ∷ ys) (take-map f n xs)

take-take {ℓ} : {A : Type ℓ} (n : ℕ) (xs : List A) → take n (take (suc n) xs) ≡ take n xs
take-take zero xs = refl
take-take (suc n) [] = refl
take-take (suc n) (x ∷ xs) = ap (λ ys. x ∷ ys) (take-take n xs)

map-map {ℓ κ μ} :
    {A : Type ℓ} {B : Type κ} {C : Type μ} (g : B → C) (f : A → B) (xs : List A)
    → map g (map f xs) ≡ map (λ x. g (f x)) xs
map-map g f [] = refl
map-map g f (x ∷ xs) = ap (λ ys. g (f x) ∷ ys) (map-map g f xs)

length-map {ℓ κ} :
    {A : Type ℓ} {B : Type κ} (f : A → B) (xs : List A) → length (map f xs) ≡ length xs
length-map f [] = refl
length-map f (x ∷ xs) = ap suc (length-map f xs)

last_position-start :
    (p q : Position) (row : Row) (rows : List Row)
    → last_position platform_sample p (row ∷ rows) ≡ last_position platform_sample q (row ∷ rows)
unfolding last_position
last_position-start p q row [] = refl
last_position-start p q row (s ∷ rows) = last_position-start p q s rows

last_position-platform :
    (k : ℕ) (rows : List PlatformRow)
    → last_position platform_sample (k, 0) (map platform rows) ≡ some (last_key k rows, 0)
unfolding last_position last_key replication_position
last_position-platform k [] = refl
last_position-platform k (r ∷ []) = refl
last_position-platform k (r ∷ s ∷ rows) =
    last_position-start (k, 0) (r.receive_time_us, 0) (platform s) (map platform rows)
    ∙ last_position-platform r.receive_time_us (s ∷ rows)

module _ (b64encode : Blob → Text) (identity : Text × Text) where
  -- The batch of the first rows of those that are still to come.
  unfoldable pub platform_batch : ℕ → ℕ → List PlatformRow → Archive → Batch
  platform_batch k limit todo a = record {
    replication_version = 1;
    schema_version = schema;
    source = some identity;
    table = table_name platform_sample;
    after_position = (k, 0);
    cursor = some (pos (last_key k (take limit todo)), pos 0);
    has_more = ltb limit (length (take (suc limit) todo));
    streams = some (streams_of (map platform (take limit todo)) a.stream);
    rows = some (map (λ (r : PlatformRow). encode_row b64encode (platform r)) (take limit todo));
  }

  pub make_batch-platform :
      (a : Archive) (done todo : List PlatformRow) (k limit : ℕ)
      → a.platform_sample ≡ done ++ todo
      → IsBelow platform_key (k + 1) done
      → IsAbove platform_key k todo
      → make_batch b64encode identity platform_sample (k, 0) limit a
        ≡ ok (platform_batch k limit todo a)
  unfolding make_batch platform_batch rows_after
  make_batch-platform a done todo k limit e b u = rw (
    e,
    after-append platform_key k done todo b u,
    add-one,
    take-take limit (map platform todo),
    take-map platform limit todo,
    last_position-platform k (take limit todo),
    take-map platform (suc limit) todo,
    length-map platform (take (suc limit) todo),
    map-map (encode_row b64encode) platform (take limit todo),
  )

  pub replication_batch-platform :
      (a : Archive) (done todo : List PlatformRow) (k limit : ℕ)
      → a.platform_sample ≡ done ++ todo
      → IsBelow platform_key (k + 1) done
      → IsAbove platform_key k todo
      → 0 < limit
      → limit ≤ max_batch_size
      → replication_batch b64encode identity
          (table_name platform_sample)
          (pos k)
          (pos 0)
          (pos limit)
          a
        ≡ ok (platform_batch k limit todo a)
  unfolding replication_batch natural
  replication_batch-platform a done todo k limit e b u h m =
      rw
        (table_of-name platform_sample, le→leb 1 limit (omega arith), le→leb limit max_batch_size m)
        (make_batch-platform a done todo k limit e b u)

  unfoldable pub head_of : ℕ → ℕ → List PlatformRow → Archive → Head
  head_of k limit todo a = record {
    table = platform_sample;
    source_id = strip identity.0;
    hostname = strip identity.1;
    streams = streams_of (map platform (take limit todo)) a.stream;
    rows = map (λ (r : PlatformRow). encode_row b64encode (platform r)) (take limit todo);
    cursor = (last_key k (take limit todo), 0);
  }

  pub check_head-platform :
      (a : Archive) (todo : List PlatformRow) (k limit : ℕ) (expected : Text)
      → nonempty (strip identity.0) ≡ true
      → nonempty (strip identity.1) ≡ true
      → source_expected expected (strip identity.0) ≡ true
      → check_head (platform_batch k limit todo a) expected ≡ ok (head_of k limit todo a)
  unfolding check_head platform_batch head_of natural
  check_head-platform a todo k limit expected i h x = rw (table_of-name platform_sample, i, h, x)
