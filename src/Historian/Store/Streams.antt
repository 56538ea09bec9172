-- ===== src/Historian/Store/Streams.antt =====
-- The table `stream` of src/python/gizmo_historian.py, to whose ids other tables refer.
use gizmo.Prelude.{ℕ, ◌+◌, ◌≡◌, refl, Bool, true, List, [], ◌∷◌, ◌++◌, map, ◌==◌, any, arith, subst}
use gizmo.Historian.Table.{upsert, delete_below, IsAbove, IsOrdered}
use gizmo.Historian.Table.Laws.{
  IsBelow, IsBelow-append, weaken-IsBelow, upsert-last, upsert-IsOrdered,
}
use gizmo.Historian.Archive.{StreamRow}

abbrev pub stream_key : StreamRow → ℕ
stream_key s = s.id

-- A stream of that id is there.
unfoldable pub known : ℕ → List StreamRow → Bool
known id streams = any (λ (s : StreamRow). s.id == id) streams

-- Each row refers to a stream that is there.
abbrev pub AllKnown {ℓ} : {R : Type ℓ} → (R → ℕ) → List StreamRow → List R → Type 0
AllKnown id streams [] = Unit {0}
AllKnown id streams (r ∷ rows) = (known (id r) streams ≡ true) × AllKnown id streams rows

pub known-append :
    (id : ℕ) (streams new : List StreamRow)
    → known id streams ≡ true
    → known id (streams ++ new) ≡ true
unfolding known
known-append id [] new k = cc
known-append id (s ∷ streams) new k = ground (arith, known-append id streams new)

pub known-last : (s : StreamRow) (streams : List StreamRow) → known s.id (streams ++ s ∷ []) ≡ true
unfolding known
known-last s [] = ground arith
known-last s (t ∷ streams) = ground (arith, known-last s streams)

module _ (f : StreamRow → StreamRow) (keeps : (s : StreamRow) → (f s).id ≡ s.id) where
  pub known-map : (id : ℕ) (streams : List StreamRow) → known id (map f streams) ≡ known id streams
  unfolding known
  known-map id [] = refl
  known-map id (s ∷ streams) = rw (keeps s, known-map id streams)

  pub map-IsBelow :
      (k : ℕ) (streams : List StreamRow)
      → IsBelow stream_key k streams
      → IsBelow stream_key k (map f streams)
  map-IsBelow k [] b = tt
  map-IsBelow k (s ∷ streams) b = (rw (keeps s) b.0, map-IsBelow k streams b.1)

  map-IsAbove :
      (k : ℕ) (streams : List StreamRow)
      → IsAbove stream_key k streams
      → IsAbove stream_key k (map f streams)
  map-IsAbove k [] a = tt
  map-IsAbove k (s ∷ streams) a = (rw (keeps s) a.0, map-IsAbove k streams a.1)

  pub map-IsOrdered :
      (streams : List StreamRow)
      → IsOrdered stream_key streams
      → IsOrdered stream_key (map f streams)
  map-IsOrdered [] o = tt
  map-IsOrdered (s ∷ streams) o =
      (rw (keeps s) (map-IsAbove s.id streams o.0), map-IsOrdered streams o.1)

module _ {ℓ} {R : Type ℓ} (id : R → ℕ) where
  pub AllKnown_grow :
      (old new : List StreamRow) (rows : List R)
      → ((k : ℕ) → known k old ≡ true → known k new ≡ true)
      → AllKnown id old rows
      → AllKnown id new rows
  AllKnown_grow old new [] g a = tt
  AllKnown_grow old new (r ∷ rows) g a = (g (id r) a.0, AllKnown_grow old new rows g a.1)

  pub upsert-AllKnown :
      (key : R → ℕ) (streams : List StreamRow) (row : R) (rows : List R)
      → known (id row) streams ≡ true
      → AllKnown id streams rows
      → AllKnown id streams (upsert key row rows)
  unfolding upsert
  upsert-AllKnown key streams row [] k a = (k, tt)
  upsert-AllKnown key streams row (r ∷ rows) k a =
      ground (arith, upsert-AllKnown key streams row rows)

  pub delete_below-AllKnown :
      (key : R → ℕ) (streams : List StreamRow) (cutoff : ℕ) (rows : List R)
      → AllKnown id streams rows
      → AllKnown id streams (delete_below key cutoff rows)
  unfolding delete_below
  delete_below-AllKnown key streams cutoff [] a = tt
  delete_below-AllKnown key streams cutoff (r ∷ rows) a =
      ground (arith, delete_below-AllKnown key streams cutoff rows)

-- A row behind all others, in a table whose ids are handed out in order.
pub append-IsOrdered {ℓ} :
    {R : Type ℓ} (key : R → ℕ) (row : R) (rows : List R)
    → IsBelow key (key row) rows
    → IsOrdered key rows
    → IsOrdered key (rows ++ row ∷ [])
append-IsOrdered key row rows b o =
    subst (IsOrdered key) (upsert-last key row rows b) (upsert-IsOrdered key row rows o)

pub append-IsBelow {ℓ} :
    {R : Type ℓ} (key : R → ℕ) (row : R) (rows : List R)
    → IsBelow key (key row) rows
    → IsBelow key (key row + 1) (rows ++ row ∷ [])
append-IsBelow key row rows b =
    IsBelow-append key (key row + 1) rows (row ∷ [])
      (weaken-IsBelow key (key row) (key row + 1) rows (omega arith) b) (omega arith, tt)
