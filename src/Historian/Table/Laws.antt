-- ===== src/Historian/Table/Laws.antt =====
-- The statements of a table kept in key order.
use gizmo.Prelude.{
  ℕ, ◌+◌, ◌<◌, ◌≤◌, ◌≡◌, refl, Option, none, some, Option, List, [], ◌∷◌, ◌++◌, ltb, ◌==◌,
  if◌then◌else◌, arith,
}
use gizmo.Historian.Table.{
  find, unless_taken, insert, upsert, after, delete_below, IsAbove, IsOrdered,
}

module _ {ℓ} {R : Type ℓ} (key : R → ℕ) where
  pub weaken-IsAbove : (j k : ℕ) (rows : List R) → j ≤ k → IsAbove key k rows → IsAbove key j rows
  weaken-IsAbove j k [] h a = tt
  weaken-IsAbove j k (r ∷ rows) h a = (omega arith, weaken-IsAbove j k rows h a.1)

  pub find-IsAbove : (j k : ℕ) (rows : List R) → IsAbove key k rows → j ≤ k → find key j rows ≡ none
  unfolding find
  find-IsAbove j k [] a h = refl
  find-IsAbove j k (r ∷ rows) a h = ground (arith, find-IsAbove j k rows)

  upsert-IsAbove :
      (k : ℕ) (row : R) (rows : List R)
      → k < key row
      → IsAbove key k rows
      → IsAbove key k (upsert key row rows)
  unfolding upsert
  upsert-IsAbove k row [] h a = ground arith
  upsert-IsAbove k row (r ∷ rows) h a = ground (arith, upsert-IsAbove k row rows)

  pub upsert-IsOrdered :
      (row : R) (rows : List R) → IsOrdered key rows → IsOrdered key (upsert key row rows)
  unfolding upsert
  upsert-IsOrdered row [] o = ground arith
  upsert-IsOrdered row (r ∷ rows) o = ground (
    arith,
    upsert-IsOrdered row rows,
    upsert-IsAbove (key r) row rows,
    weaken-IsAbove (key row) (key r) rows,
  )

  -- What the table holds behind an upsertion.
  pub find-upsert :
      (k : ℕ) (row : R) (rows : List R)
      → IsOrdered key rows
      → find key k (upsert key row rows) ≡ (if key row == k then some row else find key k rows)
  unfolding upsert find
  find-upsert k row [] o = ground arith
  find-upsert k row (r ∷ rows) o =
      ground (arith, find-upsert k row rows, find-IsAbove k (key r) rows)

  pub after-IsAbove : (k : ℕ) (rows : List R) → IsAbove key k rows → after key k rows ≡ rows
  unfolding after
  after-IsAbove k [] a = refl
  after-IsAbove k (r ∷ rows) a = ground (arith, after-IsAbove k rows)

  -- Every row has a key below the bound.
  abbrev pub IsBelow : ℕ → List R → Type 0
  IsBelow k [] = Unit {0}
  IsBelow k (r ∷ rows) = (key r < k) × IsBelow k rows

  pub weaken-IsBelow : (j k : ℕ) (rows : List R) → j ≤ k → IsBelow j rows → IsBelow k rows
  weaken-IsBelow j k [] h b = tt
  weaken-IsBelow j k (r ∷ rows) h b = (omega arith, weaken-IsBelow j k rows h b.1)

  pub IsBelow-append :
      (k : ℕ) (rows new : List R) → IsBelow k rows → IsBelow k new → IsBelow k (rows ++ new)
  IsBelow-append k [] new b c = c
  IsBelow-append k (r ∷ rows) new b c = (b.0, IsBelow-append k rows new b.1 c)

  -- A row behind all others.
  pub upsert-last :
      (row : R) (rows : List R) → IsBelow (key row) rows → upsert key row rows ≡ rows ++ (row ∷ [])
  unfolding upsert
  upsert-last row [] h = refl
  upsert-last row (r ∷ rows) h = ground (arith, upsert-last row rows)

  pub find-IsBelow : (k : ℕ) (rows : List R) → IsBelow k rows → find key k rows ≡ none
  unfolding find
  find-IsBelow k [] h = refl
  find-IsBelow k (r ∷ rows) h = ground (arith, find-IsBelow k rows)

  pub insert-last :
      (row : R) (rows : List R)
      → IsBelow (key row) rows
      → insert key row rows ≡ some (rows ++ row ∷ [])
  unfolding insert unless_taken
  insert-last row rows h = rw (find-IsBelow (key row) rows h, upsert-last row rows h)

  unless_taken-eq-some :
      (o : Option R) (rows : List R) {result : List R}
      → unless_taken key o rows ≡ some result
      → result ≡ rows
  unfolding unless_taken
  unless_taken-eq-some none rows e = ground arith
  unless_taken-eq-some (some r) rows e = cc

  -- An INSERT that ends well is the upsertion of a new row.
  pub insert-eq-some :
      (row : R) (rows : List R) {result : List R}
      → insert key row rows ≡ some result
      → result ≡ upsert key row rows
  unfolding insert
  insert-eq-some row rows e = unless_taken-eq-some (find key (key row) rows) (upsert key row rows) e

  pub insert_fresh :
      (row : R) (rows : List R)
      → find key (key row) rows ≡ none
      → insert key row rows ≡ some (upsert key row rows)
  unfolding insert unless_taken
  insert_fresh row rows e = rw e

  -- What stands behind the rows up to a key.
  pub after-append :
      (k : ℕ) (old new : List R)
      → IsBelow (k + 1) old
      → IsAbove key k new
      → after key k (old ++ new) ≡ new
  unfolding after
  after-append k [] new h a = after-IsAbove k new a
  after-append k (r ∷ old) new h a = ground (arith, after-append k old new)

  pub find-delete_below :
      (k cutoff : ℕ) (rows : List R)
      → find key k (delete_below key cutoff rows) ≡ (if ltb k cutoff then none else find key k rows)
  unfolding delete_below find
  find-delete_below k cutoff [] = ground arith
  find-delete_below k cutoff (r ∷ rows) = ground (arith, find-delete_below k cutoff rows)

-- What a deletion by one column leaves of an order by another.
module _ {ℓ} {R : Type ℓ} (key column : R → ℕ) (cutoff : ℕ) where
  delete_below-IsAbove :
      (k : ℕ) (rows : List R) → IsAbove key k rows → IsAbove key k (delete_below column cutoff rows)
  unfolding delete_below
  delete_below-IsAbove k [] a = tt
  delete_below-IsAbove k (r ∷ rows) a = ground (arith, delete_below-IsAbove k rows)

  pub delete_below-IsBelow :
      (k : ℕ) (rows : List R) → IsBelow key k rows → IsBelow key k (delete_below column cutoff rows)
  unfolding delete_below
  delete_below-IsBelow k [] b = tt
  delete_below-IsBelow k (r ∷ rows) b = ground (arith, delete_below-IsBelow k rows)

  pub delete_below-IsOrdered :
      (rows : List R) → IsOrdered key rows → IsOrdered key (delete_below column cutoff rows)
  unfolding delete_below
  delete_below-IsOrdered [] o = tt
  delete_below-IsOrdered (r ∷ rows) o =
      ground (arith, delete_below-IsOrdered rows, delete_below-IsAbove (key r) rows)
