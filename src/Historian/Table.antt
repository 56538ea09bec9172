-- ===== src/Historian/Table.antt =====
-- The tables of the archive that src/python/gizmo_historian.py keeps WITHOUT ROWID: rows in the
-- order of their primary key. Each function is one SQL statement of the store.
pub mod Laws
use gizmo.Prelude.{
  ℕ, zero, suc, ◌+◌, ◌-◌, ◌<◌, Bool, true, false, not, ◌&&◌, Option, none, some, List, [], ◌∷◌, ltb,
  leb, ◌==◌, if◌then◌else◌, length,
}

module _ {ℓ} {R : Type ℓ} (key : R → ℕ) where
  -- `SELECT … WHERE key=?`
  unfoldable pub find : ℕ → List R → Option R
  find k [] = none
  find k (r ∷ rows) = if key r == k then some r else find k rows

  -- `INSERT … ON CONFLICT(key) DO UPDATE` of all columns
  unfoldable pub upsert : R → List R → List R
  upsert row [] = row ∷ []
  upsert row (r ∷ rows) =
      let rest = upsert row rows in
      if ltb (key row) (key r)
      then row ∷ r ∷ rows
      else if key row == key r
      then row ∷ rows
      else r ∷ rest

  unfoldable pub unless_taken : Option R → List R → Option (List R)
  unless_taken none rows = some rows
  unless_taken (some r) rows = none

  -- `INSERT`; `none` is the IntegrityError of a key that is taken
  unfoldable pub insert : R → List R → Option (List R)
  unfolding unless_taken
  insert row rows = unless_taken (find (key row) rows) (upsert row rows)

  -- `SELECT … WHERE key > ? ORDER BY key`
  unfoldable pub after : ℕ → List R → List R
  after k [] = []
  after k (r ∷ rows) = let rest = after k rows in if ltb k (key r) then r ∷ rest else rest

  -- `SELECT … WHERE key BETWEEN ? AND ? ORDER BY key`
  unfoldable pub between : ℕ → ℕ → List R → List R
  between lo hi [] = []
  between lo hi (r ∷ rows) =
      let rest = between lo hi rows in if leb lo (key r) && leb (key r) hi then r ∷ rest else rest

  -- `DELETE … WHERE key < ?`: the rows that stay
  unfoldable pub delete_below : ℕ → List R → List R
  delete_below cutoff [] = []
  delete_below cutoff (r ∷ rows) =
      let rest = delete_below cutoff rows in if ltb (key r) cutoff then rest else r ∷ rest

  -- Every row has a key above the bound.
  abbrev pub IsAbove : ℕ → List R → Type 0
  IsAbove k [] = Unit {0}
  IsAbove k (r ∷ rows) = (k < key r) × IsAbove k rows

  -- The keys go up: none stands twice.
  abbrev pub IsOrdered : List R → Type 0
  IsOrdered [] = Unit {0}
  IsOrdered (r ∷ rows) = IsAbove (key r) rows × IsOrdered rows
