-- ===== src/Historian/Sync/Parts.antt =====
-- The rows of a batch and the rows behind them: the parts of what a board still has for a replica.
use gizmo.Prelude.{ℕ, zero, suc, ◌≡◌, refl, List, [], ◌∷◌, ltb, take, drop, length, arith, false}
use gizmo.Text.{Text}
use gizmo.Historian.Payload.{Blob}
use gizmo.Historian.Table.{IsAbove, IsOrdered}
use gizmo.Historian.Archive.{PlatformRow, platform_key}
use gizmo.Historian.Incoming.{Codec}
use gizmo.Historian.Replica.Rows.{last_key, AllArrive}

pub take-IsAbove :
    (n k : ℕ) (rows : List PlatformRow)
    → IsAbove platform_key k rows
    → IsAbove platform_key k (take n rows)
take-IsAbove zero k rows a = tt
take-IsAbove (suc n) k [] a = tt
take-IsAbove (suc n) k (r ∷ rows) a = (a.0, take-IsAbove n k rows a.1)

pub take-IsOrdered :
    (n : ℕ) (rows : List PlatformRow)
    → IsOrdered platform_key rows
    → IsOrdered platform_key (take n rows)
take-IsOrdered zero rows o = tt
take-IsOrdered (suc n) [] o = tt
take-IsOrdered (suc n) (r ∷ rows) o =
    (take-IsAbove n r.receive_time_us rows o.0, take-IsOrdered n rows o.1)

pub drop-IsOrdered :
    (n : ℕ) (rows : List PlatformRow)
    → IsOrdered platform_key rows
    → IsOrdered platform_key (drop n rows)
drop-IsOrdered zero rows o = o
drop-IsOrdered (suc n) [] o = tt
drop-IsOrdered (suc n) (r ∷ rows) o = drop-IsOrdered n rows o.1

pub drop-IsAbove :
    (n k : ℕ) (rows : List PlatformRow)
    → IsAbove platform_key k rows
    → IsOrdered platform_key rows
    → IsAbove platform_key (last_key k (take n rows)) (drop n rows)
unfolding last_key
drop-IsAbove zero k rows a o = a
drop-IsAbove (suc n) k [] a o = tt
drop-IsAbove (suc n) k (r ∷ rows) a o = drop-IsAbove n r.receive_time_us rows o.0 o.1

-- The test for more rows is false only where none are left.
pub drop-eq-nil {ℓ} :
    {A : Type ℓ} (n : ℕ) (rows : List A)
    → ltb n (length (take (suc n) rows)) ≡ false
    → drop n rows ≡ []
drop-eq-nil zero [] e = refl
drop-eq-nil zero (r ∷ rows) e = absurd (ground arith)
drop-eq-nil (suc n) [] e = refl
drop-eq-nil (suc n) (r ∷ rows) e = drop-eq-nil n rows (ground arith)

module _ {ℓ} {N : Type ℓ} (codec : Codec N) (b64encode : Blob → Text) where
  pub take-AllArrive :
      (n : ℕ) (rows : List PlatformRow)
      → AllArrive codec b64encode rows
      → AllArrive codec b64encode (take n rows)
  unfolding AllArrive
  take-AllArrive zero rows v = tt
  take-AllArrive (suc n) [] v = tt
  take-AllArrive (suc n) (r ∷ rows) v = (v.0, take-AllArrive n rows v.1)

  pub drop-AllArrive :
      (n : ℕ) (rows : List PlatformRow)
      → AllArrive codec b64encode rows
      → AllArrive codec b64encode (drop n rows)
  unfolding AllArrive
  drop-AllArrive zero rows v = v
  drop-AllArrive (suc n) [] v = tt
  drop-AllArrive (suc n) (r ∷ rows) v = drop-AllArrive n rows v.1
