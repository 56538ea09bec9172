-- ===== src/Tests/Historian.antt =====
-- A minute of one series, with a gap, over the native numbers.
use Prim.Native.Nat.{min, max}
use gizmo.Prelude.{ℕ, ◌+◌, ◌≡◌, arith, Option, none, some, List, [], ◌∷◌}
use gizmo.Text.{text}
use gizmo.Historian.Accumulator.{Payload, first_entry}
use gizmo.Historian.Accumulator.Summary.{
  IsSummary, finite_values, update_all, accumulated-IsSummary,
}

abbrev plus : ℕ → ℕ → ℕ
plus a b = a + b

abbrev reading : Option ℕ → Payload ℕ
reading v = record { value = v; status = text "Good" }

abbrev later : List (Payload ℕ)
later = reading (some 7) ∷ reading none ∷ reading (some 3) ∷ []

min_self : (v : ℕ) → min v v ≡ v
min_self v = omega arith

max_self : (v : ℕ) → max v v ≡ v
max_self v = omega arith

accumulated-IsSummary_example :
    IsSummary 0 min max plus
      (finite_values (reading none ∷ later))
      (update_all 0 min max plus later (some (first_entry 0 min max plus (reading none))))
accumulated-IsSummary_example =
    accumulated-IsSummary 0 min max plus min_self max_self (λ v. omega arith) (reading none) later
