-- ===== src/Historian/Coarse/Groups.antt =====
-- The groups of `_coarsen_rollup_points` of src/python/gizmo_historian.py: how many there are, and
-- that they are the points.
use gizmo.Prelude.{
  ℕ, zero, suc, ◌+◌, ◌-◌, ◌*◌, ◌/◌, ◌≤◌, ◌<◌, ◌≡◌, refl, sym, ap, subst, List, [], ◌∷◌, ◌++◌, map,
  length, take, drop, arith, length-drop, take-append-drop,
}
use Prim.Native.Nat.{max}
use native.Mathlib.Nat.{lt-div-mul-add}
use gizmo.Historian.Coarse.{ceil_divide, groups}

unfoldable pub sum : List ℕ → ℕ
sum [] = 0
sum (n ∷ ns) = n + sum ns

pub sum-map-append {ℓ} :
    {A : Type ℓ} (f : A → ℕ) (xs ys : List A)
    → sum (map f (xs ++ ys)) ≡ sum (map f xs) + sum (map f ys)
unfolding sum
sum-map-append f [] ys = omega arith
sum-map-append f (x ∷ xs) ys = omega (arith, sum-map-append f xs ys)

pub length-map {ℓ κ} :
    {A : Type ℓ} {B : Type κ} (f : A → B) (xs : List A) → length (map f xs) ≡ length xs
length-map f [] = refl
length-map f (x ∷ xs) = ap suc (length-map f xs)

pub map-map {ℓ κ μ} :
    {A : Type ℓ} {B : Type κ} {C : Type μ} (f : B → C) (g : A → B) (xs : List A)
    → map f (map g xs) ≡ map (λ x. f (g x)) xs
map-map f g [] = refl
map-map f g (x ∷ xs) = ap (λ ys. f (g x) ∷ ys) (map-map f g xs)

-- The width is enough for as many groups as the limit.
pub width_enough : (n limit : ℕ) → 0 < limit → n ≤ limit * max 1 (ceil_divide n limit)
unfolding ceil_divide
width_enough n limit h =
    at_least ((n + limit - 1) / limit)
      (omega (arith, lt-div-mul-add {a = n + limit - 1} {b = limit} h))
  where
    at_least : (q : ℕ) → n ≤ q * limit → n ≤ limit * max 1 q
    at_least zero k = omega arith
    at_least (suc q) k =
        let same : max 1 (suc q) ≡ suc q = omega arith in
        subst (λ m. n ≤ limit * m) (sym same) (omega arith)

module _ {ℓ} {A : Type ℓ} where
  pub length-groups :
      (n width k : ℕ) (points : List A)
      → 0 < width
      → length points ≤ k * width
      → length (groups n width points) ≤ k
  unfolding groups
  length-groups zero width k points w h = omega arith
  length-groups (suc n) width k [] w h = omega arith
  length-groups (suc n) width zero (p ∷ points) w h = omega arith
  length-groups (suc n) width (suc k) (p ∷ points) w h =
      let rest =
        length-groups n width k (drop (width - 1) points) w
          (omega (arith, length-drop (width - 1) points)) in
      omega arith

  -- The groups are the points, in their order.
  pub sum-groups :
      (f : A → ℕ) (n width : ℕ) (points : List A)
      → length points ≤ n
      → sum (map (λ (g : A × List A). sum (map f (g.0 ∷ g.1))) (groups n width points))
        ≡ sum (map f points)
  unfolding groups sum
  sum-groups f zero width [] h = refl
  sum-groups f zero width (p ∷ points) h = omega arith
  sum-groups f (suc n) width [] h = refl
  sum-groups f (suc n) width (p ∷ points) h =
      let rest =
        sum-groups f n width (drop (width - 1) points)
          (omega (arith, length-drop (width - 1) points)) in
      let split = sum-map-append f (take (width - 1) points) (drop (width - 1) points) in
      omega (arith, rest, split, ap (λ l. sum (map f l)) (take-append-drop (width - 1) points))
