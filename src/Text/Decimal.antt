-- ===== src/Text/Decimal.antt =====
-- Printing a number and reading it back.
use gizmo.Prelude.{
  ℕ, zero, suc, ◌+◌, ◌-◌, ◌*◌, ◌/◌, ◌%◌, ◌<◌, ◌≡◌, refl, true, [], ◌∷◌, ◌++◌, arith, ltb,
  Bool-cases, inl, inr, all, length, length-append,
}
use gizmo.Text.{Text, decimal_digits, decimal, is_digit, all_digits, digits_value}

digits_value-append :
    (acc : ℕ) (s : Text) (c : ℕ)
    → digits_value acc (s ++ c ∷ []) ≡ digits_value acc s * 10 + (c - 48)
unfolding digits_value
digits_value-append acc [] c = refl
digits_value-append acc (d ∷ s) c = digits_value-append (acc * 10 + (d - 48)) s c

digits_value-decimal_digits : (fuel n : ℕ) → n < fuel → digits_value 0 (decimal_digits fuel n) ≡ n
unfolding decimal_digits
digits_value-decimal_digits zero n h = elim h [ ]
digits_value-decimal_digits (suc fuel) n h = elim (Bool-cases (ltb n 10)) [
  | inl small ↦ rw small (unfold digits_value in omega arith)
  | inr large ↦ rw large (
      rw digits_value-append
        (rw (digits_value-decimal_digits fuel (n / 10) (ground arith)) (omega arith)))
]

all-append :
    (s t : Text) → all is_digit s ≡ true → all is_digit t ≡ true → all is_digit (s ++ t) ≡ true
all-append [] t h k = k
all-append (c ∷ s) t h k = ground (arith, all-append s t)

all-decimal_digits : (fuel n : ℕ) → all is_digit (decimal_digits fuel n) ≡ true
unfolding decimal_digits
all-decimal_digits zero n = refl
all-decimal_digits (suc fuel) n = elim (Bool-cases (ltb n 10)) [
  | inl small ↦ rw small (unfold is_digit in ground arith)
  | inr large ↦
      rw large (all-append _ _ (all-decimal_digits fuel (n / 10)) (unfold is_digit in ground arith))
]

-- `int(str(n))` is `n`.
pub digits_value-decimal : (n : ℕ) → digits_value 0 (decimal n) ≡ n
unfolding decimal
digits_value-decimal n = digits_value-decimal_digits (n + 1) n (omega arith)

length-decimal_digits : (fuel n : ℕ) → 0 < fuel → 0 < length (decimal_digits fuel n)
unfolding decimal_digits
length-decimal_digits zero n h = h
length-decimal_digits (suc fuel) n h =
    ground (arith, length-append (decimal_digits fuel (n / 10)) ((48 + n % 10) ∷ []))

pub all-decimal : (n : ℕ) → all is_digit (decimal n) ≡ true
unfolding decimal
all-decimal n = all-decimal_digits (n + 1) n

-- `str(n).isdigit()`
pub all_digits-decimal : (n : ℕ) → all_digits (decimal n) ≡ true
unfolding all_digits decimal
all_digits-decimal n = ground (arith, all-decimal_digits (n + 1) n, length-decimal_digits (n + 1) n)
