-- ===== src/Zmq/Accepts.antt =====
-- Which numbers src/python/gizmo_zmq.py accepts in a message.
use gizmo.Prelude.{
  ℕ, ◌≤◌, ◌≡◌, refl, true, false, ◌||◌, ◌↔◌, [], ◌∷◌, ◌++◌, ltb, arith, all, if◌then◌else◌,
}
use gizmo.Text.{Text, text, text_eq, split, words, extend, is_digit, is_space, decimal, all_digits}
use gizmo.Text.Decimal.{digits_value-decimal, all_digits-decimal}
use gizmo.Common.RoundTrip.{space_of_digit}
use gizmo.Zmq.{ok, err, parse_integer, parse_parts}

words-digits :
    (c : ℕ) (s : Text)
    → is_digit c ≡ true
    → all is_digit s ≡ true
    → words (c ∷ s) ≡ (true, (c ∷ s) ∷ [])
unfolding words extend
words-digits c [] h k = rw (space_of_digit c h) refl
words-digits c (d ∷ s) h k =
    rw (space_of_digit c h, words-digits d s (ground (arith, k)) (ground (arith, k))) refl

split-run : (s : Text) → all_digits s ≡ true → split (text "run " ++ s) ≡ text "run" ∷ s ∷ []
unfolding split text all_digits words extend is_space
split-run [] h = ground (arith, h)
split-run (c ∷ s) h = rw (words-digits c s (ground (arith, h)) (ground (arith, h))) refl

split-set_th :
    (s : Text) → all_digits s ≡ true → split (text "set_th " ++ s) ≡ text "set_th" ∷ s ∷ []
unfolding split text all_digits words extend is_space
split-set_th [] h = ground (arith, h)
split-set_th (c ∷ s) h = rw (words-digits c s (ground (arith, h)) (ground (arith, h))) refl

ok_iff :
    (n low high : ℕ) (e : Text)
    → ((if ltb n low || ltb high n then err e else ok n) ≡ ok n) ↔ ((low ≤ n) × (n ≤ high))
ok_iff n low high e = ground arith

run_iff :
    (n : ℕ)
    → (parse_integer (text "run " ++ decimal n) (text "run") false 1_000_000 ≡ ok n)
      ↔ ((1 ≤ n) × (n ≤ 1_000_000))
unfolding parse_integer parse_parts text text_eq
run_iff n =
    rw (split-run (decimal n) (all_digits-decimal n), all_digits-decimal n, digits_value-decimal n)
      (ok_iff n 1 1_000_000 _)

set_th_iff :
    (n : ℕ)
    → (parse_integer (text "set_th " ++ decimal n) (text "set_th") true 1_000_000 ≡ ok n)
      ↔ (n ≤ 1_000_000)
unfolding parse_integer parse_parts text text_eq
set_th_iff n =
    rw
      (
        split-set_th (decimal n) (all_digits-decimal n),
        all_digits-decimal n,
        digits_value-decimal n,
      )
      (let (h, k) = ok_iff n 0 1_000_000 _ in ((λ e. (h e).1), λ l. k (omega arith, l)))

-- `run N` and `set_th N`, as the OPC UA server writes them for a number N, are read as N exactly
-- when N is 1 to 1,000,000 and, for the threshold, 0 to 1,000,000.
pub parse_integer_iff_in_range :
    (n : ℕ)
    → ((parse_integer (text "run " ++ decimal n) (text "run") false 1_000_000 ≡ ok n)
        ↔ ((1 ≤ n) × (n ≤ 1_000_000)))
      × ((parse_integer (text "set_th " ++ decimal n) (text "set_th") true 1_000_000 ≡ ok n)
          ↔ (n ≤ 1_000_000))
parse_integer_iff_in_range n = (run_iff n, set_th_iff n)
