-- ===== src/Common/RoundTrip.antt =====
-- The numbers of the environment files, written by src/python/gizmo_zmq.py and read by
-- `read_exported_int` of src/python/gizmo_common.py.
use gizmo.Prelude.{
  ℕ, ◌+◌, ◌-◌, ◌*◌, ◌≡◌, ◌<◌, refl, sym, ap, ◌∙◌, Bool, true, false, not, some, List, [], ◌∷◌, ◌++◌,
  ◌==◌, arith, all,
}
use gizmo.Text.{
  Text, text, is_digit, is_space, is_line_end, lstrip, rstrip, strip, all_digits, digits_value,
  decimal, lines_from, split_lines, remove_prefix, drop_prefix, text_eq,
}
use gizmo.Text.Decimal.{digits_value-decimal, all-decimal, all_digits-decimal}
use gizmo.Common.{ℤ, pos, int_digits, parse_int, partition_eq, find_variable, read_exported_int}

abbrev is_inline : ℕ → Bool
is_inline c = not (is_line_end c)

inline_of_digit : (c : ℕ) → is_digit c ≡ true → is_inline c ≡ true
unfolding is_digit is_line_end
inline_of_digit c h = ground arith

pub space_of_digit : (c : ℕ) → is_digit c ≡ true → is_space c ≡ false
unfolding is_digit is_space
space_of_digit c h = ground arith

return_of_inline : (c : ℕ) → is_inline c ≡ true → (c == 13) ≡ false
unfolding is_line_end
return_of_inline c h = ground arith

append_assoc : (s : Text) (c : ℕ) (t : Text) → (s ++ c ∷ []) ++ t ≡ s ++ c ∷ t
append_assoc [] c t = refl
append_assoc (d ∷ s) c t = ap (λ r. d ∷ r) (append_assoc s c t)

append_nil : (s : Text) → s ++ [] ≡ s
append_nil [] = refl
append_nil (c ∷ s) = ap (λ r. c ∷ r) (append_nil s)

inline_is : (c : ℕ) → is_inline c ≡ true → is_line_end c ≡ false
inline_is c h = ground (arith, h)

lines_from-inline :
    (line t : Text)
    → all is_inline t ≡ true
    → lines_from false line (t ++ 10 ∷ []) ≡ (line ++ t) ∷ []
unfolding lines_from is_line_end
lines_from-inline line [] h = ap (λ r. r ∷ []) (sym (append_nil line))
lines_from-inline line (c ∷ t) h =
    rw (inline_is c (ground (arith, h)), return_of_inline c (ground (arith, h)))
      (lines_from-inline (line ++ c ∷ []) t (ground (arith, h))
        ∙ ap (λ r. r ∷ []) (append_assoc line c t))

int_digits-all :
    (after : Bool) (acc : ℕ) (c : ℕ) (s : Text)
    → is_digit c ≡ true
    → all is_digit s ≡ true
    → int_digits after acc (c ∷ s) ≡ some (digits_value acc (c ∷ s))
unfolding int_digits digits_value
int_digits-all after acc c [] h k = ground (arith, h)
int_digits-all after acc c (d ∷ s) h k =
    rw h (int_digits-all true (acc * 10 + (c - 48)) d s (ground (arith, k)) (ground (arith, k)))

sign_of_digit : (c sign : ℕ) → is_digit c ≡ true → sign < 48 → (c == sign) ≡ false
unfolding is_digit
sign_of_digit c sign h k = ground arith

parse_int-digits : (s : Text) → all_digits s ≡ true → parse_int s ≡ some (pos (digits_value 0 s))
unfolding parse_int all_digits
parse_int-digits [] h = ground (arith, h)
parse_int-digits (c ∷ s) h =
    rw
      (
        sign_of_digit c 45 (ground (arith, h)) (omega arith),
        sign_of_digit c 43 (ground (arith, h)) (omega arith),
        int_digits-all false 0 c s (ground (arith, h)) (ground (arith, h)),
      )
      refl

rstrip_cons : (c d : ℕ) (s r : Text) → rstrip s ≡ d ∷ r → rstrip (c ∷ s) ≡ c ∷ d ∷ r
unfolding rstrip
rstrip_cons c d s r h = rw (h, rstrip) refl

rstrip-digits : (s : Text) → all is_digit s ≡ true → rstrip s ≡ s
unfolding rstrip
rstrip-digits [] h = refl
rstrip-digits (c ∷ []) h = rw (space_of_digit c (ground (arith, h))) refl
rstrip-digits (c ∷ e ∷ s) h = rstrip_cons c e (e ∷ s) s (rstrip-digits (e ∷ s) (ground (arith, h)))

strip-digits : (s : Text) → all_digits s ≡ true → strip s ≡ s
unfolding strip lstrip all_digits rstrip
strip-digits [] h = refl
strip-digits (c ∷ s) h =
    rw (space_of_digit c (ground (arith, h))) (rstrip-digits (c ∷ s) (ground (arith, h)))

all-inline : (s : Text) → all is_digit s ≡ true → all is_inline s ≡ true
all-inline [] h = refl
all-inline (c ∷ s) h = ground (arith, inline_of_digit c, all-inline s)

-- A line `key=number` of a variable reads back.
find_variable-digits :
    (rest : List Text) (default : ℤ) (line value variable : Text)
    → partition_eq (remove_prefix line (text "export ")) ≡ some (variable, value)
    → text_eq (strip variable) variable ≡ true
    → all_digits value ≡ true
    → find_variable variable default (line ∷ rest) ≡ pos (digits_value 0 value)
unfolding find_variable partition_eq digits_value remove_prefix text
find_variable-digits rest default line value variable h k d =
    rw (h, k, strip-digits value d, parse_int-digits value d) refl

read_exported_int-line :
    (default : ℤ) (line value variable : Text)
    → all is_inline line ≡ true
    → partition_eq (remove_prefix line (text "export ")) ≡ some (variable, value)
    → text_eq (strip variable) variable ≡ true
    → all_digits value ≡ true
    → read_exported_int (some (line ++ 10 ∷ [])) variable default ≡ pos (digits_value 0 value)
unfolding read_exported_int split_lines
read_exported_int-line default line value variable i h k d =
    rw (lines_from-inline [] line i) (find_variable-digits [] default line value variable h k d)

-- The interval that `handle_message` writes reads back.
pub read-write_interval :
    (n : ℕ) (default : ℤ)
    → read_exported_int
        (some (text "export runInterval=" ++ decimal n ++ text "\n"))
        (text "runInterval")
        default
      ≡ pos n
unfolding text remove_prefix drop_prefix partition_eq text_eq strip lstrip rstrip is_space
    is_line_end
read-write_interval n default =
    read_exported_int-line default (text "export runInterval=" ++ decimal n) (decimal n)
      (text "runInterval") (all-inline (decimal n) (all-decimal n)) refl refl (all_digits-decimal n)
    ∙ ap pos (digits_value-decimal n)

-- The threshold that `handle_message` writes reads back.
pub read-write_threshold :
    (n : ℕ) (default : ℤ)
    → read_exported_int
        (some (text "export threshold=" ++ decimal n ++ text "\n"))
        (text "threshold")
        default
      ≡ pos n
unfolding text remove_prefix drop_prefix partition_eq text_eq strip lstrip rstrip is_space
    is_line_end
read-write_threshold n default =
    read_exported_int-line default (text "export threshold=" ++ decimal n) (decimal n)
      (text "threshold") (all-inline (decimal n) (all-decimal n)) refl refl (all_digits-decimal n)
    ∙ ap pos (digits_value-decimal n)
