-- ===== src/Common.antt =====
-- `read_exported_int` of src/python/gizmo_common.py: a number from an environment file.
pub mod RoundTrip
use gizmo.Prelude.{
  ℕ, zero, suc, ◌+◌, ◌-◌, ◌*◌, Bool, true, false, not, ◌&&◌, ◌||◌, Option, none, some, List, [],
  ◌∷◌, ◌++◌, leb, ◌==◌, if◌then◌else◌,
}
use gizmo.Text.{Text, text, text_eq, strip, remove_prefix, is_digit, decimal, split_lines}

-- A Python `int`: a number from 0 on, or the negative of a successor.
pub data ℤ : Type 0 where
  pos : ℕ → ℤ
  negsuc : ℕ → ℤ

-- `str(n)`
unfoldable pub int_text : ℤ → Text
int_text (pos n) = decimal n
int_text (negsuc n) = text "-" ++ decimal (suc n)

-- The digits of an `int` literal, single underscores between them allowed; the flag says that the
-- last character was a digit.
unfoldable pub int_digits : Bool → ℕ → Text → Option ℕ
int_digits after_digit acc [] = if after_digit then some acc else none
int_digits after_digit acc (c ∷ s) =
    let value = int_digits (is_digit c) (if is_digit c then acc * 10 + (c - 48) else acc) s in
    if is_digit c || (c == 95 && after_digit) then value else none

abbrev negate : ℕ → ℤ
negate zero = pos zero
negate (suc n) = negsuc n

abbrev signed : (ℕ → ℤ) → Option ℕ → Option ℤ
signed sign none = none
signed sign (some n) = some (sign n)

-- `int(s)` of stripped text: `none` is ValueError
unfoldable pub parse_int : Text → Option ℤ
parse_int [] = none
parse_int (c ∷ s) =
    if c == 45
    then signed negate (int_digits false 0 s)
    else if c == 43
    then signed ℤ.pos (int_digits false 0 s)
    else signed ℤ.pos (int_digits false 0 (c ∷ s))

-- `s.partition("=")`: the two sides, if the separator is there
unfoldable pub partition_eq : Text → Option (Text × Text)
partition_eq [] = none
partition_eq (c ∷ s) =
    let rest = partition_eq s in
    if c == 61
    then some ([], s)
    else elim rest [ none ↦ none | some (key, value) ↦ some (c ∷ key, value) ]

abbrev or_default : Option ℤ → ℤ → ℤ
or_default none default = default
or_default (some n) default = n

-- The loop over the lines.
unfoldable pub find_variable : Text → ℤ → List Text → ℤ
find_variable variable default [] = default
find_variable variable default (line ∷ lines) =
    let rest = find_variable variable default lines in
    elim (partition_eq (remove_prefix line (text "export "))) [
      | none ↦ rest
      | some (key, value) ↦
          if text_eq (strip key) variable
          then or_default (parse_int (strip value)) default
          else rest
    ]

-- `read_exported_int`; `none` is a file that cannot be read
unfoldable pub read_exported_int : Option Text → Text → ℤ → ℤ
read_exported_int none variable default = default
read_exported_int (some contents) variable default =
    find_variable variable default (split_lines contents)
