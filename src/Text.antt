-- ===== src/Text.antt =====
-- Python `str` values as lists of code points, with the methods that the services call on them.
-- `is_digit` and `to_lower` are those of ASCII, with the Kelvin sign for `to_lower`.
pub mod Decimal
pub mod Equality
use Prim.Native.Char.{code}
use gizmo.Prelude.{
  ℕ, zero, suc, ◌+◌, ◌-◌, ◌*◌, ◌/◌, ◌%◌, String, Bool, true, false, not, ◌&&◌, ◌||◌, List, [], ◌∷◌,
  ◌++◌, Option, none, some, map, ltb, leb, ◌==◌, if◌then◌else◌, length, all,
}

abbrev pub Text : Type 0
Text = List ℕ

-- A literal of the source.
unfoldable pub text : String → Text
text String.[] = []
text (String.◌∷◌ c s) = code c ∷ text s

-- `s == t`
unfoldable pub text_eq : Text → Text → Bool
text_eq [] [] = true
text_eq [] (d ∷ t) = false
text_eq (c ∷ s) [] = false
text_eq (c ∷ s) (d ∷ t) = c == d && text_eq s t

-- The code points that `str.strip` and `str.split` take for white space.
unfoldable pub is_space : ℕ → Bool
is_space c =
    (leb 9 c && leb c 13)
    || (leb 28 c && leb c 32)
    || c == 133
    || c == 160
    || c == 5760
    || (leb 8192 c && leb c 8202)
    || c == 8232
    || c == 8233
    || c == 8239
    || c == 8287
    || c == 12288

-- `s.lstrip()`
unfoldable pub lstrip : Text → Text
lstrip [] = []
lstrip (c ∷ s) = if is_space c then lstrip s else c ∷ s

-- `s.rstrip()`
unfoldable pub rstrip : Text → Text
rstrip [] = []
rstrip (c ∷ s) =
    let rest = rstrip s in elim rest [ [] ↦ if is_space c then [] else c ∷ [] | d ∷ r ↦ c ∷ d ∷ r ]

-- `s.strip()`
unfoldable pub strip : Text → Text
strip s = rstrip (lstrip s)

-- `s.startswith(prefix)`
unfoldable pub starts_with : Text → Text → Bool
starts_with s [] = true
starts_with [] (p ∷ prefix) = false
starts_with (c ∷ s) (p ∷ prefix) = c == p && starts_with s prefix

-- `s.removeprefix(prefix)`: what follows the prefix, and `s` itself where it has none
unfoldable pub drop_prefix : Text → Text → Option Text
drop_prefix s [] = some s
drop_prefix [] (p ∷ prefix) = none
drop_prefix (c ∷ s) (p ∷ prefix) = if c == p then drop_prefix s prefix else none

unfoldable pub remove_prefix : Text → Text → Text
unfolding drop_prefix
remove_prefix s prefix = elim (drop_prefix s prefix) [ none ↦ s | some rest ↦ rest ]

unfoldable pub to_lower : ℕ → ℕ
to_lower c = if leb 65 c && leb c 90 then c + 32 else if c == 8490 then 107 else c

-- `s.lower()`
unfoldable pub lower : Text → Text
lower s = map to_lower s

-- `str(n)`, with fuel: a number below ten to the power of the fuel is written out whole
decimal_digits : ℕ → ℕ → Text
decimal_digits zero n = []
decimal_digits (suc fuel) n =
    let rest = decimal_digits fuel (n / 10) in
    if ltb n 10 then (48 + n) ∷ [] else rest ++ (48 + n % 10) ∷ []

unfoldable pub decimal : ℕ → Text
unfolding decimal_digits
decimal n = decimal_digits (n + 1) n

unfoldable pub is_digit : ℕ → Bool
is_digit c = leb 48 c && leb c 57

-- `s.isdigit()`
unfoldable pub all_digits : Text → Bool
all_digits s = not (length s == 0) && all is_digit s

-- `int(s)` of text that `isdigit` accepts
unfoldable pub digits_value : ℕ → Text → ℕ
digits_value acc [] = acc
digits_value acc (c ∷ s) = digits_value (acc * 10 + (c - 48)) s

unfoldable pub extend : Bool → ℕ → List Text → List Text
extend true c (word ∷ rest) = (c ∷ word) ∷ rest
extend true c [] = (c ∷ []) ∷ []
extend false c rest = (c ∷ []) ∷ rest

-- The words of a text; the flag says that the first of them begins where the text does.
unfoldable pub words : Text → Bool × List Text
unfolding extend
words [] = (false, [])
words (c ∷ s) =
    let (open_word, rest) = words s in
    if is_space c then (false, rest) else (true, extend open_word c rest)

-- `s.split()`
unfoldable pub split : Text → List Text
unfolding words
split s = (words s).1

-- The code points that end a line for `str.splitlines`.
unfoldable pub is_line_end : ℕ → Bool
is_line_end c =
    (leb 10 c && leb c 13) || (leb 28 c && leb c 30) || c == 133 || c == 8232 || c == 8233

-- The lines of a text: the flag says that a carriage return has just ended one, and `line` is what
-- the line holds so far. A line feed behind a carriage return ends no line of its own.
unfoldable pub lines_from : Bool → Text → Text → List Text
lines_from after_return [] [] = []
lines_from after_return (b ∷ line) [] = (b ∷ line) ∷ []
lines_from after_return line (c ∷ s) =
    let skipped = after_return && c == 10 in
    let ends = is_line_end c && not skipped in
    let rest = lines_from (c == 13) (if is_line_end c then [] else line ++ c ∷ []) s in
    if ends then line ∷ rest else rest

-- `s.splitlines()`
unfoldable pub split_lines : Text → List Text
unfolding lines_from
split_lines s = lines_from false [] s
