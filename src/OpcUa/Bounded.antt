-- ===== src/OpcUa/Bounded.antt =====
-- `_bounded` of src/python/gizmo_opcua.py: one line of printable text of a limited length.
pub mod Laws
use gizmo.Prelude.{
  ℕ, ◌-◌, Bool, false, ◌&&◌, ◌||◌, [], ◌∷◌, ◌++◌, leb, ◌==◌, if◌then◌else◌, length, take,
}
use gizmo.Text.{Text, text, strip}

-- `[\x00-\x1f\x7f]`
unfoldable pub is_control : ℕ → Bool
is_control c = leb c 31 || c == 127

-- `re.sub(r"[\x00-\x1f\x7f]+", " ", s)`, with the flag set behind a control character
unfoldable pub squash : Bool → Text → Text
squash in_run [] = []
squash in_run (c ∷ s) =
    let rest = squash (is_control c) s in
    if is_control c && in_run then rest else (if is_control c then 32 else c) ∷ rest

unfoldable pub truncate : ℕ → Text → Text
truncate limit s = if leb (length s) limit then s else take (limit - 3) s ++ text "..."

unfoldable pub bounded : Text → ℕ → Text
unfolding squash truncate is_control strip
bounded value limit = truncate limit (strip (squash false value))
