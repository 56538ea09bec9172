-- ===== src/OpcUa/Bounded/Laws.antt =====
-- The laws of `_bounded` in src/python/gizmo_opcua.py: its limit, its characters, a second pass.
use gizmo.Prelude.{
  ℕ, zero, suc, ◌-◌, ◌≤◌, ◌<◌, ◌≡◌, refl, ap, Bool, false, ◌⊎◌, [], ◌∷◌, ◌++◌, arith, length, take,
  length-append, length-take, Bool-cases, inl, inr,
}
use gizmo.Text.{Text, text, strip, lstrip, rstrip, is_space}
use gizmo.OpcUa.Bounded.{is_control, squash, truncate, bounded}

-- No control character in the text.
abbrev pub IsClean : Text → Type 0
IsClean [] = Unit
IsClean (c ∷ s) = (is_control c ≡ false) × IsClean s

-- The text does not begin with white space.
abbrev pub IsFlush : Text → Type 0
IsFlush [] = Unit
IsFlush (c ∷ s) = is_space c ≡ false

squash-IsClean : (b : Bool) (s : Text) → IsClean (squash b s)
unfolding squash is_control
squash-IsClean b [] = tt
squash-IsClean b (c ∷ s) = ground (arith, squash-IsClean (is_control c) s)

squash-eq_self : (b : Bool) (s : Text) → IsClean s → squash b s ≡ s
unfolding squash
squash-eq_self b [] h = refl
squash-eq_self b (c ∷ s) h = rw h.0 (ap (λ r. c ∷ r) (squash-eq_self false s h.1))

lstrip-IsFlush : (s : Text) → IsFlush (lstrip s)
unfolding lstrip
lstrip-IsFlush [] = tt
lstrip-IsFlush (c ∷ s) = elim (Bool-cases (is_space c)) [
  | inl e ↦ rw e (lstrip-IsFlush s)
  | inr e ↦ rw e e
]

lstrip-IsClean : (s : Text) → IsClean s → IsClean (lstrip s)
unfolding lstrip
lstrip-IsClean [] h = tt
lstrip-IsClean (c ∷ s) h = ground (arith, lstrip-IsClean s h.1)

lstrip-eq_self : (s : Text) → IsFlush s → lstrip s ≡ s
unfolding lstrip
lstrip-eq_self [] h = refl
lstrip-eq_self (c ∷ s) h = rw h

rstrip-IsClean : (s : Text) → IsClean s → IsClean (rstrip s)
unfolding rstrip
rstrip-IsClean [] h = tt
rstrip-IsClean (c ∷ s) h = ground (arith, rstrip-IsClean s h.1)

rstrip-IsFlush : (s : Text) → IsFlush s → IsFlush (rstrip s)
unfolding rstrip
rstrip-IsFlush [] h = tt
rstrip-IsFlush (c ∷ s) h = ground arith

rstrip_idem : (s : Text) → rstrip (rstrip s) ≡ rstrip s
unfolding rstrip
rstrip_idem [] = refl
rstrip_idem (c ∷ s) = ground (arith, rstrip_idem s)

-- Text that ends in an ellipsis keeps its end.
rstrip-append_dots : (s : Text) → rstrip (s ++ text "...") ≡ s ++ text "..."
unfolding rstrip text is_space
rstrip-append_dots [] = refl
rstrip-append_dots (c ∷ []) = refl
rstrip-append_dots (c ∷ d ∷ s) =
    let ih : rstrip (d ∷ (s ++ text "...")) ≡ d ∷ (s ++ text "...") = rstrip-append_dots (d ∷ s) in
    rw (ih, rstrip)

IsFlush-take : (n : ℕ) (s : Text) → IsFlush s → IsFlush (take n s ++ text "...")
unfolding text is_space
IsFlush-take zero s h = refl
IsFlush-take (suc n) [] h = refl
IsFlush-take (suc n) (c ∷ s) h = h

IsClean-take : (n : ℕ) (s t : Text) → IsClean s → IsClean t → IsClean (take n s ++ t)
IsClean-take zero s t h k = k
IsClean-take (suc n) [] t h k = k
IsClean-take (suc n) (c ∷ s) t h k = (h.0, IsClean-take n s t h.1 k)

-- What `strip` leaves of clean text is clean, flush and stripped.
strip-eq_self : (s : Text) → IsFlush s → rstrip s ≡ s → strip s ≡ s
unfolding strip
strip-eq_self s f r = rw (lstrip-eq_self s f) r

-- A second pass over text that is clean, flush, stripped and short enough.
bounded-eq_self :
    (s : Text) (limit : ℕ)
    → IsClean s
    → IsFlush s
    → rstrip s ≡ s
    → length s ≤ limit
    → bounded s limit ≡ s
unfolding bounded truncate
bounded-eq_self s limit c f r l =
    rw (squash-eq_self false s c) (rw (strip-eq_self s f r) (ground arith))

module _ (value : Text) (limit : ℕ) where
  stripped : Text
  stripped = strip (squash false value)

  stripped-IsClean : IsClean stripped
  unfolding stripped strip
  stripped-IsClean = rstrip-IsClean _ (lstrip-IsClean _ (squash-IsClean false value))

  stripped-IsFlush : IsFlush stripped
  unfolding stripped strip
  stripped-IsFlush = rstrip-IsFlush _ (lstrip-IsFlush (squash false value))

  rstrip-stripped : rstrip stripped ≡ stripped
  unfolding stripped strip
  rstrip-stripped = rstrip_idem _

  bounded-cases :
      ((bounded value limit ≡ stripped) × (length stripped ≤ limit))
      ⊎ ((bounded value limit ≡ take (limit - 3) stripped ++ text "...")
          × (limit < length stripped))
  unfolding bounded truncate stripped
  bounded-cases = ground arith

  -- No control character is left.
  pub bounded-IsClean : IsClean (bounded value limit)
  bounded-IsClean = elim bounded-cases [
    | inl (e, _) ↦ rw e stripped-IsClean
    | inr (e, _) ↦ rw e (IsClean-take (limit - 3) stripped (text "...") stripped-IsClean dots)
  ]
    where
      dots : IsClean (text "...")
      dots = unfold text is_control in (refl, (refl, (refl, tt)))

  -- The limit holds, where it leaves room for the ellipsis.
  pub length-bounded : 3 ≤ limit → length (bounded value limit) ≤ limit
  length-bounded h = elim bounded-cases [
    | inl (e, l) ↦ rw e l
    | inr (e, l) ↦ rw e (
        unfold text in
        omega (
          arith,
          length-append {0} (take (limit - 3) stripped) (text "..."),
          length-take {0} (limit - 3) stripped,
        ))
  ]

  -- A second pass changes nothing.
  pub bounded-bounded : 3 ≤ limit → bounded (bounded value limit) limit ≡ bounded value limit
  bounded-bounded h = bounded-eq_self _ limit bounded-IsClean flush stripped_end (length-bounded h)
    where
      flush : IsFlush (bounded value limit)
      flush = elim bounded-cases [
        | inl (e, _) ↦ rw e stripped-IsFlush
        | inr (e, _) ↦ rw e (IsFlush-take (limit - 3) stripped stripped-IsFlush)
      ]

      stripped_end : rstrip (bounded value limit) ≡ bounded value limit
      stripped_end = elim bounded-cases [
        | inl (e, _) ↦ rw e rstrip-stripped
        | inr (e, _) ↦ rw e (rstrip-append_dots (take (limit - 3) stripped))
      ]
