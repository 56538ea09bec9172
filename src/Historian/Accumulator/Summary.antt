-- ===== src/Historian/Accumulator/Summary.antt =====
-- What the entry of a series in src/python/gizmo_historian.py holds after the payloads of a minute.
use gizmo.Prelude.{
  ◌+◌, ◌≡◌, refl, sym, ap, subst, ◌∙◌, arith, true, false, Option, none, some, List, [], ◌∷◌, ◌++◌,
  foldl, length, length-append, ◌==◌, Option-cases, inl, inr,
}
use gizmo.Historian.Accumulator.{
  Entry, Payload, first_entry, add_value, extend_entry, pick, update_entry, worse_status,
}

module _ {V : Type 0} where
  -- The finite values of some payloads.
  abbrev finite : Option V → List V
  finite none = []
  finite (some v) = v ∷ []

  abbrev pub finite_values : List (Payload V) → List V
  finite_values [] = []
  finite_values (p ∷ payloads) = finite p.value ++ finite_values payloads

  abbrev pub last_of : V → List V → V
  last_of v [] = v
  last_of v (x ∷ xs) = last_of x xs

  foldl-snoc :
      (f : V → V → V) (v x : V) (xs : List V) → foldl f v (xs ++ x ∷ []) ≡ f (foldl f v xs) x
  foldl-snoc f v x [] = refl
  foldl-snoc f v x (y ∷ xs) = foldl-snoc f (f v y) x xs

  last_of-snoc : (v x : V) (xs : List V) → last_of v (xs ++ x ∷ []) ≡ x
  last_of-snoc v x [] = refl
  last_of-snoc v x (y ∷ xs) = last_of-snoc y x xs

  append_nil : (xs : List V) → xs ++ [] ≡ xs
  append_nil [] = refl
  append_nil (x ∷ xs) = ap (λ r. x ∷ r) (append_nil xs)

  append_assoc : (xs ys zs : List V) → (xs ++ ys) ++ zs ≡ xs ++ (ys ++ zs)
  append_assoc [] ys zs = refl
  append_assoc (x ∷ xs) ys zs = ap (λ r. x ∷ r) (append_assoc xs ys zs)

module _ {V : Type 0} (zero_value : V) (min max add : V → V → V) where
  -- An entry that tells of exactly these finite values, in their order.
  abbrev pub Summarises : List V → Entry V → Type 0
  Summarises [] e =
      (e.first ≡ none)
      × (e.last ≡ none)
      × (e.minimum ≡ none)
      × (e.maximum ≡ none)
      × (e.total ≡ zero_value)
      × (e.count ≡ 0)
  Summarises (v ∷ vs) e =
      (e.first ≡ some v)
      × (e.last ≡ some (last_of v vs))
      × (e.minimum ≡ some (foldl min v vs))
      × (e.maximum ≡ some (foldl max v vs))
      × (e.total ≡ foldl add v vs)
      × (e.count ≡ length (v ∷ vs))

  -- The same of a result that is no TypeError.
  abbrev pub IsSummary : List V → Option (Entry V) → Type 0
  IsSummary vs none = ⊥
  IsSummary vs (some e) = Summarises vs e

  -- The payloads of a series behind its first; a TypeError ends it.
  unfoldable pub update_all : List (Payload V) → Option (Entry V) → Option (Entry V)
  update_all payloads none = none
  update_all [] (some e) = some e
  update_all (p ∷ payloads) (some e) = update_all payloads (update_entry zero_value min max add p e)

  module _ (min_idem : (v : V) → min v v ≡ v) (max_idem : (v : V) → max v v ≡ v)
      (zero_add : (v : V) → add zero_value v ≡ v) where
    first_entry-Summarises :
        (p : Payload V) → Summarises (finite p.value) (first_entry zero_value min max add p)
    unfolding first_entry
    first_entry-Summarises p = elim (Option-cases p.value) [
      | inl n ↦ rw n (refl, refl, refl, refl, refl, refl)
      | inr (v, e) ↦ rw e (refl, refl, refl, refl, refl, refl)
    ]

    first_value :
        (v : V) (e : Entry V)
        → Summarises [] e
        → Summarises (v ∷ []) (record e {
          first = some v;
          last = some v;
          minimum = some (min v v);
          maximum = some (max v v);
          total = add e.total v;
          count = e.count + 1;
        })
    first_value v e (f, l, lo, hi, t, c) = (
      refl,
      refl,
      ap some (min_idem v),
      ap some (max_idem v),
      ap (λ x. add x v) t ∙ zero_add v,
      omega (arith, c),
    )

    add_value-IsSummary :
        (v : V) (vs : List V) (e : Entry V)
        → Summarises vs e
        → IsSummary (vs ++ v ∷ []) (add_value zero_value min max add v e)
    unfolding add_value extend_entry pick
    add_value-IsSummary v [] e h =
        let (f, l, lo, hi, t, c) = h in
        let first_one : (e.count == 0) ≡ true = ground (arith, c) in
        rw first_one (first_value v e h)
    add_value-IsSummary v (x ∷ xs) e (f, l, lo, hi, t, c) =
        let later_one : (e.count == 0) ≡ false = ground (arith, c) in
        rw later_one (
          rw (lo, hi)
            (
              f,
              ap some (sym (last_of-snoc x v xs)),
              ap some (sym (foldl-snoc min x v xs)),
              ap some (sym (foldl-snoc max x v xs)),
              ap (λ y. add y v) t ∙ sym (foldl-snoc add x v xs),
              omega (arith, c, length-append xs (v ∷ [])),
            ))

    update_entry-IsSummary :
        (p : Payload V) (vs : List V) (e : Entry V)
        → Summarises vs e
        → IsSummary (vs ++ finite p.value) (update_entry zero_value min max add p e)
    unfolding update_entry
    update_entry-IsSummary p vs e h = elim (Option-cases p.value) [
      | inl n ↦
          rw n
            (subst (λ xs. Summarises xs restated) (sym (append_nil vs)) (restated-Summarises vs h))
      | inr (v, k) ↦ rw k (add_value-IsSummary v vs restated (restated-Summarises vs h))
    ]
      where
        restated : Entry V
        restated = record e { status = worse_status e.status p.status }

        restated-Summarises : (vs : List V) → Summarises vs e → Summarises vs restated
        restated-Summarises [] k = k
        restated-Summarises (x ∷ xs) k = k

    update_all-IsSummary :
        (payloads : List (Payload V)) (vs : List V) (o : Option (Entry V))
        → IsSummary vs o
        → IsSummary (vs ++ finite_values payloads) (update_all payloads o)
    unfolding update_all
    update_all-IsSummary payloads vs none h = absurd h
    update_all-IsSummary [] vs (some e) h = subst (λ xs. Summarises xs e) (sym (append_nil vs)) h
    update_all-IsSummary (p ∷ payloads) vs (some e) h =
        subst (λ xs. IsSummary xs (update_all payloads (update_entry zero_value min max add p e)))
          (append_assoc vs (finite p.value) (finite_values payloads))
          (update_all-IsSummary payloads (vs ++ finite p.value)
            (update_entry zero_value min max add p e) (update_entry-IsSummary p vs e h))

    -- The entry of a series holds, after any payloads, the first and the last finite value, their
    -- minimum, maximum, sum and number, in the order in which they came, and no payload raises a
    -- TypeError, whatever gaps there are; this takes of the numbers that the minimum and the maximum
    -- of a number and itself are that number, and that zero adds nothing.
    pub accumulated-IsSummary :
        (p : Payload V) (payloads : List (Payload V))
        → IsSummary
            (finite_values (p ∷ payloads))
            (update_all payloads (some (first_entry zero_value min max add p)))
    accumulated-IsSummary p payloads =
        update_all-IsSummary payloads (finite p.value) (some (first_entry zero_value min max add p))
          (first_entry-Summarises p)
