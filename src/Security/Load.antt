-- ===== src/Security/Load.antt =====
-- What a credential file of src/python/gizmo_security.py that loads is made of.
use gizmo.Prelude.{
  ℕ, ◌+◌, ◌≡◌, refl, Bool, true, false, not, ◌&&◌, Option, none, some, List, [], ◌∷◌, ◌++◌, is_some,
  subst, ◌∙◌, arith, if◌then◌else◌, if_cases, if_ind, Bool-cases, Option-cases, inl, inr,
}
use gizmo.Text.{Text, text_eq, strip, split_lines}
use gizmo.Common.{ℤ, pos, negsuc, parse_int}
use gizmo.Security.{
  Credential, CredentialFile, Loaded, validate_identity, iterations_in_range, iterations_of,
  lengths_in_range, from_hex, lookup, parse_fields, parse_record, is_skipped, load_lines, load,
  split_colon, password_scheme,
}

-- A credential that passes every check of `load`.
pub record IsValid (c : Credential) : Type 0 where
  pub identity : validate_identity c.username c.role ≡ true
  pub iterations : iterations_in_range c.iterations ≡ true
  pub lengths : lengths_in_range c.salt c.digest ≡ true

-- Valid credentials, no two with one username.
abbrev pub IsStore : List Credential → Type 0
IsStore [] = Unit
IsStore (c ∷ store) = IsValid c × (lookup c.username store ≡ none) × IsStore store

text_eq_comm : (s t : Text) → text_eq s t ≡ text_eq t s
unfolding text_eq
text_eq_comm [] [] = refl
text_eq_comm [] (d ∷ t) = refl
text_eq_comm (c ∷ s) [] = refl
text_eq_comm (c ∷ s) (d ∷ t) = rw (text_eq_comm s t) (ground arith)

lookup-append :
    (u : Text) (store : List Credential) (c : Credential)
    → lookup u store ≡ none
    → text_eq u c.username ≡ false
    → lookup u (store ++ c ∷ []) ≡ none
unfolding lookup
lookup-append u [] c h k = ground (arith, k)
lookup-append u (d ∷ store) c h k = elim (Bool-cases (text_eq u d.username)) [
  | inl e ↦ ground (arith, e, h)
  | inr e ↦ rw e (lookup-append u store c (ground (arith, e, h)) k)
]

IsStore-append :
    (store : List Credential) (c : Credential)
    → IsStore store
    → IsValid c
    → lookup c.username store ≡ none
    → IsStore (store ++ c ∷ [])
IsStore-append [] c h k l = (k, unfold lookup in refl, tt)
IsStore-append (d ∷ store) c (valid, fresh, rest) k l =
    elim (Bool-cases (text_eq c.username d.username)) [
      | inl e ↦ unfold lookup in ground (arith, e, l)
      | inr e ↦ (
        valid,
        lookup-append d.username store c fresh (text_eq_comm d.username c.username ∙ e),
        IsStore-append store c rest k (unfold lookup in ground (arith, e, l)),
      )
    ]

iterations_of-InRange :
    (i : Option ℤ) (n : ℕ) → iterations_of i ≡ some n → iterations_in_range n ≡ true
iterations_of-InRange none n h = ground (arith, h)
iterations_of-InRange (some (pos m)) n h = elim (Bool-cases (iterations_in_range m)) [
  | inl e ↦ ground (arith, e, h)
  | inr e ↦ ground (arith, e, h)
]
iterations_of-InRange (some (negsuc m)) n h = ground (arith, h)

module _ (store : List Credential) where
  -- What the fields of a record make is valid, and its username is new.
  IsFresh : Option Credential → Type 0
  IsFresh none = Unit
  IsFresh (some r) = IsValid r × (lookup r.username store ≡ none)

  checked-IsFresh :
      (r : Credential) (scheme : Bool)
      → iterations_in_range r.iterations ≡ true
      → IsFresh (
          if validate_identity r.username r.role
            && scheme
            && lengths_in_range r.salt r.digest
            && not (is_some (lookup r.username store))
          then some r
          else none)
  unfolding IsFresh
  checked-IsFresh r scheme h =
      if_cases IsFresh _ (some r) none
        (λ e. (
          record { identity = ground (arith, e); iterations = h; lengths = ground (arith, e) },
          ground (arith, e),
        ))
        (λ e. tt)

  parse_fields-IsFresh : (a b c d e f : Text) → IsFresh (parse_fields store a b c d e f)
  unfolding parse_fields IsFresh
  parse_fields-IsFresh a b c d e f = elim (Option-cases (iterations_of (parse_int (strip d)))) [
    | inl n ↦ rw (n, IsFresh) tt
    | inr (iterations, i) ↦
        rw (i, IsFresh)
          (elim (Option-cases (from_hex none e)) [
            | inl n ↦ rw (n, IsFresh) tt
            | inr (salt, k) ↦
                rw (k, IsFresh)
                  (elim (Option-cases (from_hex none f)) [
                    | inl n ↦ rw (n, IsFresh) tt
                    | inr (digest, l) ↦
                        rw (l, IsFresh)
                          (checked-IsFresh
                            record {
                              username = a;
                              role = b;
                              iterations = iterations;
                              salt = salt;
                              digest = digest;
                            }
                            (text_eq c password_scheme) (iterations_of-InRange _ iterations i))
                  ])
          ])
  ]

  parse_record-IsFresh : (fields : List Text) → IsFresh (parse_record store fields)
  unfolding parse_record IsFresh
  parse_record-IsFresh [] = tt
  parse_record-IsFresh (a ∷ []) = tt
  parse_record-IsFresh (a ∷ b ∷ []) = tt
  parse_record-IsFresh (a ∷ b ∷ c ∷ []) = tt
  parse_record-IsFresh (a ∷ b ∷ c ∷ d ∷ []) = tt
  parse_record-IsFresh (a ∷ b ∷ c ∷ d ∷ e ∷ []) = tt
  parse_record-IsFresh (a ∷ b ∷ c ∷ d ∷ e ∷ f ∷ []) = parse_fields-IsFresh a b c d e f
  parse_record-IsFresh (a ∷ b ∷ c ∷ d ∷ e ∷ f ∷ g ∷ fields) = tt

-- A store, if the file loads.
abbrev pub IsLoaded : Loaded → Type 0
IsLoaded (Loaded.loaded store) = IsStore store
IsLoaded l = Unit

load_lines-IsLoaded :
    (n : ℕ) (store : List Credential) (lines : List Text)
    → IsStore store
    → IsLoaded (load_lines n store lines)
unfolding load_lines IsFresh
load_lines-IsLoaded n store [] h = h
load_lines-IsLoaded n store (raw ∷ lines) h =
    if_ind IsLoaded (is_skipped (strip raw)) _ _ (load_lines-IsLoaded (n + 1) store lines h)
      (elim (Option-cases (parse_record store (split_colon (strip raw)))) [
        | inl e ↦ rw e tt
        | inr (c, e) ↦ rw e (load_lines-IsLoaded (n + 1) (store ++ c ∷ []) lines (added c e))
      ])
  where
    is_fresh :
        (c : Credential)
        → parse_record store (split_colon (strip raw)) ≡ some c
        → IsFresh store (some c)
    is_fresh c e = subst (IsFresh store) e (parse_record-IsFresh store (split_colon (strip raw)))

    added :
        (c : Credential)
        → parse_record store (split_colon (strip raw)) ≡ some c
        → IsStore (store ++ c ∷ [])
    added c e = let (valid, fresh) = is_fresh c e in IsStore-append store c h valid fresh

-- A credential file that loads holds valid credentials, no two of them with one username.
pub load-IsLoaded : (file : CredentialFile) → IsLoaded (load file)
unfolding load
load-IsLoaded CredentialFile.not_found = tt
load-IsLoaded CredentialFile.unreadable = tt
load-IsLoaded (CredentialFile.contents t) = load_lines-IsLoaded 1 [] (split_lines t) tt
