-- ===== src/Historian/Payload/RoundTrip.antt =====
-- `encode_payload` and `decode_payload` of src/python/gizmo_historian.py, one behind the other.
use gizmo.Prelude.{
  Bool, true, false, Option, none, some, List, [], ◌∷◌, map, if◌then◌else◌, length, any, all, suc,
  if_ind, ◌≡◌, refl, ap, arith, ==_iff, Bool-cases, inl, inr,
}
use gizmo.Text.{Text, text_eq}
use gizmo.Text.Equality.{text_eq_refl, eq_of_text_eq}
use gizmo.Historian.Payload.{
  Payload, Entry, Value, nothing, flag, number, words, Dict, get, set_item, payload_entry,
  encode_payload, collect, decode_payload, is_writable, writable,
}

get-set_item {ℓ} :
    {A : Type ℓ} (p q : Text) (a : A) (d : Dict A)
    → get p (set_item q a d) ≡ (if text_eq q p then some a else get p d)
unfolding get set_item
get-set_item p q a [] = refl
get-set_item p q a ((key, b) ∷ d) = elim (Bool-cases (text_eq key q)) [
  | inl e ↦ rw e (rw (← eq_of_text_eq key q e) (if_twice (text_eq key p)))
  | inr e ↦ rw e (elim (Bool-cases (text_eq key p)) [
    | inl k ↦ rw (k, other k e)
    | inr k ↦ rw k (get-set_item p q a d)
  ])
]
  where
    if_twice :
        (t : Bool)
        → (if t then some a else get p d) ≡ (if t then some a else if t then some b else get p d)
    if_twice true = refl
    if_twice false = refl

    other : text_eq key p ≡ true → text_eq key q ≡ false → text_eq q p ≡ false
    other k e = ground (arith, eq_of_text_eq key p, eq_of_text_eq q p, text_eq_refl q)

-- A path among the paths.
abbrev pub includes : Text → List Text → Bool
includes path paths = any (λ p. text_eq p path) paths

module _ {ℓ} {N : Type ℓ} (finite : N → Bool) where
  writable-is_writable : (v : Value N) → is_writable finite (writable finite v) ≡ true
  unfolding writable is_writable
  writable-is_writable nothing = refl
  writable-is_writable (flag b) = refl
  writable-is_writable (number n) = ground arith
  writable-is_writable (words s) = refl

  payload_entry-is_writable :
      (p : Option (Payload N)) → is_writable finite (payload_entry finite p).value ≡ true
  unfolding payload_entry is_writable
  payload_entry-is_writable none = refl
  payload_entry-is_writable (some p) = writable-is_writable p.value

  module _ (values : Dict (Payload N)) where
    abbrev entry_of : Text → Entry N
    entry_of path = payload_entry finite (get path values)

    entries-is_writable :
        (paths : List Text)
        → all (λ (e : Entry N). is_writable finite e.value) (map entry_of paths) ≡ true
    entries-is_writable [] = refl
    entries-is_writable (p ∷ paths) =
        ground (arith, payload_entry-is_writable (get p values), entries-is_writable paths)

    length-entries : (paths : List Text) → length (map entry_of paths) ≡ length paths
    length-entries [] = refl
    length-entries (p ∷ paths) = ap suc (length-entries paths)

    get-collect :
        (path : Text) (paths : List Text) (result : Dict (Entry N))
        → get path (collect paths (map entry_of paths) result)
          ≡ (if includes path paths then some (entry_of path) else get path result)
    unfolding collect
    get-collect path [] result = refl
    get-collect path (p ∷ paths) result =
        rw
          (
            get-collect path paths (set_item p (entry_of p) result),
            get-set_item path p (entry_of p) result,
          )
          (elim (Bool-cases (text_eq p path)) [
            | inl e ↦
                rw (e, eq_of_text_eq p path e)
                  (if_ind (λ (x : Option (Entry N)). x ≡ some (entry_of path)) (includes path paths)
                    _ _ refl refl)
            | inr e ↦ rw e
          ])

  -- Where JSON and compression bring back every body of writable values, `decode_payload` succeeds
  -- on what `encode_payload` makes, and has for each of the paths the entry of its payload and for
  -- no other path an entry.
  pub decode-encode {κ} :
      {B : Type κ} (pack : List (Entry N) → B) (unpack : B → Option (List (Entry N)))
      → ((body : List (Entry N))
          → all (λ (e : Entry N). is_writable finite e.value) body ≡ true
          → unpack (pack body) ≡ some body)
      → (paths : List Text) (values : Dict (Payload N))
      → (d : Dict (Entry N)) × (decode_payload unpack paths
            (encode_payload finite pack paths values)
          ≡ some d)
        × ((path : Text)
            → get path d ≡ (
                if includes path paths
                then some (payload_entry finite (get path values))
                else none))
  unfolding decode_payload encode_payload get
  decode-encode pack unpack lossless paths values = (
    collect paths (map (entry_of values) paths) [],
    rw (
      decode_payload,
      lossless (map (entry_of values) paths) (entries-is_writable values paths),
      length-entries values paths,
      (==_iff (length paths) (length paths)).1 refl,
    ),
    λ path. get-collect values path paths [],
  )
