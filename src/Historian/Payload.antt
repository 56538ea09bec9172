-- ===== src/Historian/Payload.antt =====
-- `payload_entry`, `encode_payload` and `decode_payload` of src/python/gizmo_historian.py. JSON and
-- zlib are the parameters `pack` and `unpack`: a body of entries as one blob, and back, where `none`
-- is a blob that does not decode. What a blob is made of is left open. `finite` is `math.isfinite`.
pub mod RoundTrip
use gizmo.Prelude.{
  ℕ, Bool, true, false, not, Option, none, some, List, [], ◌∷◌, map, ◌==◌, if◌then◌else◌, length,
}
use gizmo.Text.{Text, text, text_eq}

-- What a variable may hold; `number` is a Python int or float.
pub data Value {ℓ} (N : Type ℓ) : Type ℓ where
  nothing : Value N
  flag : Bool → Value N
  number : N → Value N
  words : Text → Value N

-- A payload of a snapshot: its time is that of `parse_time_us`.
pub record Payload {ℓ} (N : Type ℓ) : Type ℓ where
  pub value : Value N
  pub status : Option Text
  pub source_time_us : Option ℕ

-- One entry of a stored body, and one value of what `decode_payload` returns.
pub record Entry {ℓ} (N : Type ℓ) : Type ℓ where
  pub value : Value N
  pub status : Text
  pub source_time_us : Option ℕ

abbrev pub Blob : Type 0
Blob = List ℕ

-- `payload.get(…) or default`: an empty status is replaced too
unfoldable pub status_or : Text → Option Text → Text
status_or default none = default
status_or default (some []) = default
status_or default (some (c ∷ s)) = c ∷ s

-- A dictionary with the paths as keys.
abbrev pub Dict {ℓ} : Type ℓ → Type ℓ
Dict A = List (Text × A)

module _ {ℓ} {A : Type ℓ} where
  -- `d.get(path)`
  unfoldable pub get : Text → Dict A → Option A
  get path [] = none
  get path ((key, a) ∷ d) = if text_eq key path then some a else get path d

  -- `d[path] = a`
  unfoldable pub set_item : Text → A → Dict A → Dict A
  set_item path a [] = (path, a) ∷ []
  set_item path a ((key, b) ∷ d) =
      if text_eq key path then (key, a) ∷ d else (key, b) ∷ set_item path a d

module _ {ℓ} {N : Type ℓ} (finite : N → Bool) where
  -- The value that JSON can write.
  unfoldable pub writable : Value N → Value N
  writable (number n) = if finite n then number n else nothing
  writable nothing = nothing
  writable (flag b) = flag b
  writable (words s) = words s

  -- `json.dumps` with `allow_nan=False` writes it.
  unfoldable pub is_writable : Value N → Bool
  is_writable (number n) = finite n
  is_writable nothing = true
  is_writable (flag b) = true
  is_writable (words s) = true

  -- `payload_entry`
  unfoldable pub payload_entry : Option (Payload N) → Entry N
  payload_entry none = record {
    value = nothing;
    status = text "BadWaitingForInitialData";
    source_time_us = none;
  }
  payload_entry (some p) = record {
    value = writable p.value;
    status = status_or (text "BadWaitingForInitialData") p.status;
    source_time_us = p.source_time_us;
  }

  -- `encode_payload`
  unfoldable pub encode_payload {κ} :
      {B : Type κ} → (List (Entry N) → B) → List Text → Dict (Payload N) → B
  encode_payload pack paths values = pack (map (λ path. payload_entry (get path values)) paths)

-- The loop of `decode_payload`.
unfoldable pub collect {ℓ} :
    {N : Type ℓ} → List Text → List (Entry N) → Dict (Entry N) → Dict (Entry N)
collect (path ∷ paths) (entry ∷ entries) result = collect paths entries (set_item path entry result)
collect [] entries result = result
collect (path ∷ paths) [] result = result

-- `decode_payload`; `none` is an exception
unfoldable pub decode_payload {ℓ κ} :
    {N : Type ℓ} {B : Type κ}
    → (B → Option (List (Entry N)))
    → List Text
    → B
    → Option (Dict (Entry N))
decode_payload unpack paths payload = elim (unpack payload) [
  | none ↦ none
  | some entries ↦ if length paths == length entries then some (collect paths entries []) else none
]
