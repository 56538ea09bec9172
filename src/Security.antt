-- ===== src/Security.antt =====
-- src/python/gizmo_security.py: the credential file of the OPC UA command boundary. Bytes are numbers below
-- 256; the key derivation of `hashlib` is a parameter, which takes the password, the salt and the
-- iterations. An error of `load` keeps the number of its line and leaves its message out.
pub mod Load
pub mod Login
use gizmo.Prelude.{
  ℕ, zero, suc, ◌+◌, ◌-◌, ◌*◌, ◌/◌, ◌%◌, ◌≡◌, Bool, true, false, not, ◌&&◌, ◌||◌, Option, none,
  some, List, [], ◌∷◌, ◌++◌, ltb, leb, ◌==◌, any, all, length, is_some, if◌then◌else◌,
}
use gizmo.Text.{Text, text, text_eq, strip, starts_with, decimal, split_lines}
use gizmo.Common.{ℤ, pos, negsuc, parse_int}

abbrev pub Bytes : Type 0
Bytes = List ℕ

abbrev pub password_scheme : Text
password_scheme = text "pbkdf2-sha256"

abbrev pub password_iterations : ℕ
password_iterations = 310_000

-- `Credential`
pub record Credential : Type 0 where
  pub username : Text
  pub role : Text
  pub iterations : ℕ
  pub salt : Bytes
  pub digest : Bytes

abbrev pub is_identifier_character : ℕ → Bool
is_identifier_character c =
    (leb 65 c && leb c 90)
    || (leb 97 c && leb c 122)
    || (leb 48 c && leb c 57)
    || c == 95
    || c == 46
    || c == 45

-- `_IDENTIFIER.fullmatch`
unfoldable pub is_identifier : Text → Bool
is_identifier s = leb 1 (length s) && leb (length s) 64 && all is_identifier_character s

-- `role in VALID_ROLES`
unfoldable pub is_valid_role : Text → Bool
is_valid_role role = text_eq role (text "operator") || text_eq role (text "maintenance")

-- `validate_identity` raises nothing
unfoldable pub validate_identity : Text → Text → Bool
validate_identity username role = is_identifier username && is_valid_role role

-- `100_000 <= iterations <= 10_000_000`
unfoldable pub iterations_in_range : ℕ → Bool
iterations_in_range n = leb 100_000 n && leb n 10_000_000

unfoldable pub salt_in_range : Bytes → Bool
salt_in_range salt = not (ltb (length salt) 16 || ltb 64 (length salt))

hex_digit : ℕ → ℕ
hex_digit n = if ltb n 10 then 48 + n else 87 + n

-- `b.hex()`
unfoldable pub hex : Bytes → Text
unfolding hex_digit
hex [] = []
hex (b ∷ bytes) = hex_digit (b / 16) ∷ hex_digit (b % 16) ∷ hex bytes

unfoldable pub hex_value : ℕ → Option ℕ
hex_value c =
    if leb 48 c && leb c 57
    then some (c - 48)
    else if leb 97 c && leb c 102
    then some (c - 87)
    else if leb 65 c && leb c 70
    then some (c - 55)
    else none

-- The white space of ASCII, which `bytes.fromhex` skips between two bytes.
abbrev is_ascii_space : ℕ → Bool
is_ascii_space c = c == 32 || (leb 9 c && leb c 13)

-- `bytes.fromhex`, with the first digit of a byte that is half read: `none` is ValueError
unfoldable pub from_hex : Option ℕ → Text → Option Bytes
from_hex none [] = some []
from_hex (some high) [] = none
from_hex none (c ∷ s) =
    let started = from_hex (hex_value c) s in
    let skipped = from_hex none s in
    if is_ascii_space c then skipped else if is_some (hex_value c) then started else none
from_hex (some high) (c ∷ s) =
    let rest = from_hex none s in
    elim (hex_value c) [
      | none ↦ none
      | some low ↦ elim rest [ none ↦ none | some bytes ↦ some ((high * 16 + low) ∷ bytes) ]
    ]

unfoldable pub attach : ℕ → List Text → List Text
attach c [] = (c ∷ []) ∷ []
attach c (field ∷ fields) = (c ∷ field) ∷ fields

-- `s.split(":")`
unfoldable pub split_colon : Text → List Text
unfolding attach
split_colon [] = [] ∷ []
split_colon (c ∷ s) = let rest = split_colon s in if c == 58 then [] ∷ rest else attach c rest

-- `self._credentials.get(username)`, in the order of insertion
unfoldable pub lookup : Text → List Credential → Option Credential
lookup username [] = none
lookup username (c ∷ store) =
    let rest = lookup username store in if text_eq username c.username then some c else rest

abbrev iterations_of : Option ℤ → Option ℕ
iterations_of (some (pos n)) = if iterations_in_range n then some n else none
iterations_of n = none

abbrev lengths_in_range : Bytes → Bytes → Bool
lengths_in_range salt digest = salt_in_range salt && length digest == 32

-- The record that six fields make, unless one of the checks raises ValueError.
unfoldable pub parse_fields :
    List Credential → Text → Text → Text → Text → Text → Text → Option Credential
parse_fields store username role scheme iterations_text salt_text digest_text =
    elim (iterations_of (parse_int (strip iterations_text))) [
      | none ↦ none
      | some iterations ↦ elim (from_hex none salt_text) [
        | none ↦ none
        | some salt ↦ elim (from_hex none digest_text) [
          | none ↦ none
          | some digest ↦
              if validate_identity username role
                && text_eq scheme password_scheme
                && lengths_in_range salt digest
                && not (is_some (lookup username store))
              then some record {
                username = username;
                role = role;
                iterations = iterations;
                salt = salt;
                digest = digest;
              }
              else none
        ]
      ]
    ]

-- `len(fields) != 6`, and the record
unfoldable pub parse_record : List Credential → List Text → Option Credential
parse_record store (a ∷ b ∷ c ∷ d ∷ e ∷ f ∷ []) = parse_fields store a b c d e f
parse_record store fields = none

pub data Loaded : Type 0 where
  loaded : List Credential → Loaded
  -- RuntimeError at this line
  invalid_record : ℕ → Loaded
  unreadable : Loaded

unfoldable pub is_skipped : Text → Bool
is_skipped [] = true
is_skipped (c ∷ s) = c == 35

-- The loop over the lines, from a number on.
unfoldable pub load_lines : ℕ → List Credential → List Text → Loaded
unfolding is_skipped
load_lines n store [] = Loaded.loaded store
load_lines n store (raw ∷ lines) =
    let skipped = load_lines (n + 1) store lines in
    if is_skipped (strip raw)
    then skipped
    else elim (parse_record store (split_colon (strip raw))) [
      | none ↦ Loaded.invalid_record n
      | some credential ↦ load_lines (n + 1) (store ++ credential ∷ []) lines
    ]

-- What reading the file comes to.
pub data CredentialFile : Type 0 where
  not_found unreadable : CredentialFile
  contents : Text → CredentialFile

-- `CredentialStore.load`
unfoldable pub load : CredentialFile → Loaded
load CredentialFile.not_found = Loaded.loaded []
load CredentialFile.unreadable = Loaded.unreadable
load (CredentialFile.contents t) = load_lines 1 [] (split_lines t)

-- `hmac.compare_digest`
unfoldable pub bytes_eq : Bytes → Bytes → Bool
bytes_eq [] [] = true
bytes_eq [] (b ∷ t) = false
bytes_eq (a ∷ s) [] = false
bytes_eq (a ∷ s) (b ∷ t) = a == b && bytes_eq s t

module _ (pbkdf2_hmac : Text → Bytes → ℕ → Bytes) where
  -- `Credential.verifies`
  unfoldable pub verifies : Credential → Text → Bool
  verifies c password = bytes_eq (pbkdf2_hmac password c.salt c.iterations) c.digest

  -- `authenticate`: the role, or `None`
  unfoldable pub authenticate : List Credential → Text → Text → Option Text
  authenticate store username password = elim (lookup username store) [
    | none ↦ none
    | some c ↦ if verifies c password then some c.role else none
  ]

  -- `credential_line` with a given salt: `none` is ValueError
  unfoldable pub credential_line : Text → Text → Text → Bytes → ℕ → Option Text
  credential_line username role password salt iterations =
      if validate_identity username role
        && iterations_in_range iterations
        && leb 16 (length password)
        && salt_in_range salt
      then some (
          username
          ++ 58 ∷ role
          ++ 58 ∷ password_scheme
          ++ 58 ∷ decimal iterations
          ++ 58 ∷ hex salt
          ++ 58 ∷ hex (pbkdf2_hmac password salt iterations))
      else none
