-- ===== src/Zmq.antt =====
-- src/python/gizmo_zmq.py: the ZeroMQ command server. A handler works on the files of the state
-- directory and on the privileged control service; it returns its reply or raises.
pub mod Handler
pub mod Directory
pub mod Kept
pub mod Accepts
use gizmo.Prelude.{
  ℕ, ◌+◌, ◌-◌, ◌*◌, ◌≡◌, Bool, true, false, not, ◌&&◌, ◌||◌, Option, none, some, List, [], ◌∷◌,
  ◌++◌, ltb, leb, ◌==◌, any, all, if◌then◌else◌,
}
use gizmo.Text.{
  Text, text, text_eq, strip, split, starts_with, remove_prefix, decimal, is_digit, all_digits,
  digits_value,
}
use gizmo.Common.{ℤ, int_text, read_exported_int}

abbrev pub threshold_min_ohm : ℕ
threshold_min_ohm = 0

abbrev pub threshold_max_ohm : ℕ
threshold_max_ohm = 1_000_000

-- The files of the state directory that the server touches.
pub data File : Type 0 where
  set_run_interval set_threshold zmon_arg1 zmon_arg2 zmon_arg3 latch_state : File
  adc_csv rcalibration_csv ccalibration_csv : File

-- The state directory, and the commands that the control service has been sent, the latest first.
pub record Board : Type 0 where
  pub file : File → Option Text
  pub controls : List Text

pub data Result {ℓ} (A : Type ℓ) : Type ℓ where
  ok : A → Result A
  err : Text → Result A

-- What the environment answers while one message is handled.
pub record World : Type 0 where
  -- `atomic_write` of the file raises with this text
  pub write_error : File → Option Text
  -- the first 512 bytes that the control service answers, or the socket's error
  pub control : Text → Result Text
  -- up to 2048 bytes from the measurement engine, or the socket's error
  pub zmon : Result Text
  -- `time.mktime` of `datetime.strptime`; `err` is the ValueError of `strptime`
  pub epoch_of : Text → Result ℤ
  pub read_error : File → Text

abbrev pub Action : Type 0 → Type 0
Action A = World → Board → Result A × Board

infixl 5 ◌>>=◌ ◌>>◌
unfoldable pub ◌>>=◌ : {A B : Type 0} → Action A → (A → Action B) → Action B
◌>>=◌ m f w b = let (r, b') = m w b in elim r [ ok a ↦ f a w b' | err e ↦ (err e, b') ]

abbrev pub ◌>>◌ : {A B : Type 0} → Action A → Action B → Action B
m >> k = m >>= λ _. k

unfoldable pub pure : {A : Type 0} → A → Action A
pure a w b = (ok a, b)

unfoldable pub raise : {A : Type 0} → Text → Action A
raise e w b = (err e, b)

abbrev pub file_index : File → ℕ
file_index File.set_run_interval = 0
file_index File.set_threshold = 1
file_index File.zmon_arg1 = 2
file_index File.zmon_arg2 = 3
file_index File.zmon_arg3 = 4
file_index File.latch_state = 5
file_index File.adc_csv = 6
file_index File.rcalibration_csv = 7
file_index File.ccalibration_csv = 8

abbrev pub file_eq : File → File → Bool
file_eq f g = file_index f == file_index g

-- `atomic_write(state_path(name), contents)`: all of the contents or none
unfoldable pub write_file : File → Text → Action Unit
write_file f contents w b = elim (w.write_error f) [
  | some e ↦ (err e, b)
  | none ↦ (ok tt, record b { file = λ g. if file_eq f g then some contents else b.file g })
]

-- `response or "empty response from gizmo-control"`
abbrev or_empty : Text → Text
or_empty [] = text "empty response from gizmo-control"
or_empty t = t

abbrev accept_response : Text → Result Text
accept_response response =
    if starts_with response (text "OK ")
    then ok (remove_prefix response (text "OK "))
    else err (or_empty response)

-- `request_control`
unfoldable pub request_control : Text → Action Text
request_control command w b = (
  elim (w.control command) [ err e ↦ err e | ok response ↦ accept_response (strip response) ],
  record b { controls = command ∷ b.controls },
)

-- `any(character in argument for character in ('"', "\n", "\r"))`
unfoldable pub is_unsafe : Text → Bool
is_unsafe argument = any (λ c. c == 34 || c == 10 || c == 13) argument

-- One round of the loop in `write_zmon_arguments`.
unfoldable pub write_argument : File → Text → Text → Action Unit
write_argument f index argument =
    if is_unsafe argument
    then raise (text "invalid character in ZMon argument")
    else write_file f (text "ZMonArg" ++ index ++ text "=\"" ++ argument ++ text "\"\n")

-- `write_zmon_arguments`, on the padded arguments
unfoldable pub write_zmon_arguments : Text → Text → Text → Action Unit
write_zmon_arguments a b c = do
  write_argument File.zmon_arg1 (text "1") a
  write_argument File.zmon_arg2 (text "2") b
  write_argument File.zmon_arg3 (text "3") c

-- `restart_zmon`
unfoldable pub restart_zmon : Text → Text → Text → Action Text
restart_zmon a b c = do write_zmon_arguments a b c; request_control (text "restart-zmon")

invalid_format : Text → Text
invalid_format command = text "Invalid format. Use '" ++ command ++ text " N' where N is a number."

-- The checks of `parse_integer` on the parts of the message.
unfoldable pub parse_parts : List Text → Text → Bool → ℕ → Result ℕ
unfolding invalid_format
parse_parts [] command allow_zero maximum = err (invalid_format command)
parse_parts (word ∷ []) command allow_zero maximum = err (invalid_format command)
parse_parts (word ∷ number ∷ []) command allow_zero maximum =
    if not (text_eq word command) || not (all_digits number)
    then err (invalid_format command)
    else (let value = digits_value 0 number in
        let minimum : ℕ = if allow_zero then 0 else 1 in
        if ltb value minimum || ltb maximum value
        then err (
            command
            ++ text " must be between "
            ++ decimal minimum
            ++ text " and "
            ++ decimal maximum
            ++ text ".")
        else ok value)
parse_parts (word ∷ number ∷ part ∷ parts) command allow_zero maximum = err (invalid_format command)

-- `parse_integer`
unfoldable pub parse_integer : Text → Text → Bool → ℕ → Result ℕ
parse_integer message command allow_zero maximum =
    parse_parts (split message) command allow_zero maximum

unfoldable pub lift : {A : Type 0} → Result A → Action A
lift r w b = (r, b)

-- `read_text_file`
unfoldable pub read_text_file : File → Text → Action Text
read_text_file f name w b = elim (b.file f) [
  | some contents ↦ (ok contents, b)
  | none ↦ (ok (text "Unable to read " ++ name ++ text ": " ++ w.read_error f), b)
]

-- `get_zmon_data`, less the line it prints
unfoldable pub get_zmon_data : Action Text
get_zmon_data w b =
    (ok (elim w.zmon [ ok t ↦ t | err e ↦ text "Failed to get data from C-server" ]), b)
