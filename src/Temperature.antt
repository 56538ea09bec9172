-- ===== src/Temperature.antt =====
-- src/python/gizmo_temperature.py: the server of the chassis and processor temperatures. The chassis
-- is in sixteenths of a degree and a processor in thousandths, before they are formatted.
pub mod Readings
use gizmo.Prelude.{
  ℕ, zero, suc, ◌+◌, ◌-◌, ◌*◌, ◌/◌, ◌%◌, Bool, true, false, Option, none, some, List, [], ◌∷◌, ◌++◌,
  ltb, ◌==◌, if◌then◌else◌, length,
}
use gizmo.Text.{Text, strip}
use gizmo.Common.{ℤ, pos, negsuc, parse_int}

-- `((raw[0] << 8) | raw[1]) & 0x0FFF`, of two bytes
unfoldable pub ambient_bits : ℕ → ℕ → ℕ
ambient_bits high low = (high * 256 + low) % 4096

-- `celsius -= 256`, on sixteenths
unfoldable pub below_zero : ℕ → ℤ
below_zero value = if ltb value 4096 then negsuc (4096 - value - 1) else pos (value - 4096)

-- `read_chassis_temperature`, of the two bytes of the register; the test is `raw[0] & 0x10`
unfoldable pub read_chassis_temperature : ℕ → ℕ → ℤ
read_chassis_temperature high low =
    if (high / 16) % 2 == 1 then below_zero (ambient_bits high low) else pos (ambient_bits high low)

-- `int(path.read_text().strip())`: `none` is the nan of a file that cannot be read or is no number
unfoldable pub cpu_temperature : Option Text → Option ℤ
cpu_temperature none = none
cpu_temperature (some contents) = parse_int (strip contents)

-- The loop over the files.
unfoldable pub read_all : List (Option Text) → List (Option ℤ)
read_all [] = []
read_all (file ∷ files) = cpu_temperature file ∷ read_all files

-- `while len(temperatures) < 3`, on fuel
unfoldable pub pad : ℕ → List (Option ℤ) → List (Option ℤ)
pad zero temperatures = temperatures
pad (suc fuel) temperatures =
    let rest = pad fuel (temperatures ++ none ∷ []) in
    if ltb (length temperatures) 3 then rest else temperatures

-- `read_cpu_temperatures`; an empty list needs three rounds
unfoldable pub read_cpu_temperatures : List (Option Text) → List (Option ℤ)
read_cpu_temperatures files = pad 3 (read_all files)

pub record Message : Type 0 where
  pub chassis : ℤ
  pub cpu1 : Option ℤ
  pub cpu2 : Option ℤ
  pub cpu3 : Option ℤ

-- The message; `none` is the IndexError of a list that is too short
unfoldable pub message : ℤ → List (Option ℤ) → Option Message
message chassis (a ∷ b ∷ c ∷ rest) = some record { chassis = chassis; cpu1 = a; cpu2 = b; cpu3 = c }
message chassis (a ∷ b ∷ []) = none
message chassis (a ∷ []) = none
message chassis [] = none

-- What a call of the bus or of the socket does: it ends well, with BrokenPipeError,
-- ConnectionResetError or TimeoutError, or with another OSError.
pub data Call {ℓ} (A : Type ℓ) : Type ℓ where
  done : A → Call A
  gone failed : Call A

-- One round of the loop: the bytes of the bus, the files and the socket.
pub record Round : Type 0 where
  pub bus : Call (ℕ × ℕ)
  pub files : List (Option Text)
  pub socket : Call (Unit {0})

-- What a round comes to.
pub data Outcome : Type 0 where
  sent : Message → Outcome
  stopped : Outcome
  again : Outcome
  index_error : Outcome

unfoldable pub send_message : Call (Unit {0}) → Option Message → Outcome
send_message socket none = index_error
send_message (done u) (some m) = sent m
send_message gone (some m) = stopped
send_message failed (some m) = again

unfoldable pub answer : Call (ℕ × ℕ) → List (Option Text) → Call (Unit {0}) → Outcome
answer (done (high, low)) files socket =
    send_message socket (message (read_chassis_temperature high low) (read_cpu_temperatures files))
answer gone files socket = stopped
answer failed files socket = again

-- Why the loop of `handle_client` is over: it is not, the client is gone, or it raised.
pub data End : Type 0 where
  running closed raised : End

unfoldable pub then_rest : Outcome → List Message × End → List Message × End
then_rest (sent m) rest = (m ∷ rest.0, rest.1)
then_rest again rest = rest
then_rest stopped rest = ([], closed)
then_rest index_error rest = ([], raised)

-- `handle_client` over the rounds: the messages that were sent whole, and the end
unfoldable pub handle_client : List Round → List Message × End
handle_client [] = ([], running)
handle_client (r ∷ rounds) = then_rest (answer r.bus r.files r.socket) (handle_client rounds)
