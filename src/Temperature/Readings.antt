-- ===== src/Temperature/Readings.antt =====
-- The readings of src/python/gizmo_temperature.py.
use gizmo.Prelude.{
  ℕ, suc, ◌+◌, ◌-◌, ◌*◌, ◌%◌, ◌<◌, ◌≡◌, refl, Bool, true, false, ◌||◌, ◌&&◌, Option, none, some,
  List, [], ◌∷◌, ◌++◌, ltb, if◌then◌else◌, length, arith, any, ◌∙◌,
}
use gizmo.Text.{Text}
use gizmo.Common.{ℤ, pos, negsuc}
use gizmo.Temperature.{
  ambient_bits, below_zero, read_chassis_temperature, cpu_temperature, read_all, pad,
  read_cpu_temperatures, message, Message, Call, done, gone, failed, Round, send_message, answer,
  End, running, closed, then_rest, handle_client,
}

-- A number of thirteen bits as a signed one.
unfoldable pub signed13 : ℕ → ℤ
signed13 w = if ltb w 4096 then pos w else negsuc (8191 - w)

-- For two bytes, the chassis temperature in sixteenths of a degree is their low thirteen bits as a
-- signed number.
pub read_chassis_temperature-signed13 :
    (high low : ℕ)
    → high < 256
    → low < 256
    → read_chassis_temperature high low ≡ signed13 ((high * 256 + low) % 8192)
unfolding read_chassis_temperature signed13 ambient_bits below_zero
read_chassis_temperature-signed13 high low h l = ground arith

-- The temperature of a file, and nan where there is none.
abbrev pub reading : List (Option Text) → Option ℤ × List (Option Text)
reading [] = (none, [])
reading (file ∷ files) = (cpu_temperature file, files)

message_lem :
    (chassis : ℤ) (files : List (Option Text))
    → message chassis (read_cpu_temperatures files)
      ≡ some record {
        chassis = chassis;
        cpu1 = (reading files).0;
        cpu2 = (reading (reading files).1).0;
        cpu3 = (reading (reading (reading files).1).1).0;
      }
unfolding message read_cpu_temperatures pad read_all
message_lem chassis [] = refl
message_lem chassis (a ∷ []) = refl
message_lem chassis (a ∷ b ∷ []) = refl
message_lem chassis (a ∷ b ∷ c ∷ files) = rw (long (length (read_all files)))
  where
    long : (n : ℕ) → ltb (suc (suc (suc n))) 3 ≡ false
    long n = ground arith

-- The client is gone as the bus is read, or as the message is sent.
abbrev pub is_gone {ℓ} : {A : Type ℓ} → Call A → Bool
is_gone gone = true
is_gone (done a) = false
is_gone failed = false

abbrev pub is_done {ℓ} : {A : Type ℓ} → Call A → Bool
is_done (done a) = true
is_done gone = false
is_done failed = false

abbrev pub loses_client : Round → Bool
loses_client r = is_gone r.bus || is_done r.bus && is_gone r.socket

-- The temperatures of a file list, as a message has them.
abbrev pub message_of : ℕ × ℕ → List (Option Text) → Message
message_of raw files = record {
  chassis = read_chassis_temperature raw.0 raw.1;
  cpu1 = (reading files).0;
  cpu2 = (reading (reading files).1).0;
  cpu3 = (reading (reading (reading files).1).1).0;
}

-- What a round sends whole.
abbrev pub sent_by : Call (ℕ × ℕ) → List (Option Text) → Call (Unit {0}) → List Message
sent_by (done raw) files (done u) = message_of raw files ∷ []
sent_by (done raw) files gone = []
sent_by (done raw) files failed = []
sent_by gone files socket = []
sent_by failed files socket = []

-- The messages of the rounds up to the first that loses the client.
unfoldable pub messages_until_loss : List Round → List Message
messages_until_loss [] = []
messages_until_loss (r ∷ rounds) =
    let rest = messages_until_loss rounds in
    if loses_client r then [] else sent_by r.bus r.files r.socket ++ rest

-- What a round comes to, where the message of the readings is written out.
answer_lem :
    (bus : Call (ℕ × ℕ)) (files : List (Option Text)) (socket : Call (Unit {0}))
    (rest : List Message × End)
    → then_rest (answer bus files socket) rest ≡ (
        if is_gone bus || is_done bus && is_gone socket
        then ([], closed)
        else (sent_by bus files socket ++ rest.0, rest.1))
unfolding answer then_rest send_message
answer_lem gone files socket rest = refl
answer_lem failed files socket rest = refl
answer_lem (done (high, low)) files socket rest =
    rw (message_lem (read_chassis_temperature high low) files) (by_socket socket)
  where
    by_socket :
        (s : Call (Unit {0}))
        → then_rest (send_message s (some (message_of (high, low) files))) rest ≡ (
            if is_gone s
            then ([], closed)
            else (sent_by (done (high, low)) files s ++ rest.0, rest.1))
    by_socket gone = refl
    by_socket failed = refl
    by_socket (done u) = refl

-- The messages that a temperature client is sent are those of the rounds before the first that
-- loses it in which the bus and the socket end well, in order, with the chassis and the first
-- three processors, nan where there is no file. A round loses the client where the bus, or the
-- socket behind a bus that was read, ends with a broken pipe, a reset or a timeout; the loop is
-- closed exactly if there is such a round, and no round raises: any other OSError is passed over.
pub handle_client_ends_with_its_client :
    (rounds : List Round)
    → handle_client rounds
      ≡ (messages_until_loss rounds, if any loses_client rounds then closed else running)
unfolding handle_client messages_until_loss
handle_client_ends_with_its_client [] = refl
handle_client_ends_with_its_client (r ∷ rounds) =
    answer_lem r.bus r.files r.socket (handle_client rounds)
    ∙ rw (handle_client_ends_with_its_client rounds)
        (either (loses_client r) (any loses_client rounds))
  where
    either :
        (t u : Bool)
        → ◌≡◌ {A = List Message × End}
            (if t then ([], closed) else (
              sent_by r.bus r.files r.socket ++ messages_until_loss rounds,
              if u then closed else running,
            ))
            (
              if t then [] else sent_by r.bus r.files r.socket ++ messages_until_loss rounds,
              if t || u then closed else running,
            )
    either true u = refl
    either false u = refl
