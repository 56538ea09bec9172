-- ===== src/Tests/Servers.antt =====
-- The servers of src/python/gizmo_sdr.py and src/python/gizmo_temperature.py at concrete inputs.
use gizmo.Prelude.{◌+◌, ◌*◌, ◌%◌, ◌≡◌, none, some, List, [], ◌∷◌, any, if◌then◌else◌, take, arith}
use gizmo.Text.{text}
use gizmo.Sdr.{room, blocked, serve_round, read_frame}
use gizmo.Sdr.Frame.{read_frame_keeps_bytes}
use gizmo.Sdr.Stream.{starts, serves, AllStreams, served-AllStreams}
use gizmo.Temperature.{
  Round, done, gone, failed, read_chassis_temperature, handle_client, closed, running,
}
use gizmo.Temperature.Readings.{
  signed13, read_chassis_temperature-signed13, loses_client, messages_until_loss,
  handle_client_ends_with_its_client,
}

-- A client that takes part of a frame, and the rest of it in the next round.
served-AllStreams_example : AllStreams ((4 ∷ 5 ∷ 6 ∷ []) ∷ (1 ∷ 2 ∷ 3 ∷ []) ∷ []) (
    serve_round 1
      (4 ∷ 5 ∷ 6 ∷ [])
      (room 9 ∷ blocked ∷ [])
      (serve_round 1 (1 ∷ 2 ∷ 3 ∷ []) (room 2 ∷ []) []))
served-AllStreams_example =
    served-AllStreams ((4 ∷ 5 ∷ 6 ∷ []) ∷ (1 ∷ 2 ∷ 3 ∷ []) ∷ [])
      (serve_round 1 (4 ∷ 5 ∷ 6 ∷ []) (room 9 ∷ blocked ∷ [])
        (serve_round 1 (1 ∷ 2 ∷ 3 ∷ []) (room 2 ∷ []) []))
      (serves 1 (4 ∷ 5 ∷ 6 ∷ []) (room 9 ∷ blocked ∷ [])
        (serves 1 (1 ∷ 2 ∷ 3 ∷ []) (room 2 ∷ []) starts))

read_frame_keeps_bytes_example :
    read_frame 1 (255 ∷ 0 ∷ 3 ∷ 200 ∷ 7 ∷ []) ≡ take (1 * 4) (255 ∷ 0 ∷ 3 ∷ 200 ∷ 7 ∷ [])
read_frame_keeps_bytes_example =
    read_frame_keeps_bytes 1 (255 ∷ 0 ∷ 3 ∷ 200 ∷ 7 ∷ []) (omega arith) (omega arith)

read_chassis_temperature-signed13_example :
    read_chassis_temperature 0xDF 0xF0 ≡ signed13 ((0xDF * 256 + 0xF0) % 8192)
read_chassis_temperature-signed13_example =
    read_chassis_temperature-signed13 0xDF 0xF0 (omega arith) (omega arith)

abbrev rounds : List Round
rounds =
    record { bus = done (1, 144); files = some (text "41000\n") ∷ none ∷ []; socket = done tt }
    ∷ record { bus = failed; files = []; socket = done tt }
    ∷ record { bus = done (1, 144); files = []; socket = gone }
    ∷ []

handle_client_ends_with_its_client_example :
    handle_client rounds
    ≡ (messages_until_loss rounds, if any loses_client rounds then closed else running)
handle_client_ends_with_its_client_example = handle_client_ends_with_its_client rounds
