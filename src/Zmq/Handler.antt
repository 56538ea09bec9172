-- ===== src/Zmq/Handler.antt =====
-- src/python/gizmo_zmq.py: `handle_message`, a function per kind of message, and the reply that `main`
-- sends.
use gizmo.Prelude.{
  ℕ, Bool, true, false, not, ◌&&◌, ◌||◌, [], ◌∷◌, ◌++◌, ltb, leb, ◌==◌, if◌then◌else◌,
}
use gizmo.Text.{
  Text, text, text_eq, strip, starts_with, remove_prefix, decimal, is_digit, all_digits,
  digits_value,
}
use gizmo.Common.{ℤ, int_text, read_exported_int}
use gizmo.Zmq.{
  File, World, Board, Result, ok, err, Action, ◌>>=◌, ◌>>◌, pure, raise, lift, write_file,
  request_control, restart_zmon, parse_integer, read_text_file, get_zmon_data, threshold_min_ohm,
  threshold_max_ohm,
}

-- Whether text has the shape of a template in which `d` (100) stands for a digit, and what follows.
unfoldable match_template : Text → Text → Text × Bool
match_template [] s = (s, true)
match_template (t ∷ template) [] = ([], false)
match_template (t ∷ template) (c ∷ s) =
    let rest = match_template template s in
    if (if t == 100 then is_digit c else c == t) then rest else (s, false)

is_fraction : Text → Bool
is_fraction [] = true
is_fraction (c ∷ s) = c == 46 && all_digits s

-- `TIME_PATTERN.fullmatch`
unfoldable pub matches_time : Text → Bool
unfolding match_template is_fraction
matches_time s =
    let (rest, matched) = match_template (text "dddd-dd-dd dd:dd:dd") s in
    matched && is_fraction rest

-- `s.split(".", 1)[0]`
unfoldable pub before_dot : Text → Text
before_dot [] = []
before_dot (c ∷ s) = let rest = before_dot s in if c == 46 then [] else c ∷ rest

-- `atomic_write(state_path("setRunInterval.env"), ...)`
unfoldable pub write_interval : ℕ → Action Unit
write_interval interval =
    write_file File.set_run_interval (text "export runInterval=" ++ decimal interval ++ text "\n")

unfoldable pub write_threshold : ℕ → Action Unit
write_threshold threshold =
    write_file File.set_threshold (text "export threshold=" ++ decimal threshold ++ text "\n")

unfoldable pub run_message : Text → ℕ → Action Text
run_message message threshold = do
  interval ← lift (parse_integer message (text "run") false 1_000_000)
  write_interval interval
  result ← restart_zmon (text "set_th " ++ decimal threshold) (text "run " ++ decimal interval) []
  pure (
      text "Measurement interval updated to "
      ++ decimal interval
      ++ text "; "
      ++ result
      ++ text ".")

unfoldable pub calibrate_message : Text → ℕ → Action Text
calibrate_message message threshold = do
  interval ← lift (parse_integer message (text "CAL") false 1_000_000)
  write_interval interval
  result ←
      restart_zmon (text "CAL " ++ decimal interval) (text "set_th " ++ decimal threshold)
        (text "run " ++ decimal interval)
  pure (
      text "Calibration requested with "
      ++ decimal interval
      ++ text " reads; "
      ++ result
      ++ text ".")

unfoldable pub threshold_message : Text → ℤ → Action Text
threshold_message message run_interval = do
  threshold ←
      lift (parse_integer message (text "set_th") (threshold_min_ohm == 0) threshold_max_ohm)
  write_threshold threshold
  result ←
      restart_zmon (text "set_th " ++ decimal threshold) (text "run " ++ int_text run_interval) []
  pure (text "Threshold updated to " ++ decimal threshold ++ text "; " ++ result ++ text ".")

unfoldable pub read_adc_message : ℕ → ℤ → Action Text
read_adc_message threshold run_interval = do
  result ←
      restart_zmon (text "read_adc") (text "set_th " ++ decimal threshold)
        (text "run " ++ int_text run_interval)
  pure (text "ADC capture requested; " ++ result ++ text ".")

-- The two requests with which both ways to set the clock end.
unfoldable pub set_clock : ℤ → Action Text
set_clock epoch_seconds = do
  time_result ← request_control (text "set-time " ++ int_text epoch_seconds)
  restart_result ← request_control (text "restart-zmon")
  pure (time_result ++ text "; " ++ restart_result ++ text ".")

unfoldable pub parse_local_time : Text → Action ℤ
parse_local_time requested w b = (w.epoch_of (before_dot requested), b)

unfoldable pub set_time_message : Text → Action Text
set_time_message requested =
    if not (matches_time requested)
    then pure (text "Invalid time format. Use 'set_time YYYY-MM-DD HH:MM:SS[.SSSSSS]'.")
    else (do epoch_seconds ← parse_local_time requested; set_clock epoch_seconds)

unfoldable pub set_time_epoch_message : Text → Action Text
set_time_epoch_message epoch_text =
    if not (all_digits epoch_text)
    then pure (text "Invalid epoch format. Use 'set_time_epoch SECONDS'.")
    else (let epoch_seconds = digits_value 0 epoch_text in
        if ltb epoch_seconds 946_684_800 || ltb 4_102_444_800 epoch_seconds
        then pure (text "Epoch must represent a time from 2000-01-01 through 2100-01-01.")
        else set_clock (ℤ.pos epoch_seconds))

unfoldable pub get_data_message : Action Text
get_data_message = do contents ← get_zmon_data; pure (text "Data from C-server: " ++ contents)

unfoldable pub clear_latch_message : Action Text
clear_latch_message = do
  write_file File.latch_state (text "latched=0\n\n")
  pure (text "Cleared Latch value in latchState.env")

-- The messages without an argument and the two clocks, from the test for `read_adc` on, but for
-- `read_adc` itself.
unfoldable pub query_message : Text → Action Text
query_message message =
    if starts_with message (text "set_time ")
    then set_time_message (strip (remove_prefix message (text "set_time ")))
    else if starts_with message (text "set_time_epoch ")
    then set_time_epoch_message (strip (remove_prefix message (text "set_time_epoch ")))
    else if text_eq message (text "get_adc")
    then read_text_file File.adc_csv (text "adc.csv")
    else if text_eq message (text "get_Rcal")
    then read_text_file File.rcalibration_csv (text "Rcalibration.csv")
    else if text_eq message (text "get_Ccal")
    then read_text_file File.ccalibration_csv (text "Ccalibration.csv")
    else if text_eq message (text "clear_latch")
    then clear_latch_message
    else if text_eq message (text "testHello.py")
    then pure (text "Legacy testHello.py helper is not part of gizmo-runtime")
    else pure (text "Unknown command")

-- The dispatch, once the interval and the threshold in force are read.
unfoldable pub dispatch_message : Text → ℤ → ℕ → Action Text
dispatch_message message run_interval threshold =
    if starts_with message (text "run ")
    then run_message message threshold
    else if starts_with message (text "CAL ")
    then calibrate_message message threshold
    else if text_eq message (text "get_data") || text_eq message (text "get_data_continuous")
    then get_data_message
    else if starts_with message (text "set_th ")
    then threshold_message message run_interval
    else if text_eq message (text "read_adc")
    then read_adc_message threshold run_interval
    else query_message message

-- `THRESHOLD_MIN_OHM <= threshold <= THRESHOLD_MAX_OHM`, or the RuntimeError
unfoldable pub stored_threshold : ℤ → Result ℕ
stored_threshold (ℤ.pos threshold) =
    if leb threshold_min_ohm threshold && leb threshold threshold_max_ohm
    then ok threshold
    else err (
        text "stored threshold must be between "
        ++ decimal threshold_min_ohm
        ++ text " and "
        ++ decimal threshold_max_ohm)
stored_threshold (ℤ.negsuc threshold) = err (
    text "stored threshold must be between "
    ++ decimal threshold_min_ohm
    ++ text " and "
    ++ decimal threshold_max_ohm)

-- What `handle_message` does with the threshold in force, if it is in range.
unfoldable pub respond : Text → ℤ → Result ℕ → Action Text
respond message run_interval (ok threshold) = dispatch_message message run_interval threshold
respond message run_interval (err e) = raise e

-- `handle_message`
unfoldable pub handle_message : Text → Action Text
handle_message message w b =
    let run_interval =
      read_exported_int (b.file File.set_run_interval) (text "runInterval") (ℤ.pos 100) in
    let threshold = read_exported_int (b.file File.set_threshold) (text "threshold") (ℤ.pos 100) in
    respond message run_interval (stored_threshold threshold) w b

-- One round of the loop in `main`: the reply that is sent, whatever happened.
unfoldable pub serve : Text → World → Board → Text × Board
serve message w b =
    let (result, after) = handle_message message w b in
    (elim result [ ok reply ↦ reply | err e ↦ text "Command failed: " ++ e ], after)
