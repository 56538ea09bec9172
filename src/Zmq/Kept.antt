-- ===== src/Zmq/Kept.antt =====
-- The messages of src/python/gizmo_zmq.py, on the state directory and the control requests.
use gizmo.Prelude.{
  ℕ, ◌≤◌, ◌≡◌, refl, subst, Bool, not, ◌||◌, inl, inr, List, [], ◌∷◌, ◌++◌, ltb, arith, if_ind,
  if_cases, Option-cases, if◌then◌else◌,
}
use gizmo.Text.{Text, text, text_eq, split, starts_with, all_digits, digits_value}
use gizmo.Common.{ℤ, pos, int_text, read_exported_int}
use gizmo.Common.RoundTrip.{read-write_threshold}
use gizmo.Zmq.{
  File, World, Board, Result, ok, err, parse_integer, parse_parts, read_text_file, get_zmon_data,
  threshold_max_ohm,
}
use gizmo.Zmq.Handler.{
  write_interval, write_threshold, run_message, calibrate_message, threshold_message,
  read_adc_message, set_clock, parse_local_time, set_time_message, set_time_epoch_message,
  get_data_message, clear_latch_message, query_message, dispatch_message, stored_threshold, respond,
  handle_message, serve, matches_time,
}
use gizmo.Zmq.Directory.{
  IsBoard, Keeps, bind-Keeps, lift-Keeps, pure-Keeps, raise-Keeps, write_file-Keeps,
  request_control-Keeps, restart_zmon-Keeps,
}

write_interval-Keeps : (n : ℕ) → Keeps (write_interval n)
unfolding write_interval
write_interval-Keeps n = write_file-Keeps File.set_run_interval _ tt

write_threshold-Keeps : (n : ℕ) → n ≤ threshold_max_ohm → Keeps (write_threshold n)
unfolding write_threshold
write_threshold-Keeps n h =
    write_file-Keeps File.set_threshold _ (n, (h, read-write_threshold n (pos 100)))

set_clock-Keeps : (n : ℤ) → Keeps (set_clock n)
unfolding set_clock
set_clock-Keeps n =
    bind-Keeps (request_control-Keeps (text "set-time " ++ int_text n) (inr (n, refl)))
      (λ _. bind-Keeps (request_control-Keeps (text "restart-zmon") (inl refl)) (λ _. pure-Keeps _))

run_message-Keeps : (message : Text) (threshold : ℕ) → Keeps (run_message message threshold)
unfolding run_message
run_message-Keeps message threshold = lift-Keeps (λ n e.
    bind-Keeps (write_interval-Keeps n)
      (λ _. bind-Keeps (restart_zmon-Keeps _ _ _) (λ _. pure-Keeps _)))

calibrate_message-Keeps :
    (message : Text) (threshold : ℕ) → Keeps (calibrate_message message threshold)
unfolding calibrate_message
calibrate_message-Keeps message threshold = lift-Keeps (λ n e.
    bind-Keeps (write_interval-Keeps n)
      (λ _. bind-Keeps (restart_zmon-Keeps _ _ _) (λ _. pure-Keeps _)))

abbrev IsBelow : ℕ → Result ℕ → Type 0
IsBelow maximum (ok n) = n ≤ maximum
IsBelow maximum (err e) = Unit

parse_parts-IsBelow :
    (parts : List Text) (command : Text) (allow_zero : Bool) (maximum : ℕ)
    → IsBelow maximum (parse_parts parts command allow_zero maximum)
unfolding parse_parts
parse_parts-IsBelow [] command allow_zero maximum = tt
parse_parts-IsBelow (word ∷ []) command allow_zero maximum = tt
parse_parts-IsBelow (word ∷ number ∷ []) command allow_zero maximum =
    if_ind (IsBelow maximum) (not (text_eq word command) || not (all_digits number)) _ _ tt (
      if_cases (IsBelow maximum)
        (ltb (digits_value 0 number) (if allow_zero then 0 else 1)
          || ltb maximum (digits_value 0 number))
        _ _ (λ e. tt) (λ e. ground (arith, e)))
parse_parts-IsBelow (word ∷ number ∷ part ∷ parts) command allow_zero maximum = tt

-- A number that is accepted lies within the bound.
parse_integer-le :
    (message command : Text) (allow_zero : Bool) (maximum n : ℕ)
    → parse_integer message command allow_zero maximum ≡ ok n
    → n ≤ maximum
unfolding parse_integer
parse_integer-le message command allow_zero maximum n h =
    subst (IsBelow maximum) h (parse_parts-IsBelow (split message) command allow_zero maximum)

threshold_message-Keeps :
    (message : Text) (interval : ℤ) → Keeps (threshold_message message interval)
unfolding threshold_message
threshold_message-Keeps message interval = lift-Keeps (λ n e.
    bind-Keeps (write_threshold-Keeps n (parse_integer-le message (text "set_th") _ _ n e))
      (λ _. bind-Keeps (restart_zmon-Keeps _ _ _) (λ _. pure-Keeps _)))

read_adc_message-Keeps :
    (threshold : ℕ) (interval : ℤ) → Keeps (read_adc_message threshold interval)
unfolding read_adc_message
read_adc_message-Keeps threshold interval =
    bind-Keeps (restart_zmon-Keeps _ _ _) (λ _. pure-Keeps _)

set_time_message-Keeps : (requested : Text) → Keeps (set_time_message requested)
unfolding set_time_message
set_time_message-Keeps requested =
    if_ind Keeps (not (matches_time requested)) _ _ (pure-Keeps _)
      (bind-Keeps (parse_local_time-Keeps requested) set_clock-Keeps)
  where
    parse_local_time-Keeps : (requested : Text) → Keeps (parse_local_time requested)
    parse_local_time-Keeps requested = record { kept = λ w b p. unfold parse_local_time in p }

set_time_epoch_message-Keeps : (requested : Text) → Keeps (set_time_epoch_message requested)
unfolding set_time_epoch_message
set_time_epoch_message-Keeps requested =
    if_ind Keeps (not (all_digits requested)) _ _ (pure-Keeps _) (
      if_ind Keeps
        (ltb (digits_value 0 requested) 946_684_800 || ltb 4_102_444_800 (digits_value 0 requested))
        _ _ (pure-Keeps _) (set_clock-Keeps _))

read_text_file-Keeps : (f : File) (name : Text) → Keeps (read_text_file f name)
unfolding read_text_file
read_text_file-Keeps f name = record {
  kept = λ w b p. elim (Option-cases (b.file f)) [
    | inl n ↦ rw (n, read_text_file) p
    | inr (t, k) ↦ rw (k, read_text_file) p
  ];
}

clear_latch_message-Keeps : Keeps clear_latch_message
unfolding clear_latch_message
clear_latch_message-Keeps = bind-Keeps (write_file-Keeps File.latch_state _ tt) (λ _. pure-Keeps _)

query_message-Keeps : (message : Text) → Keeps (query_message message)
unfolding query_message
query_message-Keeps message =
    if_ind Keeps (starts_with message (text "set_time ")) _ _ (set_time_message-Keeps _) (
      if_ind Keeps (starts_with message (text "set_time_epoch ")) _ _
        (set_time_epoch_message-Keeps _)
        (if_ind Keeps (text_eq message (text "get_adc")) _ _
          (read_text_file-Keeps File.adc_csv (text "adc.csv"))
          (if_ind Keeps (text_eq message (text "get_Rcal")) _ _
            (read_text_file-Keeps File.rcalibration_csv (text "Rcalibration.csv"))
            (if_ind Keeps (text_eq message (text "get_Ccal")) _ _
              (read_text_file-Keeps File.ccalibration_csv (text "Ccalibration.csv"))
              (if_ind Keeps (text_eq message (text "clear_latch")) _ _ clear_latch_message-Keeps (
                if_ind Keeps (text_eq message (text "testHello.py")) _ _
                  (pure-Keeps (text "Legacy testHello.py helper is not part of gizmo-runtime"))
                  (pure-Keeps (text "Unknown command"))))))))

get_data_message-Keeps : Keeps get_data_message
unfolding get_data_message
get_data_message-Keeps =
    bind-Keeps (record { kept = λ w b p. unfold get_zmon_data in p }) (λ _. pure-Keeps _)

dispatch_message-Keeps :
    (message : Text) (interval : ℤ) (threshold : ℕ)
    → Keeps (dispatch_message message interval threshold)
unfolding dispatch_message
dispatch_message-Keeps message interval threshold =
    if_ind Keeps _ _ _ (run_message-Keeps message threshold) (
      if_ind Keeps _ _ _ (calibrate_message-Keeps message threshold) (
        if_ind Keeps _ _ _ get_data_message-Keeps (
          if_ind Keeps _ _ _ (threshold_message-Keeps message interval) (
            if_ind Keeps _ _ _ (read_adc_message-Keeps threshold interval)
              (query_message-Keeps message)))))

respond-Keeps : (message : Text) (interval : ℤ) (r : Result ℕ) → Keeps (respond message interval r)
unfolding respond
respond-Keeps message interval (ok threshold) = dispatch_message-Keeps message interval threshold
respond-Keeps message interval (err e) = raise-Keeps e

-- Whatever the message and whatever fails, the state directory keeps a threshold of 0 to 1,000,000
-- and arguments whose quotes close where they should, and gizmo-control is asked for nothing but a
-- restart of the measurement engine or a new time.
pub serve-IsBoard :
    (message : Text) (w : World) (b : Board) → IsBoard b → IsBoard ((serve message w b).1)
unfolding serve handle_message
serve-IsBoard message w b p =
    (respond-Keeps message
        (read_exported_int (b.file File.set_run_interval) (text "runInterval") (pos 100))
        (stored_threshold
          (read_exported_int (b.file File.set_threshold) (text "threshold") (pos 100)))).kept
      w b p
