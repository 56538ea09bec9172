-- ===== src/Tests/Services.antt =====
-- The other services at concrete messages, files and jobs.
use gizmo.Prelude.{
  ℕ, zero, suc, ◌+◌, ◌≤◌, ◌≡◌, ◌↔◌, refl, arith, true, false, not, ◌&&◌, ◌||◌, Option, none, some,
  [], ◌∷◌, ◌++◌, length, ltb, if◌then◌else◌,
}
use Prim.Native.Nat.{max}
use gizmo.Text.{
  Text, text, decimal, split_lines, lines_from, is_line_end, strip, lstrip, rstrip, is_space,
  is_digit, text_eq,
}
use gizmo.Common.{pos, parse_int, int_digits, read_exported_int}
use gizmo.Common.RoundTrip.{read-write_interval, read-write_threshold}
use gizmo.Zmq.{File, World, Board, ok, parse_integer}
use gizmo.Zmq.Handler.{serve}
use gizmo.Zmq.Directory.{IsContents, IsBoard}
use gizmo.Zmq.Kept.{serve-IsBoard}
use gizmo.Zmq.Accepts.{parse_integer_iff_in_range}
use gizmo.Security.{
  Bytes, Credential, CredentialFile, Loaded, load, is_valid_role, authenticate, verifies, lookup,
  bytes_eq, load_lines, is_skipped, split_colon, attach, parse_record, parse_fields, from_hex,
  hex_value, validate_identity, is_identifier, iterations_in_range, salt_in_range,
}
use gizmo.Security.Login.{IsLogin, authenticated_by_record}
use gizmo.Security.Load.{IsLoaded, load-IsLoaded}
use gizmo.OpcUa.Health.{
  Category, Quality, Overall, Shown, Intervals, Monitor, in_flight, job_interval, schedule_jobs,
  update_health, state_of,
}
use gizmo.OpcUa.Health.Laws.{overall_ok_iff_good}
use gizmo.OpcUa.Health.Schedule.{schedule_jobs_iff_due}

read-write_interval_example :
    read_exported_int
      (some (text "export runInterval=" ++ decimal 25 ++ text "\n"))
      (text "runInterval")
      (pos 100)
    ≡ pos 25
read-write_interval_example = read-write_interval 25 (pos 100)

read-write_threshold_example :
    read_exported_int
      (some (text "export threshold=" ++ decimal 500 ++ text "\n"))
      (text "threshold")
      (pos 100)
    ≡ pos 500
read-write_threshold_example = read-write_threshold 500 (pos 100)

parse_integer_iff_in_range_example :
    ((parse_integer (text "run " ++ decimal 25) (text "run") false 1_000_000 ≡ ok 25)
      ↔ ((1 ≤ 25) × (25 ≤ 1_000_000)))
    × ((parse_integer (text "set_th " ++ decimal 25) (text "set_th") true 1_000_000 ≡ ok 25)
        ↔ (25 ≤ 1_000_000))
parse_integer_iff_in_range_example = parse_integer_iff_in_range 25

abbrev file_contents : File → Option Text
file_contents File.set_threshold = some (text "export threshold=" ++ decimal 500 ++ text "\n")
file_contents f = none

abbrev board : Board
board = record { file = file_contents; controls = [] }

abbrev answering : World
answering = record {
  write_error = λ f. none;
  control = λ request. ok (text "OK done");
  zmon = ok [];
  epoch_of = λ t. ok (pos 1_700_000_000);
  read_error = λ f. [];
}

file_contents-IsContents : (f : File) → IsContents f (file_contents f)
file_contents-IsContents File.set_threshold =
    (500, (omega arith, read-write_threshold 500 (pos 100)))
file_contents-IsContents File.set_run_interval = tt
file_contents-IsContents File.zmon_arg1 = tt
file_contents-IsContents File.zmon_arg2 = tt
file_contents-IsContents File.zmon_arg3 = tt
file_contents-IsContents File.latch_state = tt
file_contents-IsContents File.adc_csv = tt
file_contents-IsContents File.rcalibration_csv = tt
file_contents-IsContents File.ccalibration_csv = tt

serve-IsBoard_example : IsBoard (serve (text "set_th 700") answering board).1
serve-IsBoard_example =
    serve-IsBoard (text "set_th 700") answering board
      (record { files = file_contents-IsContents; requests = tt })

-- A derivation that gives the length of the password 32 times.
repeat_length : ℕ → ℕ → Bytes
repeat_length zero b = []
repeat_length (suc n) b = b ∷ repeat_length n b

derive : Text → Bytes → ℕ → Bytes
derive password salt iterations = repeat_length 32 (length password)

abbrev credential_file : CredentialFile
credential_file = CredentialFile.contents (
    text
      "# users\nalice:operator:pbkdf2-sha256:310000:000102030405060708090a0b0c0d0e0f:0909090909090909090909090909090909090909090909090909090909090909\n")

abbrev alice : Credential
alice = record {
  username = text "alice";
  role = text "operator";
  iterations = 310_000;
  salt = 0 ∷ 1 ∷ 2 ∷ 3 ∷ 4 ∷ 5 ∷ 6 ∷ 7 ∷ 8 ∷ 9 ∷ 10 ∷ 11 ∷ 12 ∷ 13 ∷ 14 ∷ 15 ∷ [];
  digest =
      9 ∷ 9 ∷ 9 ∷ 9 ∷ 9 ∷ 9 ∷ 9 ∷ 9 ∷ 9 ∷ 9 ∷ 9 ∷ 9 ∷ 9 ∷ 9 ∷ 9 ∷ 9 ∷ 9 ∷ 9 ∷ 9 ∷ 9 ∷ 9 ∷ 9 ∷ 9 ∷ 9
      ∷ 9 ∷ 9 ∷ 9 ∷ 9 ∷ 9 ∷ 9 ∷ 9 ∷ 9 ∷ [];
}

alice_loaded : load credential_file ≡ Loaded.loaded (alice ∷ [])
unfolding load load_lines is_skipped split_lines lines_from is_line_end strip lstrip rstrip is_space
    split_colon attach parse_record parse_fields parse_int int_digits from_hex hex_value
    validate_identity is_identifier is_valid_role iterations_in_range salt_in_range is_digit text_eq
    lookup text
alice_loaded = refl

alice_logs_in :
    authenticate derive (alice ∷ []) (text "alice") (text "correct h") ≡ some (text "operator")
unfolding authenticate verifies lookup bytes_eq text_eq text derive repeat_length
alice_logs_in = refl

load-IsLoaded_example : IsLoaded (load credential_file)
load-IsLoaded_example = load-IsLoaded credential_file

authenticated_by_record_example :
    (is_valid_role (text "operator") ≡ true)
    × ((c : Credential) × IsLogin derive
          (alice ∷ [])
          (text "alice")
          (text "correct h")
          (text "operator")
          c)
authenticated_by_record_example =
    authenticated_by_record derive credential_file (alice ∷ []) (text "alice") (text "correct h")
      (text "operator") alice_loaded alice_logs_in

abbrev monitor : Monitor
monitor = record {
  jobs = Category.sdr ∷ [];
  next_run = λ c. 0;
  attempted = λ c. true;
  has_data = λ c. true;
  category_quality = λ c. some Quality.good;
  health = λ c. Shown.starting;
  overall = Overall.starting;
  ready_sent = true;
  last_notified_health = none;
  notified = [];
}

abbrev intervals : Intervals
intervals = record {
  measurement = 1_000_000;
  platform = 10_000_000;
  inventory = 30_000_000;
  sdr = 1_000_000;
}

overall_ok_iff_good_example :
    ((update_health monitor).overall ≡ Overall.ok)
    ↔ ((c : Category) → (monitor.attempted c ≡ true) × (state_of monitor c ≡ Quality.good))
overall_ok_iff_good_example = overall_ok_iff_good monitor

schedule_jobs_iff_due_example :
    (in_flight Category.time (schedule_jobs intervals 5 monitor).jobs
      ≡ in_flight Category.time monitor.jobs
        || not (in_flight Category.time monitor.jobs)
          && not (ltb 5 (monitor.next_run Category.time)))
    × ((schedule_jobs intervals 5 monitor).next_run Category.time ≡ (
        if not (in_flight Category.time monitor.jobs)
          && not (ltb 5 (monitor.next_run Category.time))
        then 5 + max 100_000 (job_interval intervals Category.time)
        else monitor.next_run Category.time))
schedule_jobs_iff_due_example = schedule_jobs_iff_due intervals 5 Category.time monitor
