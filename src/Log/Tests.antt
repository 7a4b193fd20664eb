-- ===== src/Log/Tests.antt =====
-- The logger at concrete states.
use auxiliary_tool.Common.{
  ℕ, ◌+◌, ◌-◌, ◌*◌, ◌/◌, ◌^◌, ◌≤◌, ◌<◌, ◌≡◌, refl, true, false, some, [], ◌++◌, Bytes, codes,
  bytes_eq, pos, arith, length, drop, if◌then◌else◌,
}
use auxiliary_tool.Log.{
  Logger, Calls, error, info, debug, initial, log_init, close_log, size_limit, the_limit, rotate,
  shorten, check_file_size, write_log, header, log_009,
}
use auxiliary_tool.Log.Rotate.{Succeeds, logged, check_file_size-halves}
use auxiliary_tool.Log.Limit.{size_limit_lem, check_file_size-first}
use auxiliary_tool.Log.Macro.{Outcome}
use auxiliary_tool.Log.Once.{copy_009, slack}
use auxiliary_tool.Log.History.{Logs, begin, passed, filtered, logged-Logs, length-Logs}
use auxiliary_tool.Log.Loss.{Remains, check_file_size-Remains}

-- The file "l", of at most `mb` megabytes.
abbrev opened : ℕ → Logger
opened mb =
    record (initial error (λ name. if bytes_eq name (codes "l") then codes "abcd" else [])) {
      log_file = codes "l";
      is_open = true;
      pending = codes "ef";
      max_mb = mb;
    }

abbrev smooth : ℕ → ℕ → Calls
smooth out back = record {
  stat_ok = true;
  stat_again_ok = true;
  open_ok = true;
  mkstemp_ok = true;
  sent_out = some out;
  ftruncate_ok = true;
  sent_back = some back;
  fopen_ok = true;
}

abbrev gone : Calls
gone = record (smooth 3 3) { stat_again_ok = false }

init_opens : (log_init true info (some (codes "l")) 2 (initial error (λ name. []))).1.is_open ≡ true
unfolding log_init
init_opens = refl

halved : (check_file_size (smooth 3 3) (opened 0)).1.disk (codes "l") ≡ codes "def"
unfolding check_file_size shorten rotate close_log log_init the_limit size_limit
halved = refl

limit_zero : the_limit (opened 0) ≤ length ((opened 0).disk (codes "l"))
unfolding the_limit size_limit
limit_zero = omega arith

limit_one : length ((opened 1).disk (codes "l")) < the_limit (opened 1)
unfolding the_limit size_limit
limit_one = omega arith

all_succeed : Succeeds (smooth 3 3) (length (logged (opened 0)) - length (logged (opened 0)) / 2)
all_succeed = record {
  stats = refl;
  stats_again = refl;
  opens = refl;
  makes = refl;
  out = refl;
  truncates = refl;
  back = refl;
  reopens = refl;
}

check_file_size-halves_example :
    let r = check_file_size (smooth 3 3) (opened 0) in
    (r.0 ≡ pos 0)
    × (r.1.disk (codes "l") ≡ drop (length (logged (opened 0)) / 2) (logged (opened 0)))
    × (r.1.pending ≡ [])
    × (r.1.is_open ≡ true)
    × (r.1.log_file ≡ codes "l")
    × ((other : Bytes)
        → r.1.disk other ≡ (
            if bytes_eq (codes "l") other
            then drop (length (logged (opened 0)) / 2) (logged (opened 0))
            else (opened 0).disk other))
check_file_size-halves_example =
    check_file_size-halves (smooth 3 3) (opened 0) limit_zero all_succeed

-- With 4096 MB the file of four bytes is shortened.
check_file_size-first_example :
    check_file_size (smooth 3 3) (opened 4096)
    ≡ shorten (smooth 3 3) (close_log (record (opened 4096) { max_size = some (size_limit 4096) }))
check_file_size-first_example =
    check_file_size-first (smooth 3 3) (opened 4096) refl refl (omega arith)

two_gigabytes : size_limit 2048 ≡ 2048 * 2 ^ 20 + 2 ^ 64 - 2 ^ 32
two_gigabytes = size_limit_lem 2048 (omega arith)

check_file_size-Remains_example :
    Remains (logged (opened 0)) ((check_file_size (smooth 2 1) (opened 0)).1.disk (codes "l"))
check_file_size-Remains_example = check_file_size-Remains (smooth 2 1) (opened 0) refl limit_zero

abbrev message_m : Outcome
message_m = record { calls = smooth 9 9; flushed = 3; stamp = codes "t " }

-- One message to a log whose limit is 0, and one that is filtered.
run_halves :
    (t : Logger) × Logs copy_009 20 30000 (opened 0) (header (codes "t ") error ++ codes "m") t
    × (logged t ≡ codes "[ERROR] m")
unfolding log_009 check_file_size shorten rotate close_log log_init the_limit size_limit write_log
    header
run_halves = (
  _,
  filtered message_m debug (codes "n")
      (passed message_m error (codes "m") begin (omega arith)
        (record {
          short = omega arith;
          flushes = omega arith;
          succeeds = record {
            stats = refl;
            stats_again = refl;
            opens = refl;
            makes = refl;
            out = refl;
            truncates = refl;
            back = refl;
            reopens = refl;
          };
        })
        refl refl)
      (omega arith) refl,
  refl,
)

logged-Logs_example :
    (run_halves.0.is_open ≡ true)
    × ((lost : Bytes) × (lost ++ logged run_halves.0
          ≡ logged (opened 0) ++ (header (codes "t ") error ++ codes "m")))
logged-Logs_example =
    logged-Logs copy_009 20 30000 (opened 0) run_halves.0 (header (codes "t ") error ++ codes "m")
      refl run_halves.1

limit_room : 1024 * 20 ≤ the_limit (opened 0) + 30000
unfolding the_limit size_limit
limit_room = omega arith

starts_small : length (logged (opened 0)) ≤ the_limit (opened 0) + 30000
unfolding the_limit size_limit
starts_small = omega arith

length-Logs_example :
    length (logged run_halves.0) ≤ the_limit (opened 0) + 30000 + slack copy_009 20 1025
length-Logs_example =
    length-Logs copy_009 20 30000 (opened 0) run_halves.0 (header (codes "t ") error ++ codes "m")
      refl (omega arith) limit_room starts_small run_halves.1
