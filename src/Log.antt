-- ===== src/Log.antt =====
-- 002/log.h, 002/log.cpp and their copy in 009/log: a logger with one global state. The state below
-- holds the globals, the two static locals, and what the logger has written.
pub mod Loss
pub mod Rotate
mod Tests
pub mod Write
pub mod Limit
pub mod Macro
pub mod Appends
pub mod Settle
pub mod Once
pub mod History
pub mod Threshold
use auxiliary_tool.Common.{
  ℕ, suc, ◌+◌, ◌-◌, ◌*◌, ◌/◌, ◌%◌, ◌^◌, Bool, true, false, not, ◌&&◌, Option, none, some, List, [],
  ◌∷◌, ◌++◌, Bytes, codes, bytes_eq, ℤ, pos, minus_one, ltb, ◌==◌, if◌then◌else◌, length, take,
  drop,
}

-- log_level_t. Both copies print the third level as "WARN".
pub data Level : Type 0 where
  fatal error warning info debug : Level

abbrev pub rank : Level → ℕ
rank fatal = 0
rank error = 1
rank warning = 2
rank info = 3
rank debug = 4

-- g_map
abbrev pub level_name : Level → Bytes
level_name fatal = codes "FATAL"
level_name error = codes "ERROR"
level_name warning = codes "WARN"
level_name info = codes "INFO"
level_name debug = codes "DEBUG"

-- `disk` is the content of each file, empty where there is none. `pending` is what stdio holds back
-- of the open log file, and `is_open` says that g_log_fd is not NULL.
pub record Logger : Type 0 where
  pub log_file : Bytes
  pub log_level : Level
  pub is_open : Bool
  pub pending : Bytes
  pub max_mb : ℕ
  pub max_size : Option ℕ  -- static in check_file_size, set by its first call
  pub check_tick : ℕ  -- static in __log of 002
  pub disk : Bytes → Bytes
  pub stdout : Bytes

abbrev pub put : (Bytes → Bytes) → Bytes → Bytes → Bytes → Bytes
put disk name content other = if bytes_eq name other then content else disk other

-- fclose writes out what is pending.
unfoldable pub close_log : Logger → Logger
close_log s = record s {
  disk = put s.disk s.log_file (s.disk s.log_file ++ s.pending);
  pending = [];
  is_open = false;
}

-- The globals as they are initialised, with the copy's default level.
abbrev pub initial : Level → (Bytes → Bytes) → Logger
initial level disk = record {
  log_file = [];
  log_level = level;
  is_open = false;
  pending = [];
  max_mb = 10;
  max_size = none;
  check_tick = 0;
  disk = disk;
  stdout = [];
}

-- `opened` says whether fopen succeeds.
unfoldable pub log_init : Bool → Level → Option Bytes → ℕ → Logger → ℤ × Logger
log_init opened level none max_mb s = (pos 0, record s { log_level = level; max_mb = max_mb })
log_init opened level (some name) max_mb s =
    let closed = if not (length s.log_file == 0) && s.is_open then close_log s else s in
    let renamed = record closed { log_file = name; is_open = opened; pending = [] } in
    if opened
    then (pos 0, record renamed { log_level = level; max_mb = max_mb })
    else (minus_one, renamed)

-- How the system calls of one check_file_size end. A sendfile that does not fail says how many
-- bytes it moved.
pub record Calls : Type 0 where
  pub stat_ok : Bool
  pub stat_again_ok : Bool
  pub open_ok : Bool
  pub mkstemp_ok : Bool
  pub sent_out : Option ℕ
  pub ftruncate_ok : Bool
  pub sent_back : Option ℕ
  pub fopen_ok : Bool

-- 1024 * 1024 * g_max_mb is an int, which wraps around, and is then converted to size_t.
unfoldable pub size_limit : ℕ → ℕ
size_limit max_mb =
    let product = 1024 * 1024 * max_mb % 2 ^ 32 in
    if ltb product (2 ^ 31) then product else product + 2 ^ 64 - 2 ^ 32

-- The second sendfile, into the file that ftruncate has emptied.
send_back : Option ℕ → ℕ → Bytes → ℤ × Bytes
send_back none len tmp = (minus_one, [])
send_back (some m) len tmp = (pos 0, take m (take len tmp))

-- From the first sendfile on, which copies the second half to the temporary file.
send_out : Option ℕ → Calls → Bytes → ℤ × Bytes
unfolding send_back
send_out none c content = (minus_one, content)
send_out (some n) c content =
    let half_point = length content / 2 in
    let len = length content - half_point in
    if not c.ftruncate_ok
    then (minus_one, content)
    else send_back c.sent_back len (take n (take len (drop half_point content)))

-- From the call of open to the label `ending`: what is returned, and the new content of the file.
unfoldable pub rotate : Calls → Bytes → ℤ × Bytes
unfolding send_out
rotate c content =
    if not c.open_ok
    then (minus_one, content)
    else if not c.mkstemp_ok
    then (minus_one, content)
    else send_out c.sent_out c content

-- The static local keeps the limit of the first call.
unfoldable pub the_limit : Logger → ℕ
the_limit s = elim s.max_size [ none ↦ size_limit s.max_mb | some m ↦ m ]

-- From the second stat on, with the file closed.
unfoldable pub shorten : Calls → Logger → ℤ × Logger
shorten c s =
    if not c.stat_again_ok
    then (minus_one, s)
    else let (ret, content) = rotate c (s.disk s.log_file) in
      let (reopened, s') =
        log_init c.fopen_ok s.log_level (some s.log_file) s.max_mb
          (record s { disk = put s.disk s.log_file content }) in
      if c.fopen_ok then (ret, s') else (reopened, s')

unfoldable pub check_file_size : Calls → Logger → ℤ × Logger
check_file_size c s =
    let s' = record s { max_size = some (the_limit s) } in
    if not c.stat_ok
    then (minus_one, s')
    else if ltb (length (s.disk s.log_file)) (the_limit s)
    then (pos 0, s')
    else shorten c (close_log s')

-- fprintf on the log file: stdio writes out any part of what is pending, here `flushed` bytes.
unfoldable pub write_log : ℕ → Bytes → Logger → Logger
write_log flushed text s =
    let held = s.pending ++ text in
    record s {
      disk = put s.disk s.log_file (s.disk s.log_file ++ take flushed held);
      pending = drop flushed held;
    }

-- `str`: the time as strftime gives it, and the level.
unfoldable pub header : Bytes → Level → Bytes
header stamp level = stamp ++ (codes "[" ++ (level_name level ++ codes "] "))

-- The check of 002, after more than 1024 messages since the last.
unfoldable pub tick : Calls → Logger → Logger
tick c s =
    let checked =
      if ltb 1024 s.check_tick then record (check_file_size c s).1 { check_tick = 0 } else s in
    record checked { check_tick = checked.check_tick + 1 }

-- __log, with what follows a message that goes to the file. The mutex makes the part behind the
-- level test one step.
unfoldable pub log_with : (Logger → Logger) → ℕ → Bytes → Level → Bytes → Logger → Logger
log_with after flushed stamp level message s =
    let text = header stamp level ++ message in
    if ltb (rank s.log_level) (rank level)
    then s
    else if s.is_open
    then after (write_log flushed text s)
    else record s { stdout = s.stdout ++ text }

unfoldable pub log_002 : Calls → ℕ → Bytes → Level → Bytes → Logger → Logger
unfolding log_with
log_002 c = log_with (tick c)

-- 009 checks the size after every message.
unfoldable pub log_009 : Calls → ℕ → Bytes → Level → Bytes → Logger → Logger
unfolding log_with
log_009 c = log_with (λ s. (check_file_size c s).1)
