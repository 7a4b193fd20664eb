-- ===== src/Log/Write.antt =====
-- __log: where a message goes.
use auxiliary_tool.Common.{
  ℕ, ◌+◌, ◌≤◌, ◌<◌, ◌≡◌, refl, ap, ◌∙◌, sym, true, false, ◌++◌, append_assoc, Bytes, codes,
  bytes_eq_refl, ltb, lt→ltb, le→ltb, if◌then◌else◌, arith, length, length-append, take, drop,
  take-append-drop,
}
use auxiliary_tool.Log.{
  Logger, Calls, Level, rank, level_name, fatal, error, warning, info, debug, the_limit,
  check_file_size, write_log, header, tick, log_with, log_002, log_009,
}
use auxiliary_tool.Log.Rotate.{logged}
use auxiliary_tool.Log.Limit.{check_file_size-below}

-- Whatever stdio holds back, the text is appended to all that was logged.
pub logged-write_log :
    (k : ℕ) (text : Bytes) (s : Logger) → logged (write_log k text s) ≡ logged s ++ text
unfolding write_log
logged-write_log k text s = rw (bytes_eq_refl s.log_file) (
    append_assoc (s.disk s.log_file) (take k (s.pending ++ text)) (drop k (s.pending ++ text))
    ∙ ap (λ t. s.disk s.log_file ++ t) (take-append-drop k (s.pending ++ text))
    ∙ sym (append_assoc (s.disk s.log_file) s.pending text))

-- A message above the level of the logger changes nothing.
pub log_with_filtered :
    (after : Logger → Logger) (k : ℕ) (stamp : Bytes) (level : Level) (message : Bytes) (s : Logger)
    → rank s.log_level < rank level
    → log_with after k stamp level message s ≡ s
unfolding log_with
log_with_filtered after k stamp level message s h = rw (lt→ltb _ _ h)

pub log_with-open :
    (after : Logger → Logger) (k : ℕ) (stamp : Bytes) (level : Level) (message : Bytes) (s : Logger)
    → rank level ≤ rank s.log_level
    → s.is_open ≡ true
    → log_with after k stamp level message s ≡ after (write_log k (header stamp level ++ message) s)
unfolding log_with
log_with-open after k stamp level message s h o = rw (le→ltb _ _ h) (ground arith)

-- The length that `str` needs, with its terminator, is within its 32 bytes if strftime gives at
-- most the 15 bytes of "03-14 14:02:40 ".
pub header_fits :
    (stamp : Bytes) (level : Level) → length stamp ≤ 15 → length (header stamp level) + 1 ≤ 32
unfolding header
header_fits stamp fatal h =
    omega (arith, length-append stamp (codes "[" ++ (level_name fatal ++ codes "] ")))
header_fits stamp error h =
    omega (arith, length-append stamp (codes "[" ++ (level_name error ++ codes "] ")))
header_fits stamp warning h =
    omega (arith, length-append stamp (codes "[" ++ (level_name warning ++ codes "] ")))
header_fits stamp info h =
    omega (arith, length-append stamp (codes "[" ++ (level_name info ++ codes "] ")))
header_fits stamp debug h =
    omega (arith, length-append stamp (codes "[" ++ (level_name debug ++ codes "] ")))

pub tick_idle :
    (c : Calls) (s : Logger)
    → s.check_tick ≤ 1024
    → tick c s ≡ record s { check_tick = s.check_tick + 1 }
unfolding tick
tick_idle c s h = rw (le→ltb 1024 s.check_tick h)

pub tick_due :
    (c : Calls) (s : Logger)
    → ltb 1024 s.check_tick ≡ true
    → tick c s ≡ record (check_file_size c s).1 { check_tick = 1 }
unfolding tick
tick_due c s h = rw h

tick-check_tick :
    (c : Calls) (s : Logger)
    → (tick c s).check_tick ≡ (if ltb 1024 s.check_tick then 1 else s.check_tick + 1)
unfolding tick
tick-check_tick c s = ground arith

-- With no log file open a message that passes goes to stdout, and no file changes.
pub log_with_stdout :
    (after : Logger → Logger) (k : ℕ) (stamp : Bytes) (level : Level) (message : Bytes) (s : Logger)
    → rank level ≤ rank s.log_level
    → s.is_open ≡ false
    → log_with after k stamp level message s
      ≡ record s { stdout = s.stdout ++ (header stamp level ++ message) }
unfolding log_with
log_with_stdout after k stamp level message s passes o = rw (le→ltb _ _ passes) (ground arith)

module _ (c : Calls) (k : ℕ) (stamp : Bytes) (level : Level) (message : Bytes) (s : Logger)
    (passes : rank level ≤ rank s.log_level) where
  -- 009: a message that passes, to an open file that stays below the limit, is appended to what was
  -- logged, with its header, however much of it stdio holds back.
  pub log_009-appends :
      s.is_open ≡ true
      → length ((write_log k (header stamp level ++ message) s).disk s.log_file) < the_limit s
      → logged (log_009 c k stamp level message s) ≡ logged s ++ (header stamp level ++ message)
  unfolding log_009
  log_009-appends o below =
      ap logged (
        log_with-open (λ t. (check_file_size c t).1) k stamp level message s passes o
        ∙ check_file_size-below c (write_log k (header stamp level ++ message) s)
            (unfold write_log the_limit in below))
      ∙ logged-write_log k (header stamp level ++ message) s

  -- 002: so is one that comes when no check is due, whatever the size of the file.
  pub log_002-appends :
      s.is_open ≡ true
      → s.check_tick ≤ 1024
      → (logged (log_002 c k stamp level message s) ≡ logged s ++ (header stamp level ++ message))
        × ((log_002 c k stamp level message s).check_tick ≡ s.check_tick + 1)
  unfolding log_002
  log_002-appends o due =
      let step =
        log_with-open (tick c) k stamp level message s passes o
        ∙ tick_idle c (write_log k (header stamp level ++ message) s) (unfold write_log in due) in
      (
        ap logged step ∙ logged-write_log k (header stamp level ++ message) s,
        ap (λ (t : Logger). t.check_tick) step ∙ unfold write_log in refl,
      )

  -- 002: the counter of an open log goes up by one, and is back at one after a check.
  pub log_002-check_tick :
      s.is_open ≡ true
      → (log_002 c k stamp level message s).check_tick
        ≡ (if ltb 1024 s.check_tick then 1 else s.check_tick + 1)
  unfolding log_002
  log_002-check_tick o =
      ap (λ (t : Logger). t.check_tick) (log_with-open (tick c) k stamp level message s passes o)
      ∙ tick-check_tick c (write_log k (header stamp level ++ message) s)
      ∙ unfold write_log in refl
