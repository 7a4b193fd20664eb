-- ===== src/Log/Threshold.antt =====
-- The level of the logger, which only the callers of log_init choose.
use auxiliary_tool.Common.{
  ℕ, ◌≡◌, refl, some, Bool, true, false, not, ◌&&◌, ◌==◌, Bytes, length, inl, inr, Bool-cases,
  arith,
}
use auxiliary_tool.Log.{
  Logger, Calls, close_log, log_init, the_limit, shorten, check_file_size, tick,
}

-- Opened again with the level that it has.
log_init-log_level :
    (opened : Bool) (name : Bytes) (max_mb : ℕ) (s : Logger)
    → (log_init opened s.log_level (some name) max_mb s).1.log_level ≡ s.log_level
unfolding log_init close_log
log_init-log_level true name max_mb s = refl
log_init-log_level false name max_mb s =
    elim (Bool-cases (not (length s.log_file == 0) && s.is_open)) [
      | inl e ↦ rw e refl
      | inr e ↦ rw e refl
    ]

shorten-log_level : (c : Calls) (s : Logger) → (shorten c s).1.log_level ≡ s.log_level
unfolding shorten
shorten-log_level c s = elim (Bool-cases c.stat_again_ok) [
  | inr bad ↦ rw bad refl
  | inl ok ↦ elim (Bool-cases c.fopen_ok) [
    | inl e ↦ rw (ok, e) (log_init-log_level true s.log_file s.max_mb _)
    | inr e ↦ rw (ok, e) (log_init-log_level false s.log_file s.max_mb _)
  ]
]

check_file_size-log_level :
    (c : Calls) (s : Logger) → (check_file_size c s).1.log_level ≡ s.log_level
unfolding check_file_size close_log
check_file_size-log_level c s =
    ground (arith, shorten-log_level c (close_log (record s { max_size = some (the_limit s) })))

pub tick-log_level : (c : Calls) (s : Logger) → (tick c s).log_level ≡ s.log_level
unfolding tick
tick-log_level c s = ground (arith, check_file_size-log_level c s)
