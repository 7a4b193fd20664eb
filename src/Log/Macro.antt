-- ===== src/Log/Macro.antt =====
-- The macros of log.h, which put the place of a call in front of its message.
use auxiliary_tool.Common.{ℕ, ◌++◌, Bytes, codes}
use auxiliary_tool.Printf.{padded}
use auxiliary_tool.Log.{Logger, Calls, Level, fatal, error, warning, info, debug, log_002}

-- "%s:%u(%s): "
unfoldable pub place : Bytes → ℕ → Bytes → Bytes
place file line function =
    file ++ (codes ":" ++ (padded 10 1 line ++ (codes "(" ++ (function ++ codes "): "))))

-- How a call ends, as far as the system decides it.
pub record Outcome : Type 0 where
  pub calls : Calls
  pub flushed : ℕ
  pub stamp : Bytes

-- log(level, s, ...)
unfoldable pub log : Outcome → Level → Bytes → ℕ → Bytes → Bytes → Logger → Logger
log o level file line function message =
    log_002 o.calls o.flushed o.stamp level (place file line function ++ message)

-- logfatal, logerror, logwarning, loginfo and logdebug
unfoldable pub logfatal : Outcome → Bytes → ℕ → Bytes → Bytes → Logger → Logger
unfolding log
logfatal o = log o fatal

unfoldable pub logerror : Outcome → Bytes → ℕ → Bytes → Bytes → Logger → Logger
unfolding log
logerror o = log o error

unfoldable pub logwarning : Outcome → Bytes → ℕ → Bytes → Bytes → Logger → Logger
unfolding log
logwarning o = log o warning

unfoldable pub loginfo : Outcome → Bytes → ℕ → Bytes → Bytes → Logger → Logger
unfolding log
loginfo o = log o info

unfoldable pub logdebug : Outcome → Bytes → ℕ → Bytes → Bytes → Logger → Logger
unfolding log
logdebug o = log o debug
