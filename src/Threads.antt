-- ===== src/Threads.antt =====
-- 002/main.cpp: two threads that write to one log. A call of __log is one step, for which Mutex has the
-- reason, and the steps of the two threads come in any order.
pub mod Merge
pub mod Mutex
pub mod Rotated
mod Tests
use auxiliary_tool.Common.{ℕ, zero, suc, ◌+◌, ◌≤◌, ◌<◌, true, some, ◌++◌, Bytes, codes, length}
use auxiliary_tool.Printf.{padded}
use auxiliary_tool.Log.{Logger, error, info, initial, log_init}
use auxiliary_tool.Log.Macro.{Outcome, log}

pub data Thread : Type 0 where
  thread1 thread2 : Thread

abbrev pub name : Thread → Bytes
name thread1 = codes "thread1"
name thread2 = codes "thread2"

-- __LINE__ of the call of each thread.
abbrev pub line : Thread → ℕ
line thread1 = 26
line thread2 = 34

abbrev pub rule : Thread → Bytes
rule thread1 = codes "--------------------"
rule thread2 = codes "++++++++++++++++++++"

unfoldable pub message : Thread → ℕ → Bytes
message t i = rule t ++ (padded 10 1 i ++ codes "\n")

-- A round of the loop of a thread.
unfoldable pub log_message : Thread → ℕ → Outcome → Logger → Logger
log_message t i o = log o error (codes "main.cpp") (line t) (name t) (message t i)

abbrev pub rounds : ℕ
rounds = 1000

-- The log, and the counter of each thread.
pub record System : Type 0 where
  pub logger : Logger
  pub next1 : ℕ
  pub next2 : ℕ

-- strftime gives at most the 15 bytes of "03-14 14:02:40 ".
pub data Step (s : System) : System → Type 0 where
  first :
      (o : Outcome)
      → s.next1 < rounds
      → length o.stamp ≤ 15
      → Step s (record s { logger = log_message thread1 s.next1 o s.logger; next1 = suc s.next1 })
  second :
      (o : Outcome)
      → s.next2 < rounds
      → length o.stamp ≤ 15
      → Step s (record s { logger = log_message thread2 s.next2 o s.logger; next2 = suc s.next2 })

-- main, when the threads have been made, with the log file opened.
unfoldable pub start : (Bytes → Bytes) → System
start disk = record {
  logger = (log_init true info (some (codes "main.log")) 2 (initial error disk)).1;
  next1 = 0;
  next2 = 0;
}

pub data Reach (disk : Bytes → Bytes) : System → Type 0 where
  begin : Reach disk (start disk)
  later : {s t : System} → Reach disk s → Step s t → Reach disk t
