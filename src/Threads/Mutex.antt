-- ===== src/Threads/Mutex.antt =====
-- The two threads of 002/main.cpp with __log of 002/log.cpp taken apart: the test of the level and the
-- time stamp stand before the mutex, each use of stdio and the check of the size behind it, and the
-- steps of the two threads come in any order.
pub mod Writes
pub mod Owner
pub mod Behind
pub mod Follows
pub mod Steps
pub mod Atomic
pub mod Ends
mod Tests
use auxiliary_tool.Common.{
  ℕ, zero, suc, ◌≤◌, ◌≡◌, Bool, true, false, not, Option, none, some, ◌++◌, Bytes, codes, ltb,
  if◌then◌else◌, length,
}
use auxiliary_tool.Log.{Logger, rank, error, write_log, header, tick}
use auxiliary_tool.Log.Macro.{Outcome, place}
use auxiliary_tool.Threads.{Thread, thread1, thread2, name, line, message, rounds, start, System}

-- Where a thread stands: at the head of its loop, before the mutex with `str` made, or behind it: at
-- the test of g_log_fd, with the header in the file or on stdout, with the whole line in the file,
-- or at the end.
pub data Point : Type 0 where
  ready : Point
  stamped : Bytes → Point
  entered : Bytes → Point
  headed spoken written leaving : Point

-- A thread, with the counter of its loop.
pub record Worker : Type 0 where
  pub next : ℕ
  pub at : Point

-- What the threads share. `owner` is the thread that holds the mutex.
pub record Shared : Type 0 where
  pub logger : Logger
  pub owner : Option Thread

-- The arguments of the second printf, formatted.
abbrev pub formatted : Thread → ℕ → Bytes
formatted t i = place (codes "main.cpp") (line t) (name t) ++ message t i

abbrev pub print : Bytes → Logger → Logger
print text s = record s { stdout = s.stdout ++ text }

-- One step of a thread, `none` where it has to wait or has ended.
unfoldable pub advance : Thread → Outcome → Point → ℕ → Shared → Option (Shared × Worker)
advance t o ready i m =
    if not (ltb i rounds)
    then none
    else if ltb (rank m.logger.log_level) (rank error)
    then some (m, record { next = suc i; at = ready })
    else some (m, record { next = i; at = stamped o.stamp })
advance t o (stamped stamp) i m = elim m.owner [
  | none ↦ some (record m { owner = some t }, record { next = i; at = entered stamp })
  | some other ↦ none
]
advance t o (entered stamp) i m =
    let text = header stamp error in
    if m.logger.is_open
    then some
        (record m { logger = write_log o.flushed text m.logger }, record { next = i; at = headed })
    else some (record m { logger = print text m.logger }, record { next = i; at = spoken })
advance t o headed i m = some (
  record m { logger = write_log o.flushed (formatted t i) m.logger },
  record { next = i; at = written },
)
advance t o spoken i m =
    some (record m { logger = print (formatted t i) m.logger }, record { next = i; at = leaving })
advance t o written i m =
    some (record m { logger = tick o.calls m.logger }, record { next = i; at = leaving })
advance t o leaving i m = some (record m { owner = none }, record { next = suc i; at = ready })

pub record World : Type 0 where
  pub shared : Shared
  pub worker : Thread → Worker

abbrev pub put_worker : (Thread → Worker) → Thread → Worker → Thread → Worker
put_worker f thread1 l thread1 = l
put_worker f thread1 l thread2 = f thread2
put_worker f thread2 l thread1 = f thread1
put_worker f thread2 l thread2 = l

abbrev pub moved : World → Thread → Shared × Worker → World
moved w t (m, l) = record { shared = m; worker = put_worker w.worker t l }

-- A step of either thread. strftime gives at most 15 bytes.
pub data Turn (w v : World) : Type 0 where
  turn :
      (t : Thread) (o : Outcome) {r : Shared × Worker}
      → length o.stamp ≤ 15
      → advance t o (w.worker t).at (w.worker t).next w.shared ≡ some r
      → v ≡ moved w t r
      → Turn w v

-- main, when the threads have been made.
unfoldable pub launched : (Bytes → Bytes) → World
launched disk = record {
  shared = record { logger = (start disk).logger; owner = none };
  worker = λ t. record { next = 0; at = ready };
}

-- The worlds that `n` steps lead to.
pub data Runs (disk : Bytes → Bytes) : ℕ → World → Type 0 where
  launch : Runs disk zero (launched disk)
  after : {n : ℕ} {w v : World} → Runs disk n w → Turn w v → Runs disk (suc n) v

-- What is seen of the threads where neither holds the mutex.
abbrev pub system : World → System
system w = record {
  logger = w.shared.logger;
  next1 = (w.worker thread1).next;
  next2 = (w.worker thread2).next;
}
