-- ===== src/Threads/Rotated.antt =====
-- The two threads on a log of any size, with checks that succeed.
use auxiliary_tool.Common.{
  ℕ, suc, ◌+◌, ◌*◌, ◌^◌, ◌≤◌, ◌<◌, ◌≡◌, refl, ap, sym, subst, ◌∙◌, true, ◌++◌, append-nil, Bytes,
  codes, arith, length,
}
use auxiliary_tool.Log.{Logger, rank, error, info, log_init, the_limit, size_limit}
use auxiliary_tool.Log.Macro.{Outcome, place, log}
use auxiliary_tool.Log.Rotate.{logged}
use auxiliary_tool.Log.Once.{copy_002, Fits}
use auxiliary_tool.Log.History.{Logs, begin, passed, Logs-Wrote, logged-Logs, length-Logs}
use auxiliary_tool.Threads.{
  Thread, thread1, thread2, name, line, message, log_message, rounds, System, start,
}
use auxiliary_tool.Threads.Merge.{written, Merge, nothing, one, two}

-- The longest line, by length-written.
abbrev pub longest : ℕ
longest = 250

-- The states that some order of the steps leads to, where stdio holds back at most `buffer` bytes and
-- each check that is made succeeds.
pub data Served (disk : Bytes → Bytes) (buffer : ℕ) : System → Type 0 where
  at_start : Served disk buffer (start disk)
  wrote1 :
      (o : Outcome) {s : System}
      → Served disk buffer s
      → s.next1 < rounds
      → length o.stamp ≤ 15
      → Fits longest buffer o (written o.stamp thread1 s.next1) s.logger
      → Served disk buffer
          (record s { logger = log_message thread1 s.next1 o s.logger; next1 = suc s.next1 })
  wrote2 :
      (o : Outcome) {s : System}
      → Served disk buffer s
      → s.next2 < rounds
      → length o.stamp ≤ 15
      → Fits longest buffer o (written o.stamp thread2 s.next2) s.logger
      → Served disk buffer
          (record s { logger = log_message thread2 s.next2 o s.logger; next2 = suc s.next2 })

module _ (disk : Bytes → Bytes) (buffer : ℕ) where
  start-opened : ((start disk).logger.is_open ≡ true) × ((start disk).logger.log_level ≡ info)
  unfolding start log_init
  start-opened = (refl, refl)

  start-limit : the_limit (start disk).logger ≡ 2 ^ 21
  unfolding start log_init the_limit size_limit
  start-limit = refl

  start-logged : logged (start disk).logger ≡ disk (codes "main.log")
  unfolding start log_init
  start-logged = append-nil (disk (codes "main.log"))

  start-tick : (start disk).logger.check_tick ≤ 1025
  unfolding start log_init
  start-tick = omega arith

  -- What the threads have sent, merged, as a sequence of messages to the log.
  abbrev Sent : System → Type 0
  Sent s =
      (text : Bytes) × Merge s.next1 s.next2 text
      × Logs copy_002 longest buffer (start disk).logger text s.logger

  sent_one :
      (t : Thread) (i : ℕ) (o : Outcome) (l : Logger) (text : Bytes)
      → Logs copy_002 longest buffer (start disk).logger text l
      → Fits longest buffer o (written o.stamp t i) l
      → Logs copy_002 longest buffer
          (start disk).logger
          (text ++ written o.stamp t i)
          (log_message t i o l)
  unfolding written log_message log
  sent_one t i o l text run fits =
      let kept = (Logs-Wrote copy_002 longest buffer (start disk).logger start-opened.0 run).kept in
      let passes =
        subst (λ level. rank error ≤ rank level) (sym (kept.level ∙ start-opened.1))
          (omega arith) in
      passed o error (place (codes "main.cpp") (line t) (name t) ++ message t i) run passes fits
        refl refl

  Served-Sent : {s : System} → Served disk buffer s → Sent s
  unfolding start
  Served-Sent at_start = (codes "", nothing (codes "") refl, begin)
  Served-Sent (wrote1 o {s} served lt h fits) =
      let (text, merged, run) = Served-Sent served in
      (
        text ++ written o.stamp thread1 s.next1,
        one o.stamp h merged refl,
        sent_one thread1 s.next1 o s.logger text run fits,
      )
  Served-Sent (wrote2 o {s} served lt h fits) =
      let (text, merged, run) = Served-Sent served in
      (
        text ++ written o.stamp thread2 s.next2,
        two o.stamp h merged refl,
        sent_one thread2 s.next2 o s.logger text run fits,
      )

-- However the steps of the two threads are mixed, and however long the file was: if each check that
-- is made succeeds, the log holds the end of what it held before and then the messages sent so far,
-- those of each thread in order.
pub Served-Merge :
    (disk : Bytes → Bytes) (buffer : ℕ) (s : System)
    → Served disk buffer s
    → (text : Bytes) × (lost : Bytes) × Merge s.next1 s.next2 text
      × (lost ++ logged s.logger ≡ disk (codes "main.log") ++ text)
Served-Merge disk buffer s served =
    let (text, merged, run) = Served-Sent disk buffer served in
    let (_, (lost, whole)) =
      logged-Logs copy_002 longest buffer (start disk).logger s.logger text
        (start-opened disk buffer).0 run in
    (text, lost, merged, whole ∙ ap (λ r. r ++ text) (start-logged disk buffer))

-- If the file was no longer than 2 MB and the buffer of stdio, the log is never longer than that and
-- 1025 messages.
pub Served-length :
    (disk : Bytes → Bytes) (buffer : ℕ) (s : System)
    → length (disk (codes "main.log")) ≤ 2 ^ 21 + buffer
    → Served disk buffer s
    → length (logged s.logger) ≤ 2 ^ 21 + buffer + 1025 * longest
Served-length disk buffer s small served =
    let (text, merged, run) = Served-Sent disk buffer served in
    let bound =
      length-Logs copy_002 longest buffer (start disk).logger s.logger text
        (start-opened disk buffer).0 (start-tick disk buffer)
        (omega (arith, start-limit disk buffer))
        (omega (arith, small, start-limit disk buffer, ap length (start-logged disk buffer))) run in
    omega (arith, bound, start-limit disk buffer)
