-- ===== src/Threads/Mutex/Behind.antt =====
-- How far a world is behind the system in which each call of __log is one step.
use auxiliary_tool.Common.{
  arith, ℕ, suc, ◌≤◌, ◌<◌, ◌≡◌, refl, ap, sym, subst, ◌∙◌, true, false, Option, none, some, ◌++◌,
  Bytes, length, append_assoc,
}
use auxiliary_tool.Log.{Logger, rank, error, info, write_log, header, tick, log_002}
use auxiliary_tool.Log.Write.{log_with-open, log_with_stdout}
use auxiliary_tool.Log.Macro.{Outcome, log}
use auxiliary_tool.Threads.{
  Thread, thread1, thread2, log_message, rounds, System, first, second, Reach, later,
}
use auxiliary_tool.Threads.Mutex.{
  Point, headed, spoken, written, leaving, Worker, formatted, print, put_worker,
}
use auxiliary_tool.Threads.Mutex.Owner.{owns}

-- The messages that a thread has sent.
abbrev pub done_at : Point → ℕ → ℕ
done_at leaving i = suc i
done_at _ i = i

abbrev pub done : Worker → ℕ
done l = done_at l.at l.next

abbrev pub counter : System → Thread → ℕ
counter s thread1 = s.next1
counter s thread2 = s.next2

-- A thread behind the mutex has made a part of the line: `s` is the log before it, `g` the log now.
abbrev pub Behind : Thread → ℕ → Point → Logger → Logger → Type 0
Behind t i headed s g =
    (stamp : Bytes) × (k : ℕ) × (length stamp ≤ 15)
    × (s.is_open ≡ true)
    × (g ≡ write_log k (header stamp error) s)
Behind t i spoken s g =
    (stamp : Bytes) × (length stamp ≤ 15) × (s.is_open ≡ false) × (g ≡ print (header stamp error) s)
Behind t i written s g =
    (stamp : Bytes) × (k : ℕ) × (length stamp ≤ 15)
    × (s.is_open ≡ true)
    × (g ≡ write_log k (header stamp error ++ formatted t i) s)
Behind t i _ s g = g ≡ s

-- Where no thread is, the two logs are the same.
abbrev pub Lags : Option Thread → (Thread → Worker) → Logger → Logger → Type 0
Lags none f s g = g ≡ s
Lags (some t) f s g = Behind t (f t).next (f t).at s g

-- A step of a thread that does not own the mutex is not seen.
pub outside-Lags :
    (owner : Option Thread) (t : Thread) (f : Thread → Worker) (l : Worker) (s g : Logger)
    → owns owner t ≡ false
    → Lags owner f s g
    → Lags owner (put_worker f t l) s g
outside-Lags none t f l s g e h = h
outside-Lags (some thread1) thread1 f l s g e h = cc
outside-Lags (some thread1) thread2 f l s g e h = h
outside-Lags (some thread2) thread1 f l s g e h = h
outside-Lags (some thread2) thread2 f l s g e h = cc

-- The call of __log of thread `t` as one step.
abbrev pub sent : Thread → System → Logger → System
sent thread1 s g = record s { logger = g; next1 = suc s.next1 }
sent thread2 s g = record s { logger = g; next2 = suc s.next2 }

pub logger-sent : (t : Thread) (s : System) (g : Logger) → (sent t s g).logger ≡ g
logger-sent thread1 s g = refl
logger-sent thread2 s g = refl

pub Reach-sent :
    (disk : Bytes → Bytes) (t : Thread) (o : Outcome) (s : System)
    → Reach disk s
    → counter s t < rounds
    → length o.stamp ≤ 15
    → Reach disk (sent t s (log_message t (counter s t) o s.logger))
Reach-sent disk thread1 o s r lt h = later r (first o lt h)
Reach-sent disk thread2 o s r lt h = later r (second o lt h)

-- The whole call, to an open log and to stdout.
module _ (t : Thread) (i : ℕ) (o : Outcome) (s : Logger) (level : s.log_level ≡ info) where
  passes : rank error ≤ rank s.log_level
  passes = subst (λ l. rank error ≤ rank l) (sym level) (omega arith)

  pub log_message-open :
      s.is_open ≡ true
      → log_message t i o s
        ≡ tick o.calls (write_log o.flushed (header o.stamp error ++ formatted t i) s)
  unfolding log_message log log_002
  log_message-open opened =
      log_with-open (tick o.calls) o.flushed o.stamp error (formatted t i) s passes opened

  pub log_message-stdout :
      s.is_open ≡ false
      → print (formatted t i) (print (header o.stamp error) s) ≡ log_message t i o s
  unfolding log_message log log_002
  log_message-stdout closed =
      ap (λ (text : Bytes). record s { stdout = text })
        (append_assoc s.stdout (header o.stamp error) (formatted t i))
      ∙ sym (log_with_stdout (tick o.calls) o.flushed o.stamp error (formatted t i) s passes closed)
