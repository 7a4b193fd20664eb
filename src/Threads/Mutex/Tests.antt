-- ===== src/Threads/Mutex/Tests.antt =====
-- Runs of the two threads in small steps.
use auxiliary_tool.Common.{
  ℕ, suc, ◌≤◌, ◌≡◌, refl, true, Option, none, some, ◌⊎◌, List, [], ◌∷◌, ◌++◌, Bytes, codes, arith,
}
use auxiliary_tool.Printf.{digit, fixed, width_of, padded}
use auxiliary_tool.Log.{log_init, write_log, header, tick}
use auxiliary_tool.Log.Macro.{Outcome, place}
use auxiliary_tool.Log.Rotate.{logged}
use auxiliary_tool.Threads.{Thread, thread1, thread2, message, start, Reach}
use auxiliary_tool.Threads.Merge.{Merge}
use auxiliary_tool.Threads.Mutex.{
  stamped, Shared, Worker, World, advance, moved, Turn, turn, launched, Runs, launch, after, system,
}
use auxiliary_tool.Threads.Mutex.Atomic.{Runs-Reach}
use auxiliary_tool.Threads.Mutex.Ends.{Runs-ends}

abbrev nothing_logged : Bytes → Bytes
nothing_logged name = []

abbrev smooth : Outcome
smooth = record {
  calls = record {
    stat_ok = true;
    stat_again_ok = true;
    open_ok = true;
    mkstemp_ok = true;
    sent_out = some 0;
    ftruncate_ok = true;
    sent_back = some 0;
    fopen_ok = true;
  };
  flushed = 3;
  stamp = codes "03-14 14:02:40 ";
}

record Run : Type 0 where
  steps : ℕ
  last : World
  runs : Runs nothing_logged steps last

-- A thread that has to wait is passed over.
take_turn :
    (r : Run) (t : Thread) (x : Option (Shared × Worker))
    → advance t smooth (r.last.worker t).at (r.last.worker t).next r.last.shared ≡ x
    → Run
take_turn r t none waits = r
take_turn r t (some result) step = record {
  steps = suc r.steps;
  last = moved r.last t result;
  runs = after r.runs (turn t smooth (omega arith) step refl);
}

-- The threads in a given order.
schedule : Run → List Thread → Run
unfolding take_turn
schedule r [] = r
schedule r (t ∷ ts) = schedule (take_turn r t _ refl) ts

abbrev at_launch : Run
at_launch = record { steps = 0; last = launched nothing_logged; runs = launch }

-- thread2 waits while thread1 holds the mutex.
abbrev one_sent : Run
one_sent =
    schedule at_launch
      (thread2 ∷ thread1 ∷ thread1 ∷ thread2 ∷ thread1 ∷ thread2 ∷ thread1 ∷ thread1 ∷ thread1 ∷ [])

sent :
    (one_sent.steps ≡ 7)
    × (one_sent.last.shared.owner ≡ none)
    × ((one_sent.last.worker thread2).at ≡ stamped (codes "03-14 14:02:40 "))
    × (logged one_sent.last.shared.logger
        ≡ codes "03-14 14:02:40 [ERROR] main.cpp:26(thread1): --------------------0\n")
unfolding schedule advance launched start log_init write_log tick header place message padded
    width_of fixed digit
sent = (refl, refl, refl, refl)

Runs-Reach_example : Reach nothing_logged (system one_sent.last)
unfolding schedule advance launched start log_init
Runs-Reach_example = Runs-Reach nothing_logged one_sent.steps one_sent.last one_sent.runs refl

Runs-ends_example :
    (one_sent.steps ≤ 12000)
    × (((v : World) × Turn one_sent.last v)
        ⊎ ((one_sent.last.shared.owner ≡ none)
            × ((text : Bytes) × (logged one_sent.last.shared.logger
                  ≡ nothing_logged (codes "main.log") ++ text)
                × Merge 1000 1000 text)))
Runs-ends_example =
    Runs-ends nothing_logged one_sent.steps one_sent.last smooth (omega arith) (omega arith)
      one_sent.runs
