-- ===== src/Threads/Tests.antt =====
-- One message of each thread.
use auxiliary_tool.Common.{◌≡◌, ◌++◌, refl, true, some, [], Bytes, codes, arith}
use auxiliary_tool.Printf.{digit, fixed, width_of, padded}
use auxiliary_tool.Log.{log_init, header}
use auxiliary_tool.Log.Rotate.{logged}
use auxiliary_tool.Log.Macro.{Outcome, place}
use auxiliary_tool.Threads.{System, thread1, message, start, Reach, begin, later, first, second}
use auxiliary_tool.Threads.Rotated.{Served, at_start, wrote1, Served-Merge}
use auxiliary_tool.Threads.Merge.{Merge, written, Reach-Merge}

abbrev smooth : Outcome
smooth = record {
  calls = record {
    stat_ok = true;
    stat_again_ok = true;
    open_ok = true;
    mkstemp_ok = true;
    sent_out = some 0;
    ftruncate_ok = true;
    sent_back = some 0;
    fopen_ok = true;
  };
  flushed = 3;
  stamp = codes "03-14 14:02:40 ";
}

abbrev nothing_logged : Bytes → Bytes
nothing_logged name = []

numbered :
    place (codes "main.cpp") 26 (codes "thread1") ++ message thread1 12
    ≡ codes "main.cpp:26(thread1): --------------------12\n"
unfolding place message padded width_of fixed digit
numbered = refl

two_messages : (s : System) × Reach nothing_logged s × (s.next1 ≡ 1) × (s.next2 ≡ 1)
unfolding start
two_messages = (
  _,
  later (later begin (second smooth (omega arith) (omega arith)))
      (first smooth (omega arith) (omega arith)),
  refl,
  refl,
)

Reach-Merge_example :
    (text : Bytes) × (logged two_messages.0.logger ≡ nothing_logged (codes "main.log") ++ text)
    × Merge two_messages.0.next1 two_messages.0.next2 text
Reach-Merge_example = Reach-Merge nothing_logged two_messages.0 (omega arith) two_messages.1

-- The first message of thread1, behind which a check would move 34 bytes of 67.
abbrev moves : Outcome
moves = record smooth { calls = record smooth.calls { sent_out = some 34; sent_back = some 34 } }

one_served : (s : System) × Served nothing_logged 4096 s × (s.next1 ≡ 1)
unfolding start log_init written place message header padded width_of fixed digit
one_served = (
  _,
  wrote1 moves at_start (omega arith) (omega arith) (record {
    short = omega arith;
    flushes = omega arith;
    succeeds = record {
      stats = refl;
      stats_again = refl;
      opens = refl;
      makes = refl;
      out = refl;
      truncates = refl;
      back = refl;
      reopens = refl;
    };
  }),
  refl,
)

Served-Merge_example :
    (text : Bytes) × (lost : Bytes) × Merge one_served.0.next1 one_served.0.next2 text
    × (lost ++ logged one_served.0.logger ≡ nothing_logged (codes "main.log") ++ text)
Served-Merge_example = Served-Merge nothing_logged 4096 one_served.0 one_served.1
