-- ===== src/Tail/Tests.antt =====
-- tail_f on a file that grows.
use auxiliary_tool.Common.{
  ◌+◌, ◌≡◌, refl, true, false, none, some, List, [], ◌∷◌, ◌++◌, codes, pos, arith, length,
}
use auxiliary_tool.ConfigFile.{c_string}
use auxiliary_tool.Resources.{content}
use auxiliary_tool.Quit.{finished}
use auxiliary_tool.Tail.{
  Calls, Trace, copied, drain, Wake, event, failure, quit_signal, stuck, follow, returned, reading,
  tail_f, main,
}
use auxiliary_tool.Tail.Reads.{copied_text}
use auxiliary_tool.Tail.Rounds.{added, last_good, goes_on}
use auxiliary_tool.Tail.Follow.{main-joined, tail_f-waits}

abbrev smooth : Calls
smooth = record {
  access_ok = true;
  inotify_init_ok = true;
  add_watch_ok = true;
  epoll_create_ok = true;
  epoll_ctl_ok = true;
  stat_ok = true;
  open_ok = true;
}

-- The first read behind the event fails, and then an interruption by another signal comes.
abbrev disturbed : List Wake
disturbed = event (codes "b") 0 ∷ failure (codes "c") 9 ∷ []

-- A zero byte hides the rest of what one read has got.
cut_at_zero : drain 9 9 (codes "ab" ++ (0 ∷ codes "c")) ≡ some (copied (codes "ab") ∷ [], [])
unfolding drain c_string
cut_at_zero = refl

-- Before the first event there is no descriptor to read from.
first_wait_fails : follow 9 9 none [] (failure [] 9 ∷ []) ≡ none
unfolding follow
first_wait_fails = refl

main-joined_example :
    (t : Trace) × (main true false 9 smooth 9
        (codes "a")
        (disturbed ++ (quit_signal ∷ []))
        (content ∷ [])
      ≡ some (
        returned (pos 0) t (some (content ∷ [])),
        record { place = finished; handles = true; quit = true },
      ))
    × (copied_text t.lines ≡ codes "a" ++ added disturbed)
    × (t.blocks ≡ length disturbed + 1)
unfolding added goes_on last_good
main-joined_example =
    main-joined false 9 smooth 9 (codes "a") disturbed [] (content ∷ []) refl
      ((λ e. ground arith), ((λ e. ground arith), ((λ e. ground arith), tt))) (omega arith) refl
      (omega arith)

-- epoll_wait fails once more, and nothing else is appended.
tail_f-waits_example :
    (t : Trace) × (tail_f 9 smooth 9 (codes "a") (disturbed ++ (stuck ∷ [])) [] ≡ some (reading t))
    × (copied_text t.lines ++ t.unread ≡ codes "a" ++ added disturbed)
    × (t.blocks ≡ length disturbed + 1)
unfolding added goes_on last_good
tail_f-waits_example =
    tail_f-waits true 9 smooth 9 (codes "a") disturbed [] [] refl
      ((λ e. ground arith), ((λ e. ground arith), ((λ e. ground arith), tt))) (omega arith) refl
