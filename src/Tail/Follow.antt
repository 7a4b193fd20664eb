-- ===== src/Tail/Follow.antt =====
-- What tail_f and main print, what they close and what they lose.
use auxiliary_tool.Common.{
  ℕ, ◌+◌, ◌≤◌, ◌<◌, ◌≡◌, refl, sym, ap, ◌∙◌, Bool, true, false, ◌&&◌, not, if◌then◌else◌, none,
  some, List, [], ◌∷◌, ◌++◌, Bytes, pos, minus_one, arith, Lacks, length,
}
use auxiliary_tool.Resources.{Heap, release, and_release, release_if}
use auxiliary_tool.Quit.{finished, next_place, debug_init, loop_step, testing}
use auxiliary_tool.Tail.{
  Line, access_error, init_error, add_watch_error, create_error, ctl_error, stat_error, open_error,
  descriptors, size_is, end_loop, Trace, Wake, quit_signal, Calls, ending, Outcome, returned,
  waiting, reading, Stop, quits, polls, reads, run_loops, tail_f, main,
}
use auxiliary_tool.Tail.Reads.{copied_text, copied_text-append}
use auxiliary_tool.Tail.Rounds.{added, last_good, goes_on, closing, last_blocks, follow_lem}

nothing_left : (s : Bytes) → length s ≡ 0 → s ≡ []
nothing_left [] e = refl
nothing_left (c ∷ s) e = absurd (omega arith)

-- All calls succeed.
abbrev pub opens : Calls → Bool
opens c =
    c.access_ok
    && (c.inotify_init_ok
        && (c.add_watch_ok && (c.epoll_create_ok && (c.epoll_ctl_ok && (c.stat_ok && c.open_ok)))))

-- When every call up to the loops succeeds, epoll_wait does not fail before the first event, and the
-- quit signal interrupts it once, tail_f returns 0 with each descriptor closed, has printed the file
-- and then all that was appended, in order, and has lost a block for each return of epoll_wait; if
-- neither the file nor what is appended holds a zero byte, the reads of the last round succeed, and
-- the fuel exceeds the length of all.
pub tail_f-joined :
    (fuel : ℕ) (c : Calls) (good : ℕ) (content : Bytes) (wakes rest : List Wake) (h : Heap)
    → opens c ≡ true
    → Lacks 0 (content ++ added wakes)
    → length (content ++ added wakes) < fuel
    → goes_on quits none wakes ≡ true
    → length (content ++ added wakes) ≤ last_good good wakes
    → (t : Trace) × (tail_f fuel c good content (wakes ++ (quit_signal ∷ rest)) h
        ≡ some (returned (pos 0) t (some h)))
      × (copied_text t.lines ≡ content ++ added wakes)
      × (t.blocks ≡ length wakes + 1)
unfolding tail_f run_loops ending release_if and_release release copied_text
tail_f-joined fuel c good content wakes rest h ok hc f g enough =
    let (t, ended, text, blocks, fewer) =
      follow_lem fuel good none content wakes quits rest hc f g in
    (
      record t {
        lines = (descriptors ∷ size_is (length content) ∷ []) ++ (t.lines ++ (end_loop ∷ []));
        blocks = t.blocks + 1;
      },
      ground (arith, ended),
      copied_text-append t.lines (end_loop ∷ [])
          ∙ ap (λ s. copied_text t.lines ++ s)
              (sym (nothing_left t.unread (omega (arith, fewer, enough))))
          ∙ text,
      omega (arith, blocks),
    )

-- Where a run waits that is not told to quit: in the read from the watch, if that blocks, or else in
-- epoll_wait.
abbrev pub waits_in : Bool → Stop
waits_in true = reads
waits_in false = polls

abbrev pub at_rest : Bool → Trace → Outcome
at_rest true t = reading t
at_rest false t = waiting t

-- Where every call up to the loops succeeds, epoll_wait does not fail before the first event, and no
-- wait is interrupted with the quit flag set, tail_f does not return, also where a signal has set the
-- flag at another time: it waits in epoll_wait, or, where a last failure of epoll_wait has no event
-- behind it, in the read from the watch. What it has printed of the file, with what failing reads
-- have left, is the file and all that was appended, in order, if these hold no zero byte and the fuel
-- exceeds their length; and it has lost a block for each return of epoll_wait.
pub tail_f-waits :
    (blocked : Bool) (fuel : ℕ) (c : Calls) (good : ℕ) (content : Bytes) (wakes rest : List Wake)
    (h : Heap)
    → opens c ≡ true
    → Lacks 0 (content ++ added wakes)
    → length (content ++ added wakes) < fuel
    → goes_on (waits_in blocked) none wakes ≡ true
    → (t : Trace) × (tail_f fuel c good content (wakes ++ closing (waits_in blocked) rest) h
        ≡ some (at_rest blocked t))
      × (copied_text t.lines ++ t.unread ≡ content ++ added wakes)
      × (t.blocks ≡ length wakes + last_blocks (waits_in blocked))
unfolding tail_f run_loops copied_text
tail_f-waits true fuel c good content wakes rest h ok hc f g =
    let (t, done, text, blocks, fewer) =
      follow_lem fuel good none content wakes reads rest hc f g in
    (
      record t { lines = (descriptors ∷ size_is (length content) ∷ []) ++ t.lines },
      ground (arith, done),
      text,
      blocks,
    )
tail_f-waits false fuel c good content wakes rest h ok hc f g =
    let (t, done, text, blocks, fewer) =
      follow_lem fuel good none content wakes polls rest hc f g in
    (
      record t { lines = (descriptors ∷ size_is (length content) ∷ []) ++ t.lines },
      ground (arith, done),
      text,
      blocks,
    )

-- The lines up to the first call that fails.
unfoldable pub diagnosis : Calls → List Line
diagnosis c =
    if not c.access_ok
    then access_error ∷ []
    else if not c.inotify_init_ok
    then init_error ∷ []
    else if not c.add_watch_ok
    then add_watch_error ∷ []
    else if not c.epoll_create_ok
    then descriptors ∷ create_error ∷ []
    else if not c.epoll_ctl_ok
    then descriptors ∷ ctl_error ∷ []
    else if not c.stat_ok
    then descriptors ∷ stat_error ∷ []
    else descriptors ∷ open_error ∷ []

-- When a call fails before the loops, tail_f returns -1, prints nothing of the file, and closes each
-- descriptor that it has opened.
pub tail_f-failed :
    (fuel : ℕ) (c : Calls) (good : ℕ) (content : Bytes) (wakes : List Wake) (h : Heap)
    → opens c ≡ false
    → tail_f fuel c good content wakes h
      ≡ some (
          returned minus_one
            (record { lines = diagnosis c; unread = content; blocks = 0 })
            (some h))
unfolding tail_f ending release_if and_release release diagnosis
tail_f-failed fuel c good content wakes h bad = ground arith

-- main ends where tail_f has been ended by the signal: when every call up to the loops succeeds,
-- epoll_wait does not fail before the first event, and the quit signal interrupts it once, the file
-- and then all that was appended have been printed, in order, whichever reads and waits have failed
-- before; each descriptor is closed, a block for each return of epoll_wait is lost, and the loop
-- behind tail_f is left at its first test; if neither the file nor what is appended holds a zero
-- byte, the reads of the last round succeed, and the fuel exceeds the length of all.
pub main-joined :
    (signalled : Bool) (fuel : ℕ) (c : Calls) (good : ℕ) (content : Bytes) (wakes rest : List Wake)
    (h : Heap)
    → opens c ≡ true
    → Lacks 0 (content ++ added wakes)
    → length (content ++ added wakes) < fuel
    → goes_on quits none wakes ≡ true
    → length (content ++ added wakes) ≤ last_good good wakes
    → (t : Trace) × (main true signalled fuel c good content (wakes ++ (quit_signal ∷ rest)) h
        ≡ some
            (returned (pos 0) t (some h), record { place = finished; handles = true; quit = true }))
      × (copied_text t.lines ≡ content ++ added wakes)
      × (t.blocks ≡ length wakes + 1)
unfolding main debug_init loop_step next_place
main-joined signalled fuel c good content wakes rest h ok hc f g enough =
    let (t, done, text, blocks) = tail_f-joined fuel c good content wakes rest h ok hc f g enough in
    (t, rw (done, main), text, blocks)

-- Where a call of tail_f fails before its loops, main goes on to test the flag, as it then stands.
pub main-failed :
    (signalled : Bool) (fuel : ℕ) (c : Calls) (good : ℕ) (content : Bytes) (wakes : List Wake)
    (h : Heap)
    → opens c ≡ false
    → main true signalled fuel c good content wakes h
      ≡ some (
        returned minus_one (record { lines = diagnosis c; unread = content; blocks = 0 }) (some h),
        loop_step (record { place = testing; handles = true; quit = signalled }),
      )
unfolding main debug_init
main-failed signalled fuel c good content wakes h bad =
    rw (tail_f-failed fuel c good content wakes h bad, main)
