-- ===== src/Tail.antt =====
-- 011/main.cpp: tail_f, which prints a file and then what is appended to it, until a signal that
-- sets the quit flag interrupts epoll_wait; and main. A printed line is a constructor with what it
-- shows, its wording and the texts of strerror left out.
pub mod Follow
pub mod Reads
pub mod Rounds
mod Tests
use auxiliary_tool.Quit.{Process, testing, debug_init, loop_step}
use auxiliary_tool.Common.{
  ℕ, zero, suc, ◌+◌, Bool, true, false, not, Option, none, some, List, [], ◌∷◌, ◌++◌, Bytes, ℤ, pos,
  minus_one, if◌then◌else◌, length, take, drop,
}
use auxiliary_tool.ConfigFile.{c_string}
use auxiliary_tool.Resources.{Heap, inotify_fd, watch_fd, epoll_fd, log_fd, and_release, release_if}

pub data Line : Type 0 where
  access_error init_error add_watch_error create_error ctl_error stat_error open_error : Line
  descriptors : Line
  size_is : ℕ → Line
  -- What one read has got, printed with "%s".
  copied : Bytes → Line
  -- The events in ep_evout, behind epoll_wait and before the event is read.
  events_are : Option ℕ → Line
  wait_error : Line
  taken : Option ℕ → Line
  end_loop : Line

-- What a run has printed, where it stands in the file, and the blocks of malloc(1024) that it has
-- not given back.
pub record Trace : Type 0 where
  pub lines : List Line
  pub unread : Bytes
  pub blocks : ℕ

-- sizeof (buff) - 1
abbrev pub room : ℕ
room = 1023

abbrev pub and_copied : Bytes → Option (List Line × Bytes) → Option (List Line × Bytes)
and_copied got none = none
and_copied got (some (lines, left)) = some (copied (c_string got) ∷ lines, left)

-- The inner loop: reads up to the end of the file, or to a read that fails, which is the one behind
-- `good` reads: what is printed, and what is left. The fuel bounds the reads.
unfoldable pub drain : ℕ → ℕ → Bytes → Option (List Line × Bytes)
drain zero good unread = none
drain (suc fuel) good [] = some ([], [])
drain (suc fuel) zero (c ∷ unread) = some ([], c ∷ unread)
drain (suc fuel) (suc good) (c ∷ unread) =
    and_copied (take room (c ∷ unread)) (drain fuel good (drop room (c ∷ unread)))

-- How epoll_wait returns: with an event of the file, interrupted with the quit flag set, or with
-- any other failure, which the code treats as an event. Where the loop goes on it is given what is
-- appended up to the end of its read from the watch, and the next `good`. With no timeout 0 is never
-- returned, and an event is always that of nty_fd, so that the lines for these cases do not occur.
-- Behind `failure` the read from the watch returns: an event is pending, or comes, or a signal
-- interrupts it. `stuck` is a failure behind which none of these happens, so that the read, which
-- blocks, does not return.
pub data Wake : Type 0 where
  event : Bytes → ℕ → Wake
  failure : Bytes → ℕ → Wake
  stuck : Wake
  quit_signal : Wake

-- EPOLLIN
abbrev epollin : ℕ
epollin = 1

-- The loop is left, or waits in epoll_wait, or in the read from the watch.
pub data Stop : Type 0 where
  quits polls reads : Stop

abbrev pub after_round : List Line → ℕ → Option (Stop × Trace) → Option (Stop × Trace)
after_round lines n none = none
after_round lines n (some (ended, t)) =
    some (ended, record t { lines = lines ++ t.lines; blocks = t.blocks + n })

-- The outer loop: where it stops, and its trace.
-- `events` is what ep_evout holds, which is nothing before the first event: to read from its
-- descriptor is then a fault.
unfoldable pub follow : ℕ → ℕ → Option ℕ → Bytes → List Wake → Option (Stop × Trace)
follow fuel good events unread [] = elim (drain fuel good unread) [
  | none ↦ none
  | some (lines, left) ↦ some (polls, record { lines = lines; unread = left; blocks = 0 })
]
follow fuel good events unread (quit_signal ∷ wakes) = elim (drain fuel good unread) [
  | none ↦ none
  | some (lines, left) ↦ some (
    quits,
    record { lines = lines ++ (events_are events ∷ wait_error ∷ []); unread = left; blocks = 0 },
  )
]
follow fuel good events unread (event more good' ∷ wakes) = elim (drain fuel good unread) [
  | none ↦ none
  | some (lines, left) ↦
      after_round (lines ++ (events_are (some epollin) ∷ taken (some epollin) ∷ [])) 1
        (follow fuel good' (some epollin) (left ++ more) wakes)
]
follow fuel good none unread (stuck ∷ wakes) = none
follow fuel good (some events) unread (stuck ∷ wakes) = elim (drain fuel good unread) [
  | none ↦ none
  | some (lines, left) ↦ some (
    reads,
    record {
      lines = lines ++ (events_are (some events) ∷ wait_error ∷ taken (some events) ∷ []);
      unread = left;
      blocks = 1;
    },
  )
]
follow fuel good none unread (failure more good' ∷ wakes) = none
follow fuel good (some events) unread (failure more good' ∷ wakes) = elim (drain fuel good unread) [
  | none ↦ none
  | some (lines, left) ↦
      after_round (lines ++ (events_are (some events) ∷ wait_error ∷ taken (some events) ∷ [])) 1
        (follow fuel good' (some events) (left ++ more) wakes)
]

pub record Calls : Type 0 where
  pub access_ok : Bool
  pub inotify_init_ok : Bool
  pub add_watch_ok : Bool
  pub epoll_create_ok : Bool
  pub epoll_ctl_ok : Bool
  pub stat_ok : Bool
  pub open_ok : Bool

-- The label `ending`, over the descriptors that are not -1.
unfoldable pub ending : Bool → Bool → Bool → Option Heap → Option Heap
ending has_watch has_epoll has_fd h =
    and_release inotify_fd
      (release_if has_watch watch_fd (release_if has_epoll epoll_fd (release_if has_fd log_fd h)))

-- A run has returned, with what it leaves open, or waits in epoll_wait, or in the read from the
-- watch.
pub data Outcome : Type 0 where
  returned : ℤ → Trace → Option Heap → Outcome
  waiting reading : Trace → Outcome

abbrev failed : List Line → Bytes → Option Heap → Option Outcome
failed lines content h =
    some (returned minus_one (record { lines = lines; unread = content; blocks = 0 }) h)

-- From the line with the size on, with all open.
unfoldable pub run_loops : ℕ → ℕ → Bytes → List Wake → Heap → Option Outcome
run_loops fuel good content wakes h =
    let before = descriptors ∷ size_is (length content) ∷ [] in
    elim (follow fuel good none content wakes) [
      | none ↦ none
      | some (polls, t) ↦ some (waiting (record t { lines = before ++ t.lines }))
      | some (reads, t) ↦ some (reading (record t { lines = before ++ t.lines }))
      | some (quits, t) ↦ some (
          returned (pos 0)
            (record t { lines = before ++ (t.lines ++ (end_loop ∷ [])); blocks = t.blocks + 1 })
            (ending true true true (some h)))
    ]

unfoldable pub tail_f : ℕ → Calls → ℕ → Bytes → List Wake → Heap → Option Outcome
tail_f fuel c good content wakes h =
    let watched = watch_fd ∷ inotify_fd ∷ h in
    let polled = epoll_fd ∷ watched in
    if not c.access_ok
    then failed (access_error ∷ []) content (some h)
    else if not c.inotify_init_ok
    then failed (init_error ∷ []) content (some h)
    else if not c.add_watch_ok
    then failed (add_watch_error ∷ []) content (ending false false false (some (inotify_fd ∷ h)))
    else if not c.epoll_create_ok
    then failed (descriptors ∷ create_error ∷ []) content (ending true false false (some watched))
    else if not c.epoll_ctl_ok
    then failed (descriptors ∷ ctl_error ∷ []) content (ending true true false (some polled))
    else if not c.stat_ok
    then failed (descriptors ∷ stat_error ∷ []) content (ending true true false (some polled))
    else if not c.open_ok
    then failed (descriptors ∷ open_error ∷ []) content (ending true true false (some polled))
    else run_loops fuel good content wakes (log_fd ∷ polled)

-- main of 011/main.cpp, up to a first test of the quit flag behind tail_f, if tail_f returns. It
-- returns 0 only where the flag has been set; `signalled` says whether it is where tail_f fails.
unfoldable pub main :
    Bool → Bool → ℕ → Calls → ℕ → Bytes → List Wake → Heap → Option (Outcome × Process)
main debug_ok signalled fuel c good content wakes h =
    let (_, ready) =
      debug_init debug_ok (record { place = testing; handles = false; quit = false }) in
    elim (tail_f fuel c good content wakes h) [
      | none ↦ none
      | some (waiting t) ↦ some (waiting t, ready)
      | some (reading t) ↦ some (reading t, ready)
      | some (returned (pos n) t left) ↦
          some (returned (pos n) t left, loop_step (record ready { quit = true }))
      | some (returned ret t left) ↦
          some (returned ret t left, loop_step (record ready { quit = signalled }))
    ]
