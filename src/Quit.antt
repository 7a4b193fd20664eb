-- ===== src/Quit.antt =====
-- debug/debug.cpp, which 010, 011 and 012 have in the same words: a flag that SIGUSR1 sets, and the
-- loop `while (!g_debug_quit) pause();` at the end of their mains. A signal may come at any point.
pub mod Wait
mod Tests
use auxiliary_tool.Common.{Bool, true, false, not, List, [], ◌∷◌, ℤ, pos, minus_one, if◌then◌else◌}

-- Where the loop stands: before its test, between the test and pause, in pause, or behind the loop.
pub data Place : Type 0 where
  testing entering pausing finished killed : Place

pub record Process : Type 0 where
  pub place : Place
  pub handles : Bool  -- the handler is installed
  pub quit : Bool  -- g_debug_quit

-- `ok` says whether sigaction succeeds.
unfoldable pub debug_init : Bool → Process → ℤ × Process
debug_init ok p = if ok then (pos 0, record p { handles = true }) else (minus_one, p)

unfoldable pub debug_sig_handle : Process → Process
debug_sig_handle p = record p { quit = true }

-- pause returns when a handler has run.
unfoldable pub wake : Place → Place
wake testing = testing
wake entering = entering
wake pausing = testing
wake finished = finished
wake killed = killed

-- SIGUSR1 ends a process that does not handle it.
unfoldable pub signal : Process → Process
signal p =
    if p.handles
    then record (debug_sig_handle p) { place = wake p.place }
    else record p { place = killed }

-- A step of the loop. In pause there is none.
unfoldable pub next_place : Bool → Place → Place
next_place quit testing = if quit then finished else entering
next_place quit entering = pausing
next_place quit pausing = pausing
next_place quit finished = finished
next_place quit killed = killed

unfoldable pub loop_step : Process → Process
loop_step p = record p { place = next_place p.quit p.place }

-- What happens, in order.
pub data Action : Type 0 where
  steps signals : Action

unfoldable pub act : Action → Process → Process
act steps p = loop_step p
act signals p = signal p

unfoldable pub run : List Action → Process → Process
run [] p = p
run (a ∷ as_left) p = run as_left (act a p)
