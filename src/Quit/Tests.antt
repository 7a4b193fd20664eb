-- ===== src/Quit/Tests.antt =====
-- A process that is told to quit.
use auxiliary_tool.Common.{◌≡◌, refl, true, false, [], ◌∷◌}
use auxiliary_tool.Quit.{
  testing, pausing, finished, killed, Process, debug_init, signal, steps, signals, run, act,
  loop_step, next_place,
}
use auxiliary_tool.Quit.Wait.{repeated, run-two_signals, run-one_signal, left_at}

abbrev fresh : Process
fresh = record { place = testing; handles = false; quit = false }

abbrev ready : Process
ready = record fresh { handles = true }

initialised : (debug_init true fresh).1 ≡ ready
unfolding debug_init
initialised = refl

-- With no handler the signal ends the process.
unhandled : (signal fresh).place ≡ killed
unfolding signal
unhandled = refl

run-two_signals_example :
    (run (signals ∷ steps ∷ steps ∷ signals ∷ steps ∷ []) (run (steps ∷ []) ready)).place ≡ finished
run-two_signals_example = run-two_signals (steps ∷ []) ready (refl, (λ e. cc))

-- Behind its first test the loop is about to call pause.
lost : left_at (run (steps ∷ []) ready).place ≡ pausing
unfolding left_at run act loop_step next_place
lost = refl

run-one_signal_example :
    run (signals ∷ steps ∷ repeated 5) (run (steps ∷ []) ready)
    ≡ record { place = left_at (run (steps ∷ []) ready).place; handles = true; quit = true }
run-one_signal_example = run-one_signal (steps ∷ []) ready 5 (refl, (λ e. cc))
