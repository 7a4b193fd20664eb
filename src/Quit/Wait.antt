-- ===== src/Quit/Wait.antt =====
-- When the loop ends.
use auxiliary_tool.Common.{ℕ, zero, suc, ◌≡◌, refl, ap, ◌∙◌, Bool, true, false, List, [], ◌∷◌}
use auxiliary_tool.Quit.{
  Place, testing, entering, pausing, finished, killed, Process, debug_sig_handle, wake, signal,
  next_place, loop_step, Action, steps, signals, act, run,
}

-- The process has its handler and has not been ended by a signal.
abbrev pub Lives : Process → Type 0
Lives p = (p.handles ≡ true) × ((p.place ≡ killed) → ⊥)

next_alive : (quit : Bool) (q : Place) → (q ≡ killed → ⊥) → next_place quit q ≡ killed → ⊥
unfolding next_place
next_alive true testing alive e = cc
next_alive false testing alive e = cc
next_alive quit entering alive e = cc
next_alive quit pausing alive e = cc
next_alive quit finished alive e = cc
next_alive quit killed alive e = alive e

wake_alive : (q : Place) → (q ≡ killed → ⊥) → wake q ≡ killed → ⊥
unfolding wake
wake_alive testing alive e = cc
wake_alive entering alive e = cc
wake_alive pausing alive e = cc
wake_alive finished alive e = cc
wake_alive killed alive e = alive e

act-Lives : (a : Action) (p : Process) → Lives p → Lives (act a p)
unfolding act loop_step next_place signal wake debug_sig_handle
act-Lives steps p (h, alive) = (h, next_alive p.quit p.place alive)
act-Lives signals p (h, alive) = rw (h, signal) (refl, wake_alive p.place alive)

pub run-Lives : (actions : List Action) (p : Process) → Lives p → Lives (run actions p)
unfolding run
run-Lives [] p l = l
run-Lives (a ∷ actions) p l = run-Lives actions (act a p) (act-Lives a p l)

-- The place of a process after a signal, two steps of the loop, a signal and a step.
ends_from :
    (quit : Bool) (q : Place)
    → (q ≡ killed → ⊥)
    → next_place true (wake (next_place true (next_place true (wake q)))) ≡ finished
unfolding next_place wake
ends_from quit testing alive = refl
ends_from quit entering alive = refl
ends_from quit pausing alive = refl
ends_from quit finished alive = refl
ends_from quit killed alive = absurd (alive refl)

-- Whatever has happened to a process that has its handler, two signals with two steps of the loop
-- between them end the loop at the next step.
pub run-two_signals :
    (actions : List Action) (p : Process)
    → Lives p
    → (run (signals ∷ steps ∷ steps ∷ signals ∷ steps ∷ []) (run actions p)).place ≡ finished
unfolding run act loop_step signal debug_sig_handle
run-two_signals actions p l =
    let (h, alive) = run-Lives actions p l in
    rw (h, signal) (ends_from true (run actions p).place alive)

abbrev pub repeated : ℕ → List Action
repeated zero = []
repeated (suc n) = steps ∷ repeated n

-- Where a single signal leaves the loop that it finds at a place, once the loop has taken a step.
unfoldable pub left_at : Place → Place
left_at testing = finished
left_at entering = pausing
left_at pausing = finished
left_at finished = finished
left_at killed = killed

stays : (n : ℕ) (p : Process) → next_place p.quit p.place ≡ p.place → run (repeated n) p ≡ p
unfolding run act loop_step
stays zero p h = refl
stays (suc n) p h = ap (λ (q : Place). run (repeated n) (record p { place = q })) h ∙ stays n p h

settles :
    (q : Place) (n : ℕ)
    → (q ≡ killed → ⊥)
    → run (steps ∷ repeated n) (record { place = wake q; handles = true; quit = true })
      ≡ record { place = left_at q; handles = true; quit = true }
unfolding run act loop_step next_place wake left_at
settles testing n alive = stays n _ refl
settles entering n alive = stays n _ refl
settles pausing n alive = stays n _ refl
settles finished n alive = stays n _ refl
settles killed n alive = absurd (alive refl)

signal-handled :
    (p : Process)
    → p.handles ≡ true
    → signal p ≡ record { place = wake p.place; handles = true; quit = true }
unfolding signal debug_sig_handle
signal-handled p h = rw h refl

-- One signal ends the loop of a process that has its handler, whatever has happened to it, and
-- wherever the loop stands, but between its test of the flag and pause: there the signal is lost,
-- and the loop is in pause, with the flag set, after any number of steps. Everywhere else it has
-- ended after the first step and stays so.
pub run-one_signal :
    (actions : List Action) (p : Process) (n : ℕ)
    → Lives p
    → run (signals ∷ steps ∷ repeated n) (run actions p)
      ≡ record { place = left_at (run actions p).place; handles = true; quit = true }
unfolding run act signal debug_sig_handle
run-one_signal actions p n l =
    let (h, alive) = run-Lives actions p l in
    ap (λ (q : Process). run (repeated n) (loop_step q)) (signal-handled (run actions p) h)
    ∙ settles (run actions p).place n alive
