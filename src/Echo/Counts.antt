-- ===== src/Echo/Counts.antt =====
-- What the server holds: write requests, which come back, and buffers, which do not.
use auxiliary_tool.Common.{
  ℕ, zero, suc, ◌+◌, ◌-◌, ◌≡◌, inl, inr, refl, ap, true, false, none, some, pos, List, [], ◌∷◌,
  ◌++◌, ◌==◌, arith, Bool-cases, Option-cases,
}
use auxiliary_tool.Echo.{
  Server, write, on_new_connection, process_request, on_write, Event, connected, received, ended,
  written, step, run,
}

-- The writes that the events start, those that uv_write refuses, and those that are finished.
unfoldable pub starts : List Event → ℕ
starts [] = 0
starts (connected true true ∷ es) = suc (starts es)
starts (received true id size text ∷ es) = suc (starts es)
starts (_ ∷ es) = starts es

unfoldable pub refusals : List Event → ℕ
refusals [] = 0
refusals (connected true false ∷ es) = suc (refusals es)
refusals (received false id size text ∷ es) = suc (refusals es)
refusals (_ ∷ es) = refusals es

unfoldable pub finishes : List Event → ℕ
finishes [] = 0
finishes (written status ∷ es) = suc (finishes es)
finishes (_ ∷ es) = finishes es

-- A run that does not fault holds a write request for each write that is started and not finished,
-- and has lost a request for each that uv_write has refused, and a buffer for each of both.
pub run-starts :
    (es : List Event) (s t : Server)
    → run es s ≡ some t
    → (t.in_flight + finishes es ≡ s.in_flight + starts es)
      × (t.lost ≡ s.lost + refusals es)
      × (t.buffers ≡ s.buffers + starts es + refusals es)
unfolding run starts refusals finishes step on_new_connection process_request on_write write
run-starts [] s t h = ground arith
run-starts (connected true true ∷ es) s t h = ground (arith, run-starts es _ t h)
run-starts (connected true false ∷ es) s t h = ground (arith, run-starts es _ t h)
run-starts (connected false taken ∷ es) s t h = ground (arith, run-starts es _ t h)
run-starts (received true id size text ∷ es) s t h = ground (arith, run-starts es _ t h)
run-starts (received false id size text ∷ es) s t h = ground (arith, run-starts es _ t h)
run-starts (ended id ∷ es) s t h = cc
run-starts (written status ∷ es) s t h = elim (Bool-cases (s.in_flight == 0)) [
  | inl e ↦ absurd (ground arith)
  | inr e ↦
      ground (arith, run-starts es (record s { in_flight = s.in_flight - 1 }) t (ground arith))
]

abbrev completions : ℕ → List Event
completions zero = []
completions (suc n) = written (pos 0) ∷ completions n

-- From every state the writes in flight can all finish, and then no request is held; the buffers
-- are.
pub run-completions :
    (n : ℕ) (s : Server) → s.in_flight ≡ n → run (completions n) s ≡ some record s { in_flight = 0 }
unfolding run step on_write
run-completions zero s h = ap (λ (n : ℕ). some record s { in_flight = n }) h
run-completions (suc n) s h =
    let busy : (s.in_flight == 0) ≡ false = ground arith in
    rw (busy, run) (run-completions n (record s { in_flight = s.in_flight - 1 }) (omega (arith, h)))

-- Once a client closes its connection, or a read of it fails, the server faults, whatever it has
-- done before.
pub run-ended :
    (before after : List Event) (id : ℕ) (s : Server) → run (before ++ (ended id ∷ after)) s ≡ none
unfolding run step
run-ended [] after id s = refl
run-ended (e ∷ before) after id s = elim (Option-cases (step e s)) [
  | inl stuck ↦ rw (stuck, run)
  | inr (t, stepped) ↦ rw (stepped, run) (run-ended before after id t)
]
