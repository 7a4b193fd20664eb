-- ===== src/Echo/Tests.antt =====
-- A client that is greeted and answered.
use auxiliary_tool.Common.{
  ◌+◌, ◌≡◌, refl, true, false, some, List, [], ◌∷◌, ◌++◌, codes, arith, ℕ, pos, minus_one,
}
use auxiliary_tool.Echo.{
  Server, home_page, started, zeros, strncpy, alloc_buffer, write, on_new_connection,
  process_request, on_write, Event, connected, received, written, step, run, returned, serving,
  main,
}
use auxiliary_tool.Echo.Output.{expected, main-expected}
use auxiliary_tool.Echo.Counts.{starts, refusals, finishes, run-starts}

abbrev visit : List Event
visit =
    connected true true
    ∷ received true 0 4 (codes "hi")
    ∷ received false 0 4 (codes "ho")
    ∷ written (pos 0)
    ∷ []

-- The state behind the visit.
abbrev visited : Server
visited = record {
  clients = 1;
  queued =
      (write true 0 (codes "hi") (write true 0 home_page (record started { clients = 1 }))).queued;
  in_flight = 1;
  lost = 1;
  buffers = 3;
  abandoned = 0;
}

visits : run visit started ≡ some visited
unfolding run step on_new_connection process_request on_write write alloc_buffer zeros strncpy
visits = refl

-- What follows a zero byte is not sent back.
hidden : strncpy 3 (codes "a" ++ (0 ∷ codes "b")) ≡ codes "a" ++ (0 ∷ 0 ∷ [])
unfolding strncpy zeros
hidden = refl

main-expected_example :
    (main true visit ≡ some (serving visited))
    × ((id : ℕ) → visited.queued id ≡ expected id 0 visit)
    × (main false visit ≡ some (returned minus_one))
main-expected_example =
    main-expected visit visited
      (
        tt,
        (
          ((λ e. ground arith), ((λ e. ground arith), tt)),
          (((λ e. ground arith), ((λ e. ground arith), tt)), (tt, tt)),
        ),
      )
      visits

run-starts_example :
    (visited.in_flight + finishes visit ≡ started.in_flight + starts visit)
    × (visited.lost ≡ started.lost + refusals visit)
    × (visited.buffers ≡ started.buffers + starts visit + refusals visit)
run-starts_example = run-starts visit started visited visits
