-- ===== src/Tail/Rounds.antt =====
-- The rounds of the outer loop of tail_f.
use auxiliary_tool.Common.{
  ℕ, ◌+◌, ◌-◌, ◌≤◌, ◌<◌, ◌≡◌, refl, sym, ap, ◌∙◌, subst, Bool, true, false, Option, none, some,
  List, [], ◌∷◌, ◌++◌, append_assoc, append-nil, Bytes, arith, Lacks, length, length-append,
}
use auxiliary_tool.Tail.{
  Line, events_are, wait_error, taken, Trace, drain, Wake, event, failure, quit_signal, stuck, Stop,
  quits, polls, reads, after_round, follow,
}
use auxiliary_tool.Tail.Reads.{copied_text, copied_text-append, Lacks-left, Lacks-right, drain_lem}

-- What is appended to the file.
unfoldable pub added : List Wake → Bytes
added [] = []
added (event more good ∷ wakes) = more ++ added wakes
added (failure more good ∷ wakes) = more ++ added wakes
added (quit_signal ∷ wakes) = added wakes
added (stuck ∷ wakes) = added wakes

-- After how many reads one fails, in the last round of the outer loop.
unfoldable pub last_good : ℕ → List Wake → ℕ
last_good good [] = good
last_good good (event more good' ∷ wakes) = last_good good' wakes
last_good good (failure more good' ∷ wakes) = last_good good' wakes
last_good good (quit_signal ∷ wakes) = last_good good wakes
last_good good (stuck ∷ wakes) = last_good good wakes

-- The loop goes on after each, up to where it stops, and epoll_wait does not fail before the first
-- event: to stop in the read is to fail as well.
unfoldable pub goes_on : Stop → Option ℕ → List Wake → Bool
goes_on quits events [] = true
goes_on polls events [] = true
goes_on reads none [] = false
goes_on reads (some n) [] = true
goes_on stop events (event more good ∷ wakes) = goes_on stop (some 1) wakes
goes_on stop none (failure more good ∷ wakes) = false
goes_on stop (some n) (failure more good ∷ wakes) = goes_on stop (some n) wakes
goes_on stop events (quit_signal ∷ wakes) = false
goes_on stop events (stuck ∷ wakes) = false

-- What a round of the outer loop leaves to the next: what it has printed stands before it.
round_lem :
    (fuel good : ℕ) (unread more later : Bytes)
    → Lacks 0 (unread ++ (more ++ later))
    → length (unread ++ (more ++ later)) < fuel
    → (lines : List Line) × (left : Bytes) × (drain fuel good unread ≡ some (lines, left))
      × (copied_text lines ++ ((left ++ more) ++ later) ≡ unread ++ (more ++ later))
      × Lacks 0 ((left ++ more) ++ later)
      × (length ((left ++ more) ++ later) ≤ length (unread ++ (more ++ later)))
round_lem fuel good unread more later h f =
    let (lines, left, done, whole, fewer) =
      drain_lem fuel good unread (Lacks-left unread (more ++ later) h)
        (omega (arith, f, length-append unread (more ++ later))) in
    let cut =
      ap (λ t. copied_text lines ++ t) (append_assoc left more later)
      ∙ sym (append_assoc (copied_text lines) left (more ++ later))
      ∙ ap (λ t. t ++ (more ++ later)) whole in
    (
      lines,
      left,
      done,
      cut,
      Lacks-right (copied_text lines) _ (subst (Lacks 0) (sym cut) h),
      omega (arith, ap length cut, length-append (copied_text lines) ((left ++ more) ++ later)),
    )

-- The text of a run is that of its first round and that of the rest.
rounds_lem :
    (lines notes : List Line) (t : Trace) (later whole : Bytes)
    → copied_text notes ≡ []
    → copied_text t.lines ++ t.unread ≡ later
    → copied_text lines ++ later ≡ whole
    → copied_text ((lines ++ notes) ++ t.lines) ++ t.unread ≡ whole
rounds_lem lines notes t later whole none_copied e e' =
    ap (λ s. s ++ t.unread)
      (copied_text-append (lines ++ notes) t.lines
        ∙ ap (λ s. s ++ copied_text t.lines)
            (copied_text-append lines notes
              ∙ ap (λ s. copied_text lines ++ s) none_copied
              ∙ append-nil (copied_text lines)))
    ∙ append_assoc (copied_text lines) (copied_text t.lines) t.unread
    ∙ ap (λ s. copied_text lines ++ s) e
    ∙ e'

-- What follows the wakes: the quit signal, or nothing, where the loop waits in epoll_wait, or a
-- failure behind which it waits in the read.
abbrev pub closing : Stop → List Wake → List Wake
closing quits rest = quit_signal ∷ rest
closing polls rest = []
closing reads rest = stuck ∷ rest

-- The blocks that are lost behind the last of the wakes.
abbrev pub last_blocks : Stop → ℕ
last_blocks quits = 0
last_blocks polls = 0
last_blocks reads = 1

-- A last round, with what it prints behind its reads.
last_round :
    (fuel good : ℕ) (unread : Bytes) (notes : List Line)
    → copied_text notes ≡ []
    → Lacks 0 (unread ++ [])
    → length (unread ++ []) < fuel
    → (lines : List Line) × (left : Bytes) × (drain fuel good unread ≡ some (lines, left))
      × (copied_text (lines ++ notes) ++ left ≡ unread ++ [])
      × (length left ≤ length (unread ++ []) - good)
last_round fuel good unread notes none_copied h f =
    let (lines, left, done, whole, fewer) =
      drain_lem fuel good unread (Lacks-left unread [] h)
        (omega (arith, f, length-append unread [])) in
    (
      lines,
      left,
      done,
      ap (λ s. s ++ left)
            (copied_text-append lines notes
              ∙ ap (λ s. copied_text lines ++ s) none_copied
              ∙ append-nil (copied_text lines))
          ∙ whole
          ∙ sym (append-nil unread),
      omega (arith, fewer, length-append unread []),
    )

pub follow_lem :
    (fuel good : ℕ) (events : Option ℕ) (unread : Bytes) (wakes : List Wake) (stop : Stop)
    (rest : List Wake)
    → Lacks 0 (unread ++ added wakes)
    → length (unread ++ added wakes) < fuel
    → goes_on stop events wakes ≡ true
    → (t : Trace) × (follow fuel good events unread (wakes ++ closing stop rest) ≡ some (stop, t))
      × (copied_text t.lines ++ t.unread ≡ unread ++ added wakes)
      × (t.blocks ≡ length wakes + last_blocks stop)
      × (length t.unread ≤ length (unread ++ added wakes) - last_good good wakes)
unfolding follow added goes_on last_good copied_text
follow_lem fuel good events unread [] quits rest h f g =
    let notes = events_are events ∷ wait_error ∷ [] in
    let (lines, left, done, whole, fewer) = last_round fuel good unread notes refl h f in
    (
      record { lines = lines ++ notes; unread = left; blocks = 0 },
      rw (done, follow),
      whole,
      refl,
      fewer,
    )
follow_lem fuel good events unread [] polls rest h f g =
    let (lines, left, done, whole, fewer) = last_round fuel good unread [] refl h f in
    (
      record { lines = lines; unread = left; blocks = 0 },
      rw (done, follow),
      ap (λ ls. copied_text ls ++ left) (sym (append-nil lines)) ∙ whole,
      refl,
      fewer,
    )
follow_lem fuel good none unread [] reads rest h f g = absurd cc
follow_lem fuel good (some e) unread [] reads rest h f g =
    let notes = events_are (some e) ∷ wait_error ∷ taken (some e) ∷ [] in
    let (lines, left, done, whole, fewer) = last_round fuel good unread notes refl h f in
    (
      record { lines = lines ++ notes; unread = left; blocks = 1 },
      rw (done, follow),
      whole,
      refl,
      fewer,
    )
follow_lem fuel good events unread (quit_signal ∷ wakes) stop rest h f g = absurd cc
follow_lem fuel good events unread (stuck ∷ wakes) stop rest h f g = absurd cc
follow_lem fuel good none unread (failure more good' ∷ wakes) stop rest h f g = absurd cc
follow_lem fuel good events unread (event more good' ∷ wakes) stop rest h f g =
    let (lines, left, done, cut, lacks, shorter) =
      round_lem fuel good unread more (added wakes) h f in
    let (t, done', text, blocks, fewer) =
      follow_lem fuel good' (some 1) (left ++ more) wakes stop rest lacks (omega arith) g in
    let notes = events_are (some 1) ∷ taken (some 1) ∷ [] in
    (
      record t { lines = (lines ++ notes) ++ t.lines; blocks = t.blocks + 1 },
      rw (done, follow) (ap (after_round (lines ++ notes) 1) done'),
      rounds_lem lines notes t ((left ++ more) ++ added wakes) _ refl text cut,
      omega arith,
      omega arith,
    )
follow_lem fuel good (some e) unread (failure more good' ∷ wakes) stop rest h f g =
    let (lines, left, done, cut, lacks, shorter) =
      round_lem fuel good unread more (added wakes) h f in
    let (t, done', text, blocks, fewer) =
      follow_lem fuel good' (some e) (left ++ more) wakes stop rest lacks (omega arith) g in
    let notes = events_are (some e) ∷ wait_error ∷ taken (some e) ∷ [] in
    (
      record t { lines = (lines ++ notes) ++ t.lines; blocks = t.blocks + 1 },
      rw (done, follow) (ap (after_round (lines ++ notes) 1) done'),
      rounds_lem lines notes t ((left ++ more) ++ added wakes) _ refl text cut,
      omega arith,
      omega arith,
    )
