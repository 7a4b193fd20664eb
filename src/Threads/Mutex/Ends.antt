-- ===== src/Threads/Mutex/Ends.antt =====
-- The threads end: no run is longer than 12000 steps, and where no step can be taken both loops are
-- done.
use auxiliary_tool.Common.{
  ℕ, suc, ◌+◌, ◌*◌, ◌≤◌, ◌<◌, ◌≡◌, refl, ap, subst, ◌∙◌, Bool, true, false, none, some, inl, inr,
  ◌⊎◌, ◌++◌, Bytes, codes, ltb, if◌then◌else◌, arith, length, Bool-cases, Option-cases,
}
use auxiliary_tool.Log.{rank, error}
use auxiliary_tool.Log.Macro.{Outcome}
use auxiliary_tool.Log.Rotate.{logged}
use auxiliary_tool.Threads.{Thread, thread1, thread2, rounds}
use auxiliary_tool.Threads.Merge.{Merge}
use auxiliary_tool.Threads.Mutex.{
  Point, ready, stamped, entered, headed, spoken, written, leaving, Worker, Shared, advance, World,
  moved, Turn, turn, launched, Runs, launch, after,
}
use auxiliary_tool.Threads.Mutex.Owner.{owns, owns_self, inside, InLoop, AllSound, Runs-AllSound}
use auxiliary_tool.Threads.Mutex.Atomic.{Runs-Merge}

-- How far a thread has come: at most six steps for a round.
abbrev stage : Point → ℕ
stage ready = 0
stage (stamped stamp) = 1
stage (entered stamp) = 2
stage headed = 3
stage spoken = 4
stage written = 4
stage leaving = 5

abbrev spent : Worker → ℕ
spent l = 6 * l.next + stage l.at

advance-spent :
    (t : Thread) (o : Outcome) (at : Point) (i : ℕ) (m : Shared) (r : Shared × Worker)
    → advance t o at i m ≡ some r
    → 6 * i + stage at < spent r.1
unfolding advance
advance-spent t o ready i m r e = ground arith
advance-spent t o (stamped stamp) i m r e = ground arith
advance-spent t o (entered stamp) i m r e = ground arith
advance-spent t o headed i m r e = ground arith
advance-spent t o spoken i m r e = ground arith
advance-spent t o written i m r e = ground arith
advance-spent t o leaving i m r e = ground arith

spent-le : (at : Point) (i : ℕ) → InLoop at i → 6 * i + stage at ≤ 6 * rounds
spent-le ready i h = omega arith
spent-le (stamped stamp) i h = omega arith
spent-le (entered stamp) i h = omega arith
spent-le headed i h = omega arith
spent-le spoken i h = omega arith
spent-le written i h = omega arith
spent-le leaving i h = omega arith

total : World → ℕ
total w = spent (w.worker thread1) + spent (w.worker thread2)

Runs-total : (disk : Bytes → Bytes) {n : ℕ} {w : World} → Runs disk n w → n ≤ total w
unfolding total launched
Runs-total disk launch = omega arith
Runs-total disk (after {n} {w} {v} runs (turn thread1 o {r} h step e)) = omega (
  arith,
  Runs-total disk runs,
  advance-spent thread1 o (w.worker thread1).at (w.worker thread1).next w.shared r step,
  ap (λ (v : World). spent (v.worker thread1)) e,
  ap (λ (v : World). spent (v.worker thread2)) e,
)
Runs-total disk (after {n} {w} {v} runs (turn thread2 o {r} h step e)) = omega (
  arith,
  Runs-total disk runs,
  advance-spent thread2 o (w.worker thread2).at (w.worker thread2).next w.shared r step,
  ap (λ (v : World). spent (v.worker thread1)) e,
  ap (λ (v : World). spent (v.worker thread2)) e,
)

some_either {ℓ} :
    {A : Type ℓ} (b : Bool) (x y : A) → (z : A) × ((if b then some x else some y) ≡ some z)
some_either true x y = (x, refl)
some_either false x y = (y, refl)

-- A thread behind the mutex can go on.
inside-advances :
    (t : Thread) (o : Outcome) (at : Point) (i : ℕ) (m : Shared)
    → inside at ≡ true
    → (r : Shared × Worker) × (advance t o at i m ≡ some r)
unfolding advance
inside-advances t o ready i m h = cc
inside-advances t o (stamped stamp) i m h = cc
inside-advances t o (entered stamp) i m h = some_either m.logger.is_open _ _
inside-advances t o headed i m h = (_, refl)
inside-advances t o spoken i m h = (_, refl)
inside-advances t o written i m h = (_, refl)
inside-advances t o leaving i m h = (_, refl)

-- Where the mutex is free, a thread before it can go on, or has ended.
outside-advances :
    (t : Thread) (o : Outcome) (at : Point) (i : ℕ) (m : Shared)
    → m.owner ≡ none
    → inside at ≡ false
    → ((r : Shared × Worker) × (advance t o at i m ≡ some r)) ⊎ ((at ≡ ready) × (rounds ≤ i))
unfolding advance
outside-advances t o ready i m free h = elim (Bool-cases (ltb i rounds)) [
  | inr stop ↦ inr (refl, ground (arith, stop))
  | inl more ↦
      let (r, goes) =
        some_either (ltb (rank m.logger.log_level) (rank error))
          (m, record { next = suc i; at = ready }) (m, record { next = i; at = stamped o.stamp }) in
      inl (r, rw more goes)
]
outside-advances t o (stamped stamp) i m free h = inl (
  (record m { owner = some t }, record { next = i; at = entered stamp }),
  rw (free, advance) refl,
)
outside-advances t o (entered stamp) i m free h = cc
outside-advances t o headed i m free h = cc
outside-advances t o spoken i m free h = cc
outside-advances t o written i m free h = cc
outside-advances t o leaving i m free h = cc

module _ (o : Outcome) (h : length o.stamp ≤ 15) (w : World) (sound : AllSound w) where
  turn_of :
      (t : Thread)
      → (r : Shared × Worker) × (advance t o (w.worker t).at (w.worker t).next w.shared ≡ some r)
      → (v : World) × Turn w v
  turn_of t (r, step) = (moved w t r, turn t o h step refl)

  -- A thread that neither goes on nor waits for the mutex.
  abbrev HasEnded : Thread → Type 0
  HasEnded t = ((w.worker t).at ≡ ready) × (rounds ≤ (w.worker t).next)

  ended-next : (t : Thread) → HasEnded t → (w.worker t).next ≡ rounds
  ended-next t (at, all) =
      let room = subst (λ at. InLoop at (w.worker t).next) at (sound t).room in
      omega (arith, room, all)

  -- Some thread can take a step, or both have ended.
  goes_on :
      ((v : World) × Turn w v)
      ⊎ ((w.shared.owner ≡ none) × ((u : Thread) → (w.worker u).next ≡ rounds))
  goes_on = elim (Option-cases w.shared.owner) [
    | inr (t, taken) ↦ inl (
        turn_of t (
          inside-advances t o (w.worker t).at (w.worker t).next w.shared
            ((sound t).owned ∙ ap (λ owner. owns owner t) taken ∙ owns_self t)))
    | inl free ↦
        let at_mutex = λ (t : Thread).
          outside-advances t o (w.worker t).at (w.worker t).next w.shared free
            ((sound t).owned ∙ ap (λ owner. owns owner t) free) in
        elim (at_mutex thread1) [
          | inl first ↦ inl (turn_of thread1 first)
          | inr one ↦ elim (at_mutex thread2) [
            | inl second ↦ inl (turn_of thread2 second)
            | inr two ↦ inr (free, both one two)
          ]
        ]
  ]
    where
      both : HasEnded thread1 → HasEnded thread2 → (u : Thread) → (w.worker u).next ≡ rounds
      both one two thread1 = ended-next thread1 one
      both one two thread2 = ended-next thread2 two

-- No run of the threads is longer than 12000 steps. Where none of them can take a step, neither
-- holds the mutex, both have made their 1000 rounds, and the log holds, if the file held at most
-- 1500000 bytes, what it held before and then the 2000 messages, each whole and those of each thread
-- in order.
pub Runs-ends :
    (disk : Bytes → Bytes) (n : ℕ) (w : World) (o : Outcome)
    → length (disk (codes "main.log")) ≤ 1500000
    → length o.stamp ≤ 15
    → Runs disk n w
    → (n ≤ 12000)
      × (((v : World) × Turn w v)
          ⊎ ((w.shared.owner ≡ none)
              × ((text : Bytes) × (logged w.shared.logger ≡ disk (codes "main.log") ++ text)
                  × Merge 1000 1000 text)))
unfolding total
Runs-ends disk n w o small h runs = (
  omega (
    arith,
    Runs-total disk runs,
    spent-le (w.worker thread1).at (w.worker thread1).next (sound thread1).room,
    spent-le (w.worker thread2).at (w.worker thread2).next (sound thread2).room,
  ),
  elim (goes_on o h w sound) [
    | inl step ↦ inl step
    | inr (free, all) ↦
        let (text, holds, merged) = Runs-Merge disk n w small runs free in
        inr (
          free,
          (
            text,
            holds,
            subst (λ (k : ℕ). Merge k 1000 text) (all thread1)
                (subst (λ (k : ℕ). Merge (w.worker thread1).next k text) (all thread2) merged),
          ),
        )
  ],
)
  where
    sound : AllSound w
    sound = Runs-AllSound disk runs
