-- ===== src/Threads/Mutex/Owner.antt =====
-- A thread stands behind the mutex just when it owns it.
use auxiliary_tool.Common.{
  ℕ, suc, ◌≤◌, ◌<◌, ◌≡◌, refl, ap, sym, subst, ◌∙◌, Bool, true, false, Bytes, Option, none, some,
  ltb, inl, inr, Bool-cases, Option-cases, arith, length,
}
use auxiliary_tool.Log.{rank, error}
use auxiliary_tool.Log.Macro.{Outcome}
use auxiliary_tool.Threads.{Thread, thread1, thread2, rounds}
use auxiliary_tool.Threads.Mutex.{
  Point, ready, stamped, entered, headed, spoken, written, leaving, Worker, Shared, advance, World,
  put_worker, Turn, turn, launched, Runs, launch, after,
}

abbrev pub inside : Point → Bool
inside ready = false
inside (stamped stamp) = false
inside (entered stamp) = true
inside headed = true
inside spoken = true
inside written = true
inside leaving = true

abbrev pub owns : Option Thread → Thread → Bool
owns none t = false
owns (some thread1) thread1 = true
owns (some thread1) thread2 = false
owns (some thread2) thread1 = false
owns (some thread2) thread2 = true

abbrev pub other : Thread → Thread
other thread1 = thread2
other thread2 = thread1

pub owns_self : (t : Thread) → owns (some t) t ≡ true
owns_self thread1 = refl
owns_self thread2 = refl

pub owns-other : (t : Thread) → owns (some t) (other t) ≡ false
owns-other thread1 = refl
owns-other thread2 = refl

pub owner_of : (owner : Option Thread) (t : Thread) → owns owner t ≡ true → owner ≡ some t
owner_of none t h = cc
owner_of (some thread1) thread1 h = refl
owner_of (some thread1) thread2 h = cc
owner_of (some thread2) thread1 h = cc
owner_of (some thread2) thread2 h = refl

pub put_worker_self : (f : Thread → Worker) (t : Thread) (l : Worker) → put_worker f t l t ≡ l
put_worker_self f thread1 l = refl
put_worker_self f thread2 l = refl

-- What the thread that moves has, and the other has kept, both have.
pub put_worker-All {ℓ} :
    (P : Thread → Worker → Type ℓ) (f : Thread → Worker) (t : Thread) (l : Worker)
    → P t l
    → P (other t) (f (other t))
    → (u : Thread) → P u (put_worker f t l u)
put_worker-All P f thread1 l mine its thread1 = mine
put_worker-All P f thread1 l mine its thread2 = its
put_worker-All P f thread2 l mine its thread1 = its
put_worker-All P f thread2 l mine its thread2 = mine

-- The stamp that a thread holds is short, and the counter is within the loop.
abbrev pub IsShort : Point → Type 0
IsShort (stamped stamp) = length stamp ≤ 15
IsShort (entered stamp) = length stamp ≤ 15
IsShort _ = Unit

abbrev pub InLoop : Point → ℕ → Type 0
InLoop ready i = i ≤ rounds
InLoop _ i = i < rounds

pub record IsSound (owner : Option Thread) (t : Thread) (l : Worker) : Type 0 where
  pub owned : inside l.at ≡ owns owner t
  pub short : IsShort l.at
  pub room : InLoop l.at l.next

-- What a step makes of the owner, for the thread that moves and for the other.
pub record Passes (t : Thread) (m m' : Shared) (l' : Worker) : Type 0 where
  pub mine : IsSound m'.owner t l'
  pub its : owns m'.owner (other t) ≡ owns m.owner (other t)

module _ (t : Thread) (m : Shared) where
  -- A step that leaves the owner alone.
  same_owner :
      (at : Point) (l' : Worker) (m' : Shared)
      → m'.owner ≡ m.owner
      → inside at ≡ owns m.owner t
      → inside l'.at ≡ inside at
      → IsShort l'.at
      → InLoop l'.at l'.next
      → Passes t m m' l'
  same_owner at l' m' same owned e short room = record {
    mine = record {
      owned = e ∙ owned ∙ ap (λ owner. owns owner t) (sym same);
      short = short;
      room = room;
    };
    its = ap (λ owner. owns owner (other t)) same;
  }

  by_result : (a r : Shared × Worker) → some a ≡ some r → Passes t m a.0 a.1 → Passes t m r.0 r.1
  by_result a r e h = subst (λ (b : Shared × Worker). Passes t m b.0 b.1) (cc) h

  advance-Passes :
      (o : Outcome) (at : Point) (i : ℕ) (r : Shared × Worker)
      → length o.stamp ≤ 15
      → IsSound m.owner t (record { next = i; at = at })
      → advance t o at i m ≡ some r
      → Passes t m r.0 r.1
  unfolding advance
  advance-Passes o ready i r h sound e = elim (Bool-cases (ltb i rounds)) [
    | inr stop ↦ absurd (ground (arith, stop, e))
    | inl more ↦ elim (Bool-cases (ltb (rank m.logger.log_level) (rank error))) [
      | inl filtered ↦
          by_result (m, record { next = suc i; at = ready }) r (rw more at (rw filtered at e))
            (same_owner ready _ m refl sound.owned refl tt (ground arith))
      | inr passes ↦
          by_result (m, record { next = i; at = stamped o.stamp }) r (rw more at (rw passes at e))
            (same_owner ready _ m refl sound.owned refl h (ground arith))
    ]
  ]
  advance-Passes o (stamped stamp) i r h sound e = elim (Option-cases m.owner) [
    | inl free ↦ by_result _ r (rw (free, advance) at e) (record {
      mine = record { owned = sym (owns_self t); short = sound.short; room = sound.room };
      its = owns-other t ∙ ap (λ owner. owns owner (other t)) (sym free);
    })
    | inr (u, taken) ↦ absurd (ground (arith, taken, e))
  ]
  advance-Passes o (entered stamp) i r h sound e = elim (Bool-cases m.logger.is_open) [
    | inl opened ↦
        by_result _ r (rw opened at e)
          (same_owner (entered stamp) _ _ refl sound.owned refl tt sound.room)
    | inr closed ↦
        by_result _ r (rw closed at e)
          (same_owner (entered stamp) _ _ refl sound.owned refl tt sound.room)
  ]
  advance-Passes o headed i r h sound e =
      by_result _ r e (same_owner headed _ _ refl sound.owned refl tt sound.room)
  advance-Passes o spoken i r h sound e =
      by_result _ r e (same_owner spoken _ _ refl sound.owned refl tt sound.room)
  advance-Passes o written i r h sound e =
      by_result _ r e (same_owner written _ _ refl sound.owned refl tt sound.room)
  advance-Passes o leaving i r h sound e = by_result _ r e (record {
    mine = record { owned = refl; short = tt; room = sound.room };
    its =
        sym (
          ap (λ owner. owns owner (other t)) (owner_of m.owner t (sym sound.owned)) ∙ owns-other t);
  })

-- Every thread is sound.
abbrev pub AllSound : World → Type 0
AllSound w = (u : Thread) → IsSound w.shared.owner u (w.worker u)

pub Turn-AllSound : {w v : World} → Turn w v → AllSound w → AllSound v
Turn-AllSound {w} (turn t o {r} h step e) sound =
    let passes = advance-Passes t w.shared o (w.worker t).at (w.worker t).next r h (sound t) step in
    subst AllSound (sym e) (
      put_worker-All (IsSound r.0.owner) w.worker t r.1 passes.mine (record {
        owned = (sound (other t)).owned ∙ sym passes.its;
        short = (sound (other t)).short;
        room = (sound (other t)).room;
      }))

pub launched-AllSound : (disk : Bytes → Bytes) → AllSound (launched disk)
unfolding launched
launched-AllSound disk u = record { owned = refl; short = tt; room = omega arith }

pub Runs-AllSound : (disk : Bytes → Bytes) {n : ℕ} {w : World} → Runs disk n w → AllSound w
Runs-AllSound disk launch = launched-AllSound disk
Runs-AllSound disk (after runs step) = Turn-AllSound step (Runs-AllSound disk runs)

-- The two threads are never both behind the mutex.
pub inside-exclusive :
    (disk : Bytes → Bytes) (n : ℕ) (w : World)
    → Runs disk n w
    → inside (w.worker thread1).at ≡ true
    → inside (w.worker thread2).at ≡ false
inside-exclusive disk n w runs h =
    let sound = Runs-AllSound disk runs in
    (sound thread2).owned
    ∙ ap (λ owner. owns owner thread2)
        (owner_of w.shared.owner thread1 (sym (sound thread1).owned ∙ h))
