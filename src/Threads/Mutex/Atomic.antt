-- ===== src/Threads/Mutex/Atomic.antt =====
-- The mutex makes a call of __log one step: what the threads do in small steps, in any order, is what
-- the system with whole calls does.
use auxiliary_tool.Common.{
  ℕ, ◌≤◌, ◌≡◌, refl, ap, sym, subst, ◌∙◌, false, none, ◌++◌, Bytes, codes, length,
}
use auxiliary_tool.Log.{log_init}
use auxiliary_tool.Log.Rotate.{logged}
use auxiliary_tool.Threads.{Thread, thread1, thread2, start, Reach, begin}
use auxiliary_tool.Threads.Merge.{Merge, Reach-Merge}
use auxiliary_tool.Threads.Mutex.{
  Point, ready, stamped, entered, headed, spoken, written, leaving, World, turn, launched, Runs,
  launch, after, system,
}
use auxiliary_tool.Threads.Mutex.Owner.{owns, inside, Runs-AllSound}
use auxiliary_tool.Threads.Mutex.Behind.{done_at, counter, Lags}
use auxiliary_tool.Threads.Mutex.Follows.{Follows}
use auxiliary_tool.Threads.Mutex.Steps.{advance-Follows}

pub Runs-Follows : (disk : Bytes → Bytes) {n : ℕ} {w : World} → Runs disk n w → Follows disk w
unfolding launched start log_init
Runs-Follows disk launch = record {
  level = refl;
  seen = start disk;
  reach = begin;
  counts = none_sent;
  lags = refl;
}
  where
    none_sent : (u : Thread) → counter (start disk) u ≡ 0
    none_sent thread1 = refl
    none_sent thread2 = refl
Runs-Follows disk (after {n} {w} runs (turn t o {r} h step e)) = subst (Follows disk) (sym e) (
    advance-Follows disk w t (Runs-Follows disk runs) o (w.worker t).at (w.worker t).next r refl
      (Runs-AllSound disk runs t) h step)

done_outside : (at : Point) (i : ℕ) → inside at ≡ false → done_at at i ≡ i
done_outside ready i h = refl
done_outside (stamped stamp) i h = refl
done_outside (entered stamp) i h = cc
done_outside headed i h = cc
done_outside spoken i h = cc
done_outside written i h = cc
done_outside leaving i h = cc

-- In whatever order the threads take their steps: where none of them holds the mutex, the world is
-- one that the system with whole calls of __log reaches.
pub Runs-Reach :
    (disk : Bytes → Bytes) (n : ℕ) (w : World)
    → Runs disk n w
    → w.shared.owner ≡ none
    → Reach disk (system w)
Runs-Reach disk n w runs free = subst (Reach disk) same sim.reach
  where
    sim : Follows disk w
    sim = Runs-Follows disk runs

    counted : (u : Thread) → counter sim.seen u ≡ (w.worker u).next
    counted u =
        sim.counts u
        ∙ done_outside (w.worker u).at (w.worker u).next
            ((Runs-AllSound disk runs u).owned ∙ ap (λ owner. owns owner u) free)

    log : w.shared.logger ≡ sim.seen.logger
    log = subst (λ owner. Lags owner w.worker sim.seen.logger w.shared.logger) free sim.lags

    same : sim.seen ≡ system w
    same = λ i. record { logger = sym log i; next1 = counted thread1 i; next2 = counted thread2 i }

-- In whatever order the threads take their steps, those of stdio and of the check of the size included,
-- and however much stdio holds back: if the file held at most 1500000 bytes, then where no thread
-- holds the mutex the log holds what it held before and then the messages sent so far, each whole
-- and those of each thread in order, and nothing else.
pub Runs-Merge :
    (disk : Bytes → Bytes) (n : ℕ) (w : World)
    → length (disk (codes "main.log")) ≤ 1500000
    → Runs disk n w
    → w.shared.owner ≡ none
    → (text : Bytes) × (logged w.shared.logger ≡ disk (codes "main.log") ++ text)
      × Merge (w.worker thread1).next (w.worker thread2).next text
Runs-Merge disk n w small runs free =
    Reach-Merge disk (system w) small (Runs-Reach disk n w runs free)
