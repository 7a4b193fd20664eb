-- ===== src/Threads/Mutex/Follows.antt =====
-- What a world has to do with the system in which each call of __log is one step, and what keeps it.
use auxiliary_tool.Common.{
  ℕ, suc, ◌≤◌, ◌<◌, ◌≡◌, ap, sym, subst, ◌∙◌, false, Option, some, Bytes, length,
}
use auxiliary_tool.Log.{Logger, info}
use auxiliary_tool.Log.Macro.{Outcome}
use auxiliary_tool.Threads.{Thread, thread1, thread2, log_message, rounds, System, Reach}
use auxiliary_tool.Threads.Mutex.{Point, leaving, Worker, Shared, World, put_worker, moved}
use auxiliary_tool.Threads.Mutex.Owner.{owns, other, put_worker_self, put_worker-All}
use auxiliary_tool.Threads.Mutex.Behind.{
  done_at, done, counter, Behind, Lags, outside-Lags, sent, logger-sent, Reach-sent,
}

-- A world, and the system that it follows.
pub record Follows (disk : Bytes → Bytes) (w : World) : Type 0 where
  pub level : w.shared.logger.log_level ≡ info
  pub seen : System
  pub reach : Reach disk seen
  pub counts : (u : Thread) → counter seen u ≡ done (w.worker u)
  pub lags : Lags w.shared.owner w.worker seen.logger w.shared.logger

module _ (disk : Bytes → Bytes) (w : World) (t : Thread) (at : Point) (i : ℕ)
    (here : w.worker t ≡ record { next = i; at = at }) (sim : Follows disk w) where
  open sim use {level, seen, reach, counts, lags}

  count : counter seen t ≡ done_at at i
  count = counts t ∙ ap done here

  -- A step that does not end a call.
  pub keeps :
      (l' : Worker) (m' : Shared)
      → m'.logger.log_level ≡ info
      → done l' ≡ done_at at i
      → Lags m'.owner (put_worker w.worker t l') seen.logger m'.logger
      → Follows disk (moved w t (m', l'))
  keeps l' m' level' same lags' = record {
    level = level';
    seen = seen;
    reach = reach;
    counts =
        put_worker-All (λ u l. counter seen u ≡ done l) w.worker t l' (count ∙ sym same)
          (counts (other t));
    lags = lags';
  }

  -- A step before the mutex.
  pub stays :
      (l' : Worker)
      → owns w.shared.owner t ≡ false
      → done l' ≡ done_at at i
      → Follows disk (moved w t (w.shared, l'))
  stays l' free same =
      keeps l' w.shared level same
        (outside-Lags w.shared.owner t w.worker l' seen.logger w.shared.logger free lags)

  pub Lags-put_worker :
      (s g : Logger) (l' : Worker) (owner : Option Thread)
      → owner ≡ some t
      → Behind t l'.next l'.at s g
      → Lags owner (put_worker w.worker t l') s g
  Lags-put_worker s g l' owner e b =
      subst (λ o. Lags o (put_worker w.worker t l') s g) (sym e)
        (subst (λ (l : Worker). Behind t l.next l.at s g) (sym (put_worker_self w.worker t l')) b)

  module _ (mine : w.shared.owner ≡ some t) where
    pub lag : Behind t i at seen.logger w.shared.logger
    lag =
        subst (λ (l : Worker). Behind t l.next l.at seen.logger w.shared.logger) here
          (subst (λ owner. Lags owner w.worker seen.logger w.shared.logger) mine lags)

    -- A step behind the mutex that does not end a call.
    pub goes_on :
        (l' : Worker) (g : Logger)
        → g.log_level ≡ info
        → done l' ≡ done_at at i
        → Behind t l'.next l'.at seen.logger g
        → Follows disk (moved w t (record w.shared { logger = g }, l'))
    goes_on l' g level' same b =
        keeps l' (record w.shared { logger = g }) level' same
          (Lags-put_worker seen.logger g l' w.shared.owner mine b)

    -- The last step of a call.
    pub ends :
        (o : Outcome) (g : Logger)
        → g.log_level ≡ info
        → done_at at i ≡ i
        → i < rounds
        → length o.stamp ≤ 15
        → g ≡ log_message t i o seen.logger
        → Follows disk
            (moved w t (record w.shared { logger = g }, record { next = i; at = leaving }))
    ends o g level' same lt h e = record {
      level = level';
      seen = sent t seen whole;
      reach = Reach-sent disk t o seen reach (subst (λ (n : ℕ). n < rounds) (sym at_i) lt) h;
      counts = counted t at_i (counts (other t));
      lags = Lags-put_worker (sent t seen whole).logger g _ w.shared.owner mine (
          e
          ∙ ap (λ (n : ℕ). log_message t n o seen.logger) (sym at_i)
          ∙ sym (logger-sent t seen whole));
    }
      where
        at_i : counter seen t ≡ i
        at_i = count ∙ same

        whole : Logger
        whole = log_message t (counter seen t) o seen.logger

        counted :
            (v : Thread)
            → counter seen v ≡ i
            → counter seen (other v) ≡ done (w.worker (other v))
            → (u : Thread)
            → counter (sent v seen whole) u
              ≡ done (put_worker w.worker v (record { next = i; at = leaving }) u)
        counted thread1 p q thread1 = ap suc p
        counted thread1 p q thread2 = q
        counted thread2 p q thread1 = q
        counted thread2 p q thread2 = ap suc p
