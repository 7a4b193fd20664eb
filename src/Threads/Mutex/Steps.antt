-- ===== src/Threads/Mutex/Steps.antt =====
-- Each small step of a thread is a step of the system with whole calls of __log, or none of its steps.
use auxiliary_tool.Common.{
  ℕ, suc, ◌+◌, ◌≤◌, ◌≡◌, refl, ap, sym, subst, ◌∙◌, Bool, true, false, none, some, inl, inr, ◌++◌,
  Bytes, ltb, if◌then◌else◌, arith, length, min, Bool-cases, Option-cases,
}
use auxiliary_tool.Log.{Logger, rank, error, write_log, header, tick}
use auxiliary_tool.Log.Threshold.{tick-log_level}
use auxiliary_tool.Log.Appends.{write_log-Keeps}
use auxiliary_tool.Log.Macro.{Outcome}
use auxiliary_tool.Threads.{Thread, rounds}
use auxiliary_tool.Threads.Mutex.{
  Point, ready, stamped, entered, headed, spoken, written, leaving, Worker, Shared, formatted,
  print, advance, World, moved,
}
use auxiliary_tool.Threads.Mutex.Owner.{owner_of, IsSound}
use auxiliary_tool.Threads.Mutex.Writes.{write_log-write_log}
use auxiliary_tool.Threads.Mutex.Behind.{Lags, log_message-open, log_message-stdout}
use auxiliary_tool.Threads.Mutex.Follows.{
  Follows, keeps, stays, lag, Lags-put_worker, goes_on, ends,
}

then_of {ℓ} :
    {A : Type ℓ} (b : Bool) (x y : A) {z : A} → b ≡ true → (if b then x else y) ≡ z → x ≡ z
then_of true x y h e = e
then_of false x y h e = cc

else_of {ℓ} :
    {A : Type ℓ} (b : Bool) (x y : A) {z : A} → b ≡ false → (if b then x else y) ≡ z → y ≡ z
else_of true x y h e = cc
else_of false x y h e = e

module _ (disk : Bytes → Bytes) (w : World) (t : Thread) (sim : Follows disk w) where
  open sim use {level, seen, lags}

  by_result :
      (a r : Shared × Worker)
      → some a ≡ some r
      → Follows disk (moved w t a)
      → Follows disk (moved w t r)
  by_result a r e h = subst (λ (b : Shared × Worker). Follows disk (moved w t b)) (cc) h

  pub advance-Follows :
      (o : Outcome) (at : Point) (i : ℕ) (r : Shared × Worker)
      → w.worker t ≡ record { next = i; at = at }
      → IsSound w.shared.owner t (record { next = i; at = at })
      → length o.stamp ≤ 15
      → advance t o at i w.shared ≡ some r
      → Follows disk (moved w t r)
  unfolding advance
  advance-Follows o ready i r here sound h e = elim (Bool-cases (ltb i rounds)) [
    | inr stop ↦ absurd (ground (arith, stop, e))
    | inl more ↦ by_result _ r (rw more at (rw (ap rank level) at e)) (
        stays disk w t ready i here sim (record { next = i; at = stamped o.stamp })
          (sym sound.owned) refl)
  ]
  advance-Follows o (stamped stamp) i r here sound h e = elim (Option-cases w.shared.owner) [
    | inl free ↦ by_result _ r (rw (free, advance) at e) (
        keeps disk w t (stamped stamp) i here sim (record { next = i; at = entered stamp })
          (record w.shared { owner = some t }) level refl
          (Lags-put_worker disk w t (stamped stamp) i here sim seen.logger w.shared.logger _
            (some t) refl
            (subst (λ owner. Lags owner w.worker seen.logger w.shared.logger) free lags)))
    | inr (u, taken) ↦ absurd (ground (arith, taken, e))
  ]
  advance-Follows o (entered stamp) i r here sound h e =
      let mine = owner_of w.shared.owner t (sym sound.owned) in
      let same = lag disk w t (entered stamp) i here sim mine in
      let go = goes_on disk w t (entered stamp) i here sim mine in
      let file = write_log o.flushed (header stamp error) w.shared.logger in
      elim (Bool-cases w.shared.logger.is_open) [
        | inl opened ↦
            by_result (record w.shared { logger = file }, record { next = i; at = headed }) r
              (then_of _ _ _ opened e)
              (go (record { next = i; at = headed }) file
                ((write_log-Keeps o.flushed (header stamp error) w.shared.logger).level ∙ level)
                refl
                (
                  stamp,
                  o.flushed,
                  sound.short,
                  sym (ap (λ (l : Logger). l.is_open) same) ∙ opened,
                  ap (write_log o.flushed (header stamp error)) same,
                ))
        | inr closed ↦ by_result _ r (else_of _ _ _ closed e) (
            go (record { next = i; at = spoken }) (print (header stamp error) w.shared.logger) level
              refl
              (
                stamp,
                sound.short,
                sym (ap (λ (l : Logger). l.is_open) same) ∙ closed,
                ap (print (header stamp error)) same,
              ))
      ]
  advance-Follows o headed i r here sound h e =
      let mine = owner_of w.shared.owner t (sym sound.owned) in
      let (stamp, k, short, opened, same) = lag disk w t headed i here sim mine in
      by_result _ r e (
        goes_on disk w t headed i here sim mine (record { next = i; at = written })
          (write_log o.flushed (formatted t i) w.shared.logger)
          ((write_log-Keeps o.flushed (formatted t i) w.shared.logger).level ∙ level) refl
          (
            stamp,
            min k (length (seen.logger.pending ++ header stamp error)) + o.flushed,
            short,
            opened,
            ap (write_log o.flushed (formatted t i)) same
                ∙ write_log-write_log o.flushed k (header stamp error) (formatted t i) seen.logger,
          ))
  advance-Follows o spoken i r here sound h e =
      let mine = owner_of w.shared.owner t (sym sound.owned) in
      let (stamp, short, closed, same) = lag disk w t spoken i here sim mine in
      let seen_level = sym (ap (λ (l : Logger). l.log_level) same) ∙ level in
      by_result _ r e (
        ends disk w t spoken i here sim mine (record o { stamp = stamp })
          (print (formatted t i) w.shared.logger) level refl sound.room short
          (ap (print (formatted t i)) same
            ∙ log_message-stdout t i (record o { stamp = stamp }) seen.logger seen_level closed))
  advance-Follows o written i r here sound h e =
      let mine = owner_of w.shared.owner t (sym sound.owned) in
      let (stamp, k, short, opened, same) = lag disk w t written i here sim mine in
      let text = header stamp error ++ formatted t i in
      let seen_level =
        sym ((write_log-Keeps k text seen.logger).level)
        ∙ sym (ap (λ (l : Logger). l.log_level) same)
        ∙ level in
      let o' : Outcome = record { calls = o.calls; flushed = k; stamp = stamp } in
      by_result _ r e (
        ends disk w t written i here sim mine o' (tick o.calls w.shared.logger)
          (tick-log_level o.calls w.shared.logger ∙ level) refl sound.room short
          (ap (tick o.calls) same ∙ sym (log_message-open t i o' seen.logger seen_level opened)))
  advance-Follows o leaving i r here sound h e =
      let mine = owner_of w.shared.owner t (sym sound.owned) in
      by_result _ r e (
        keeps disk w t leaving i here sim (record { next = suc i; at = ready })
          (record w.shared { owner = none }) level refl (lag disk w t leaving i here sim mine))
