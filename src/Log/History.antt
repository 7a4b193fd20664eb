-- ===== src/Log/History.antt =====
-- A sequence of messages to one log, in either copy, with the checks of its size.
use auxiliary_tool.Common.{
  ℕ, ◌+◌, ◌*◌, ◌≤◌, ◌<◌, ◌≡◌, refl, ap, sym, subst, ◌∙◌, true, [], ◌++◌, append_assoc, append-nil,
  Bytes, arith, length,
}
use native.Mathlib.Nat.{mul-le-mul_right}
use auxiliary_tool.Log.{Logger, Level, rank, the_limit}
use auxiliary_tool.Log.Macro.{Outcome}
use auxiliary_tool.Log.Rotate.{logged}
use auxiliary_tool.Log.Appends.{Keeps-trans}
use auxiliary_tool.Log.Once.{
  Copy, copy_002, copy_009, log_of, line_of, Fits, slack, Wrote, IsSmall, log_of-Wrote,
  log_of-filtered, log_of-IsSmall,
}

-- What a sequence of calls on `s` leads to, with the lines of the messages that pass.
pub data Logs (copy : Copy) (longest buffer : ℕ) (s : Logger) : Bytes → Logger → Type 0 where
  begin : Logs copy longest buffer s [] s
  passed :
      (o : Outcome) (level : Level) (message : Bytes) {lines lines' : Bytes} {t t' : Logger}
      → Logs copy longest buffer s lines t
      → rank level ≤ rank t.log_level
      → Fits longest buffer o (line_of o level message) t
      → lines' ≡ lines ++ line_of o level message
      → t' ≡ log_of copy o level message t
      → Logs copy longest buffer s lines' t'
  filtered :
      (o : Outcome) (level : Level) (message : Bytes) {lines : Bytes} {t t' : Logger}
      → Logs copy longest buffer s lines t
      → rank t.log_level < rank level
      → t' ≡ log_of copy o level message t
      → Logs copy longest buffer s lines t'

-- What a run of messages leaves.
module _ (copy : Copy) (longest buffer : ℕ) (s : Logger) (opened : s.is_open ≡ true) where
  pub Logs-Wrote :
      {lines : Bytes} {t : Logger} → Logs copy longest buffer s lines t → Wrote lines s t
  Logs-Wrote begin = record {
    kept = record { file = refl; level = refl; is_open = refl; limit = refl };
    lost = [];
    whole = sym (append-nil (logged s));
  }
  Logs-Wrote (passed o level message {lines} {lines'} {t} {t'} run passes fits e e') =
      let before = Logs-Wrote run in
      let step =
        log_of-Wrote longest buffer o level message t copy (before.kept.is_open ∙ opened) passes
          fits in
      subst (λ u. Wrote lines' s u) (sym e')
        (record {
          kept = Keeps-trans before.kept step.kept;
          lost = before.lost ++ step.lost;
          whole =
              append_assoc before.lost step.lost _
              ∙ ap (λ r. before.lost ++ r) step.whole
              ∙ sym (append_assoc before.lost (logged t) (line_of o level message))
              ∙ ap (λ r. r ++ line_of o level message) before.whole
              ∙ append_assoc (logged s) lines (line_of o level message)
              ∙ ap (λ r. logged s ++ r) (sym e);
        })
  Logs-Wrote (filtered o level message {lines} {t} run filters e) =
      subst (λ u. Wrote lines s u)
        (sym (e ∙ log_of-filtered longest buffer o level message t copy filters)) (Logs-Wrote run)

  Logs-IsSmall :
      {lines : Bytes} {t : Logger}
      → 1024 * longest ≤ the_limit s + buffer
      → IsSmall copy longest (the_limit s + buffer) s
      → Logs copy longest buffer s lines t
      → IsSmall copy longest (the_limit s + buffer) t
  Logs-IsSmall room v begin = v
  Logs-IsSmall room v (passed o level message {lines} {lines'} {t} {t'} run passes fits e e') =
      let before = (Logs-Wrote run).kept in
      let step =
        log_of-IsSmall longest buffer o level message t copy (before.is_open ∙ opened) passes
          fits in
      subst (IsSmall copy longest (the_limit s + buffer)) (sym e') (
        subst
          (λ (n : ℕ).
            1024 * longest ≤ n + buffer
            → IsSmall copy longest (n + buffer) t
            → IsSmall copy longest (n + buffer) (log_of copy o level message t))
          before.limit step room (Logs-IsSmall room v run))
  Logs-IsSmall room v (filtered o level message {lines} {t} run filters e) =
      subst (IsSmall copy longest (the_limit s + buffer))
        (sym (e ∙ log_of-filtered longest buffer o level message t copy filters))
        (Logs-IsSmall room v run)

-- Whatever the messages, and however much stdio holds back, an open log of either copy whose checks
-- succeed stays open and holds the end of all that it has held and been sent: the lines in their order,
-- with none changed or left out but at the front.
pub logged-Logs :
    (copy : Copy) (longest buffer : ℕ) (s t : Logger) (lines : Bytes)
    → s.is_open ≡ true
    → Logs copy longest buffer s lines t
    → (t.is_open ≡ true) × ((lost : Bytes) × (lost ++ logged t ≡ logged s ++ lines))
logged-Logs copy longest buffer s t lines opened run =
    let wrote = Logs-Wrote copy longest buffer s opened run in
    (wrote.kept.is_open ∙ opened, (wrote.lost, wrote.whole))

-- An open log of either copy that starts no longer than its limit and the buffer of stdio, with all
-- lines short enough for 1024 of them to fit in these, and with checks that succeed, never holds
-- more than its limit and the buffer, and in 002 the lines of 1025 messages.
pub length-Logs :
    (copy : Copy) (longest buffer : ℕ) (s t : Logger) (lines : Bytes)
    → s.is_open ≡ true
    → s.check_tick ≤ 1025
    → 1024 * longest ≤ the_limit s + buffer
    → length (logged s) ≤ the_limit s + buffer
    → Logs copy longest buffer s lines t
    → length (logged t) ≤ the_limit s + buffer + slack copy longest 1025
length-Logs copy_002 longest buffer s t lines opened ticks room small run =
    let v =
      Logs-IsSmall copy_002 longest buffer s opened room
        (record { counter = ticks; small = omega (arith, small) }) run in
    omega (arith, v.small, mul-le-mul_right longest v.counter)
length-Logs copy_009 longest buffer s t lines opened ticks room small run =
    let v =
      Logs-IsSmall copy_009 longest buffer s opened room
        (record { counter = ticks; small = omega (arith, small) }) run in
    omega (arith, v.small)
