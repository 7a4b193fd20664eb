-- ===== src/Log/Settle.antt =====
-- What one check leaves of an open log, when its calls succeed: all of it, or its second half.
use auxiliary_tool.Common.{
  ◌-◌, ◌/◌, ◌≤◌, ◌<◌, ◌≡◌, ◌⊎◌, inl, inr, refl, ap, ap₂, sym, ◌∙◌, true, ◌++◌, append-nil, Bytes,
  ltb, arith, length, drop, Bool-cases,
}
use auxiliary_tool.Log.{Logger, Calls, close_log, the_limit, check_file_size}
use auxiliary_tool.Log.Rotate.{
  Succeeds, logged, closed, shorten-reopened, check-shorten, check_file_size-halves,
}
use auxiliary_tool.Log.Limit.{check_file_size-below, the_limit-some}
use auxiliary_tool.Log.Appends.{Keeps}

-- What a check leaves: the log stays open, with its name, its level, its limit and the counter; it
-- holds all that it held, and is then below the limit on disk, or the second half of that.
pub record Settles (s t : Logger) : Type 0 where
  pub kept : Keeps s t
  pub counter : t.check_tick ≡ s.check_tick
  pub content :
      ((logged t ≡ logged s) × (length (s.disk s.log_file) < the_limit s))
      ⊎ (logged t ≡ drop (length (logged s) / 2) (logged s))

settled_below :
    (c : Calls) (s : Logger)
    → length (s.disk s.log_file) < the_limit s
    → Settles s (check_file_size c s).1
settled_below c s h =
    let same = check_file_size-below c s h in
    record {
      kept = record {
        file = ap (λ (t : Logger). t.log_file) same;
        level = ap (λ (t : Logger). t.log_level) same;
        is_open = ap (λ (t : Logger). t.is_open) same;
        limit = the_limit-some _ _ (ap (λ (t : Logger). t.max_size) same);
      };
      counter = ap (λ (t : Logger). t.check_tick) same;
      content = inl (ap logged same, h);
    }

settled_large :
    (c : Calls) (s : Logger)
    → s.is_open ≡ true
    → the_limit s ≤ length (s.disk s.log_file)
    → Succeeds c (length (logged s) - length (logged s) / 2)
    → Settles s (check_file_size c s).1
unfolding close_log
settled_large c s o large h =
    let same =
      ap (λ (r : _ × Logger). r.1)
        (check-shorten c s h.stats large ∙ shorten-reopened c (closed s) refl h.stats_again) in
    let (ret, disk, pending, opened, file, others) = check_file_size-halves c s large h in
    record {
      kept = record {
        file = file;
        level = ap (λ (t : Logger). t.log_level) same;
        is_open = opened ∙ sym o;
        limit = the_limit-some _ _ (ap (λ (t : Logger). t.max_size) same);
      };
      counter = ap (λ (t : Logger). t.check_tick) same;
      content = inr (
          ap₂ (λ (a b : Bytes). a ++ b) (ap (check_file_size c s).1.disk file ∙ disk) pending
          ∙ append-nil _);
    }

pub check_file_size-Settles :
    (c : Calls) (s : Logger)
    → s.is_open ≡ true
    → Succeeds c (length (logged s) - length (logged s) / 2)
    → Settles s (check_file_size c s).1
check_file_size-Settles c s o h =
    elim (Bool-cases (ltb (length (s.disk s.log_file)) (the_limit s))) [
      | inl below ↦ settled_below c s (ground (arith, below))
      | inr large ↦ settled_large c s o (ground (arith, large)) h
    ]
