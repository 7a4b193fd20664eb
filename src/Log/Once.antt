-- ===== src/Log/Once.antt =====
-- One message to an open log, in either copy: what is lost of the log, and how much is left.
use auxiliary_tool.Common.{
  ℕ, ◌+◌, ◌-◌, ◌*◌, ◌/◌, ◌≤◌, ◌<◌, ◌≡◌, inl, inr, ap, sym, subst, ◌∙◌, true, [], ◌++◌, Bytes, ltb,
  arith, length, length-append, length-drop, take, drop, take-append-drop, Bool-cases,
}
use auxiliary_tool.Log.{
  Logger, Level, rank, the_limit, check_file_size, write_log, header, tick, log_002, log_009,
}
use auxiliary_tool.Log.Macro.{Outcome}
use auxiliary_tool.Log.Rotate.{Succeeds, logged}
use auxiliary_tool.Log.Write.{
  logged-write_log, log_with_filtered, log_with-open, tick_idle, tick_due,
}
use auxiliary_tool.Log.Appends.{Keeps, Keeps-trans, write_log-Keeps}
use auxiliary_tool.Log.Settle.{Settles, check_file_size-Settles}

pub data Copy : Type 0 where
  copy_002 copy_009 : Copy

-- __log of either copy.
abbrev pub log_of : Copy → Outcome → Level → Bytes → Logger → Logger
log_of copy_002 o level message = log_002 o.calls o.flushed o.stamp level message
log_of copy_009 o level message = log_009 o.calls o.flushed o.stamp level message

abbrev pub line_of : Outcome → Level → Bytes → Bytes
line_of o level message = header o.stamp level ++ message

-- A line of at most `longest` bytes, behind which stdio holds back at most `buffer` bytes, and a
-- check that succeeds if it is made.
pub record Fits (longest buffer : ℕ) (o : Outcome) (line : Bytes) (s : Logger) : Type 0 where
  pub short : length line ≤ longest
  pub flushes : length (drop o.flushed (s.pending ++ line)) ≤ buffer
  pub succeeds : Succeeds o.calls (length (logged s ++ line) - length (logged s ++ line) / 2)

-- What the messages since the last check can add: 002 makes one after more than 1024.
abbrev pub slack : Copy → ℕ → ℕ → ℕ
slack copy_002 longest ticks = ticks * longest
slack copy_009 longest ticks = 0

-- One message that passes: what was lost.
pub record Wrote (line : Bytes) (s t : Logger) : Type 0 where
  pub kept : Keeps s t
  pub lost : Bytes
  pub whole : lost ++ logged t ≡ logged s ++ line

-- How much is left, and when the last check was.
pub record IsSmall (copy : Copy) (longest size : ℕ) (t : Logger) : Type 0 where
  pub counter : t.check_tick ≤ 1025
  pub small : length (logged t) ≤ size + slack copy longest t.check_tick

module _ (longest buffer : ℕ) (o : Outcome) (line : Bytes) (s : Logger) (opened : s.is_open ≡ true)
    (fits : Fits longest buffer o line s) where
  -- The state behind the write of the line.
  abbrev written : Logger
  written = write_log o.flushed line s

  written-logged : logged written ≡ logged s ++ line
  written-logged = logged-write_log o.flushed line s

  written-Keeps : Keeps s written
  written-Keeps = write_log-Keeps o.flushed line s

  written-pending : length written.pending ≤ buffer
  unfolding write_log
  written-pending = fits.flushes

  check-Settles : Settles written (check_file_size o.calls written).1
  check-Settles = check_file_size-Settles o.calls written (written-Keeps.is_open ∙ opened) (
      subst (λ all. Succeeds o.calls (length all - length all / 2)) (sym written-logged)
        fits.succeeds)

  -- A check loses nothing or the first half.
  check-whole :
      (lost : Bytes) × (lost ++ logged (check_file_size o.calls written).1 ≡ logged s ++ line)
  check-whole = elim check-Settles.content [
    | inl (same, below) ↦ ([], same ∙ written-logged)
    | inr half ↦ (
      take (length (logged written) / 2) (logged written),
      ap (λ r. take (length (logged written) / 2) (logged written) ++ r) half
          ∙ take-append-drop (length (logged written) / 2) (logged written)
          ∙ written-logged,
    )
  ]

  check-small :
      (more : ℕ)
      → length (logged s) + length line ≤ 2 * (the_limit s + buffer + more)
      → length (logged (check_file_size o.calls written).1) ≤ the_limit s + buffer + more
  check-small more room =
      let all : length (logged written) ≡ length (logged s) + length line =
        ap length written-logged ∙ length-append (logged s) line in
      elim check-Settles.content [
        | inl (same, below) ↦ omega (
          arith,
          ap length same,
          written-pending,
          below,
          written-Keeps.limit,
          length-append {0} (written.disk written.log_file) written.pending,
        )
        | inr half ↦ omega (
          arith,
          room,
          all,
          ap length half,
          length-drop (length (logged written) / 2) (logged written),
        )
      ]

  check-Wrote : Wrote line s (check_file_size o.calls written).1
  check-Wrote =
      let (lost, whole) = check-whole in
      record { kept = Keeps-trans written-Keeps check-Settles.kept; lost = lost; whole = whole }

  tick-Wrote : Wrote line s (tick o.calls written)
  unfolding the_limit
  tick-Wrote = elim (Bool-cases (ltb 1024 written.check_tick)) [
    | inl due ↦
        let checked = check-Wrote in
        subst (Wrote line s) (sym (tick_due o.calls written due)) (record {
          kept = record {
            file = checked.kept.file;
            level = checked.kept.level;
            is_open = checked.kept.is_open;
            limit = checked.kept.limit;
          };
          lost = checked.lost;
          whole = checked.whole;
        })
    | inr idle ↦
        let kept = written-Keeps in
        subst (Wrote line s) (sym (tick_idle o.calls written (ground (arith, idle)))) (record {
          kept = record {
            file = kept.file;
            level = kept.level;
            is_open = kept.is_open;
            limit = kept.limit;
          };
          lost = [];
          whole = written-logged;
        })
  ]

  module _ (room : 1024 * longest ≤ the_limit s + buffer) where
    check-IsSmall :
        IsSmall copy_009 longest (the_limit s + buffer) s
        → IsSmall copy_009 longest (the_limit s + buffer) (check_file_size o.calls written).1
    unfolding write_log
    check-IsSmall v = record {
      counter = omega (arith, check-Settles.counter, v.counter);
      small = omega (arith, v.small, check-small 0 (omega (arith, v.small, fits.short)));
    }

    tick-IsSmall :
        IsSmall copy_002 longest (the_limit s + buffer) s
        → IsSmall copy_002 longest (the_limit s + buffer) (tick o.calls written)
    unfolding write_log the_limit
    tick-IsSmall v = elim (Bool-cases (ltb 1024 written.check_tick)) [
      | inl due ↦
          let at_last : s.check_tick ≡ 1025 = ground (arith, due, v.counter) in
          let before = ap (λ (n : ℕ). n * longest) at_last in
          subst (IsSmall copy_002 longest (the_limit s + buffer))
            (sym (tick_due o.calls written due))
            (record {
              counter = omega arith;
              small =
                  omega (arith, check-small longest (omega (arith, v.small, before, fits.short)));
            })
      | inr idle ↦
          subst (IsSmall copy_002 longest (the_limit s + buffer))
            (sym (tick_idle o.calls written (ground (arith, idle))))
            (record {
              counter = ground (arith, idle);
              small = omega (
                arith,
                v.small,
                fits.short,
                ap length written-logged,
                length-append {0} (logged s) line,
              );
            })
    ]

-- The whole call, by the copy.
module _ (longest buffer : ℕ) (o : Outcome) (level : Level) (message : Bytes) (s : Logger) where
  pub log_of-Wrote :
      (copy : Copy)
      → s.is_open ≡ true
      → rank level ≤ rank s.log_level
      → Fits longest buffer o (line_of o level message) s
      → Wrote (line_of o level message) s (log_of copy o level message s)
  unfolding log_002 log_009
  log_of-Wrote copy_002 opened passes fits =
      subst (Wrote (line_of o level message) s)
        (sym (log_with-open (tick o.calls) o.flushed o.stamp level message s passes opened))
        (tick-Wrote longest buffer o (line_of o level message) s opened fits)
  log_of-Wrote copy_009 opened passes fits =
      subst (Wrote (line_of o level message) s)
        (sym (
          log_with-open (λ t. (check_file_size o.calls t).1) o.flushed o.stamp level message s
            passes opened))
        (check-Wrote longest buffer o (line_of o level message) s opened fits)

  pub log_of-filtered :
      (copy : Copy) → rank s.log_level < rank level → log_of copy o level message s ≡ s
  unfolding log_002 log_009
  log_of-filtered copy_002 filters =
      log_with_filtered (tick o.calls) o.flushed o.stamp level message s filters
  log_of-filtered copy_009 filters =
      log_with_filtered (λ t. (check_file_size o.calls t).1) o.flushed o.stamp level message s
        filters

  pub log_of-IsSmall :
      (copy : Copy)
      → s.is_open ≡ true
      → rank level ≤ rank s.log_level
      → Fits longest buffer o (line_of o level message) s
      → 1024 * longest ≤ the_limit s + buffer
      → IsSmall copy longest (the_limit s + buffer) s
      → IsSmall copy longest (the_limit s + buffer) (log_of copy o level message s)
  unfolding log_002 log_009
  log_of-IsSmall copy_002 opened passes fits room v =
      subst (IsSmall copy_002 longest (the_limit s + buffer))
        (sym (log_with-open (tick o.calls) o.flushed o.stamp level message s passes opened))
        (tick-IsSmall longest buffer o (line_of o level message) s opened fits room v)
  log_of-IsSmall copy_009 opened passes fits room v =
      subst (IsSmall copy_009 longest (the_limit s + buffer))
        (sym (
          log_with-open (λ t. (check_file_size o.calls t).1) o.flushed o.stamp level message s
            passes opened))
        (check-IsSmall longest buffer o (line_of o level message) s opened fits room v)
