-- ===== src/Log/Appends.antt =====
-- A message to an open log that stays below its limit, whether a check is due or not.
use auxiliary_tool.Common.{
  ℕ, ◌+◌, ◌≤◌, ◌<◌, ◌≡◌, refl, ap, ◌∙◌, sym, subst, true, inl, inr, ◌++◌, Bytes, ltb, arith, length,
  length-append, Bool-cases,
}
use auxiliary_tool.Log.{
  Logger, Calls, Level, rank, the_limit, check_file_size, write_log, header, tick, log_002,
}
use auxiliary_tool.Log.Rotate.{logged}
use auxiliary_tool.Log.Limit.{check_file_size-below, the_limit-some}
use auxiliary_tool.Log.Write.{logged-write_log, log_with-open}

-- What a call leaves as it was.
pub record Keeps (s t : Logger) : Type 0 where
  pub file : t.log_file ≡ s.log_file
  pub level : t.log_level ≡ s.log_level
  pub is_open : t.is_open ≡ s.is_open
  pub limit : the_limit t ≡ the_limit s

pub Keeps-trans : {s t u : Logger} → Keeps s t → Keeps t u → Keeps s u
Keeps-trans k l = record {
  file = l.file ∙ k.file;
  level = l.level ∙ k.level;
  is_open = l.is_open ∙ k.is_open;
  limit = l.limit ∙ k.limit;
}

checked-Keeps :
    (c : Calls) (s : Logger)
    → length (s.disk s.log_file) < the_limit s
    → Keeps s (check_file_size c s).1 × (logged (check_file_size c s).1 ≡ logged s)
checked-Keeps c s h =
    let same = check_file_size-below c s h in
    (
      record {
        file = ap (λ (t : Logger). t.log_file) same;
        level = ap (λ (t : Logger). t.log_level) same;
        is_open = ap (λ (t : Logger). t.is_open) same;
        limit = the_limit-some _ _ (ap (λ (t : Logger). t.max_size) same);
      },
      ap logged same,
    )

tick-Keeps :
    (c : Calls) (s : Logger)
    → length (s.disk s.log_file) < the_limit s
    → Keeps s (tick c s) × (logged (tick c s) ≡ logged s)
unfolding tick the_limit
tick-Keeps c s h = elim (Bool-cases (ltb 1024 s.check_tick)) [
  | inl due ↦
      let (k, e) = checked-Keeps c s h in
      rw due (record { file = k.file; level = k.level; is_open = k.is_open; limit = k.limit }, e)
  | inr idle ↦ rw idle (record { file = refl; level = refl; is_open = refl; limit = refl }, refl)
]

pub write_log-Keeps : (k : ℕ) (text : Bytes) (s : Logger) → Keeps s (write_log k text s)
unfolding write_log the_limit
write_log-Keeps k text s = record { file = refl; level = refl; is_open = refl; limit = refl }

pub logged-length : (s : Logger) → length (s.disk s.log_file) ≤ length (logged s)
logged-length s = omega (arith, length-append {0} (s.disk s.log_file) s.pending)

-- A message that passes, to an open log that stays below its limit with it, is appended to all that
-- was logged, with its header, also where a check is due; the log stays open, with its level and
-- its limit.
pub log_002-Keeps :
    (c : Calls) (k : ℕ) (stamp : Bytes) (level : Level) (message : Bytes) (s : Logger)
    → rank level ≤ rank s.log_level
    → s.is_open ≡ true
    → length (logged s) + length (header stamp level ++ message) < the_limit s
    → Keeps s (log_002 c k stamp level message s)
      × (logged (log_002 c k stamp level message s) ≡ logged s ++ (header stamp level ++ message))
unfolding log_002
log_002-Keeps c k stamp level message s passes o below =
    let text = header stamp level ++ message in
    let w = write_log k text s in
    let kept = write_log-Keeps k text s in
    let whole = logged-write_log k text s in
    let room : length (w.disk w.log_file) < the_limit w =
      omega
        (arith, logged-length w, ap length whole, length-append {0} (logged s) text, kept.limit) in
    let (then_kept, same) = tick-Keeps c w room in
    subst (λ t. Keeps s t × (logged t ≡ logged s ++ text))
      (sym (log_with-open (tick c) k stamp level message s passes o))
      (Keeps-trans kept then_kept, same ∙ whole)
