-- ===== src/Log/Rotate.antt =====
-- check_file_size: what it leaves in the log file.
use auxiliary_tool.Common.{
  ℕ, zero, suc, ◌-◌, ◌/◌, ◌≤◌, ◌≡◌, refl, ap, Bool, true, false, some, List, [], ◌∷◌, ◌++◌, Bytes,
  bytes_eq, bytes_eq_refl, ℤ, pos, minus_one, le→ltb, if◌then◌else◌, arith, length, length-drop,
  take, drop, take_all,
}
use auxiliary_tool.Log.{
  Logger, Calls, put, close_log, log_init, rotate, the_limit, shorten, check_file_size,
}

-- Every call succeeds, and both transfers move all that they are asked to.
pub record Succeeds (c : Calls) (len : ℕ) : Type 0 where
  pub stats : c.stat_ok ≡ true
  pub stats_again : c.stat_again_ok ≡ true
  pub opens : c.open_ok ≡ true
  pub makes : c.mkstemp_ok ≡ true
  pub out : c.sent_out ≡ some len
  pub truncates : c.ftruncate_ok ≡ true
  pub back : c.sent_back ≡ some len
  pub reopens : c.fopen_ok ≡ true

-- All that has been logged to the open file, written out or pending.
abbrev pub logged : Logger → Bytes
logged s = s.disk s.log_file ++ s.pending

take-take : {A : Type 0} (n : ℕ) (xs : List A) → take n (take n xs) ≡ take n xs
take-take zero xs = refl
take-take (suc n) [] = refl
take-take (suc n) (x ∷ xs) = ap (λ t. x ∷ t) (take-take n xs)

rotate_all :
    (c : Calls) (content : Bytes)
    → Succeeds c (length content - length content / 2)
    → rotate c content ≡ (pos 0, drop (length content / 2) content)
unfolding rotate
rotate_all c content h =
    let len = length content - length content / 2 in
    let back = drop (length content / 2) content in
    let whole : take len back ≡ back =
      take_all len back (omega (arith, length-drop (length content / 2) content)) in
    rw (h.opens, h.makes, h.out, h.truncates, h.back)
      (rw (take-take len back) (rw whole (rw whole (rw whole))))

-- The state with which the file is handed to `shorten`: closed, with all that was logged on disk.
abbrev pub closed : Logger → Logger
closed s = close_log (record s { max_size = some (the_limit s) })

pub closed-disk : (s : Logger) → (closed s).disk s.log_file ≡ logged s
unfolding close_log
closed-disk s = rw (bytes_eq_refl s.log_file)

-- A log_init on the file that is already the log file, with the file closed.
log_init_again :
    (opened : Bool) (s : Logger)
    → s.is_open ≡ false
    → log_init opened s.log_level (some s.log_file) s.max_mb s
      ≡ ((if opened then pos 0 else minus_one), record s { is_open = opened; pending = [] })
unfolding log_init
log_init_again opened s h = ground arith

-- The result of `shorten` on a closed file: the content that `rotate` leaves, and the file open
-- again if that succeeds.
abbrev pub reopened : Calls → Logger → ℤ × Logger
reopened c s = (
  (if c.fopen_ok then (rotate c (s.disk s.log_file)).0 else minus_one),
  record s {
    disk = put s.disk s.log_file (rotate c (s.disk s.log_file)).1;
    is_open = c.fopen_ok;
    pending = [];
  },
)

pub shorten-reopened :
    (c : Calls) (s : Logger)
    → s.is_open ≡ false
    → c.stat_again_ok ≡ true
    → shorten c s ≡ reopened c s
unfolding shorten
shorten-reopened c s h ok =
    rw
      (log_init_again c.fopen_ok
        (record s { disk = put s.disk s.log_file (rotate c (s.disk s.log_file)).1 }) h)
      (ground arith)

pub check-shorten :
    (c : Calls) (s : Logger)
    → c.stat_ok ≡ true
    → the_limit s ≤ length (s.disk s.log_file)
    → check_file_size c s ≡ shorten c (closed s)
unfolding check_file_size
check-shorten c s ok large = rw (ok, le→ltb _ _ large)

module _ (c : Calls) (s : Logger) (large : the_limit s ≤ length (s.disk s.log_file)) where
  -- A check of a file that has reached the limit, when every call succeeds and moves all its
  -- bytes, returns 0 and leaves the second half of all that was logged, with nothing pending, the
  -- file open, and every other file as it was.
  pub check_file_size-halves :
      Succeeds c (length (logged s) - length (logged s) / 2)
      → let r = check_file_size c s in
        (r.0 ≡ pos 0)
        × (r.1.disk s.log_file ≡ drop (length (logged s) / 2) (logged s))
        × (r.1.pending ≡ [])
        × (r.1.is_open ≡ true)
        × (r.1.log_file ≡ s.log_file)
        × ((other : Bytes)
            → r.1.disk other ≡ (
                if bytes_eq s.log_file other
                then drop (length (logged s) / 2) (logged s)
                else s.disk other))
  unfolding close_log
  check_file_size-halves h =
      rw (check-shorten c s h.stats large, shorten-reopened c (closed s) refl h.stats_again)
        (rw (bytes_eq_refl s.log_file, rotate_all c (logged s) h)
          (ground arith, refl, refl, h.reopens, refl, λ other. ground arith))
