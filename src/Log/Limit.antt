-- ===== src/Log/Limit.antt =====
-- The limit of check_file_size, and what a file below it sees.
use auxiliary_tool.Common.{
  ℕ, ◌+◌, ◌-◌, ltb, if◌then◌else◌, ◌*◌, ◌%◌, ◌^◌, ◌<◌, ◌≡◌, leb, pos, refl, ap, ◌∙◌, ◌||◌, Bool,
  true, false, not, ℤ, Option, none, some, Bytes, lt→ltb, arith, length,
}
use auxiliary_tool.Log.{
  Logger, Calls, Level, close_log, log_init, put, rotate, size_limit, the_limit, shorten,
  check_file_size,
}

-- A limit of less than 2048 MB is that many bytes. From there to 4095 MB the product overflows an
-- int, and the limit is 2^64 - 2^32 above that, more than any size that an off_t can hold.
pub size_limit_lem :
    (max_mb : ℕ)
    → max_mb < 4096
    → size_limit max_mb
      ≡ (if ltb max_mb 2048 then max_mb * 2 ^ 20 else max_mb * 2 ^ 20 + 2 ^ 64 - 2 ^ 32)
unfolding size_limit
size_limit_lem max_mb h = ground arith

-- Only max_mb modulo 4096 counts: 4096 MB are 2^32 bytes.
size_limit-mod :
    (max_mb : ℕ)
    → size_limit max_mb ≡ (
        if ltb (max_mb % 4096) 2048
        then max_mb % 4096 * 2 ^ 20
        else max_mb % 4096 * 2 ^ 20 + 2 ^ 64 - 2 ^ 32)
unfolding size_limit
size_limit-mod max_mb = ground arith

below_limit :
    (m size : ℕ)
    → size < 2 ^ 63
    → ltb size (if ltb m 2048 then m * 2 ^ 20 else m * 2 ^ 20 + 2 ^ 64 - 2 ^ 32)
      ≡ (leb 2048 m || ltb size (m * 2 ^ 20))
below_limit m size h = ground arith

if_passed {ℓ} : {A : Type ℓ} (b : Bool) (x y : A) → b ≡ true → (if not b then x else y) ≡ y
if_passed true x y h = refl
if_passed false x y h = cc

first_limit : (s : Logger) → s.max_size ≡ none → the_limit s ≡ size_limit s.max_mb
unfolding the_limit
first_limit s first = ap (λ o. elim o [ none ↦ size_limit s.max_mb | some m ↦ m ]) first

-- A first check of a file whose size is an off_t, where the first stat succeeds: if max_mb modulo
-- 4096 is at least 2048, or the file is shorter than that many MB, it leaves the file alone and
-- returns 0. Otherwise it goes on to shorten the file, so that 4096 stands for no MB at all.
pub check_file_size-first :
    (c : Calls) (s : Logger)
    → s.max_size ≡ none
    → c.stat_ok ≡ true
    → length (s.disk s.log_file) < 2 ^ 63
    → check_file_size c s ≡ (
        let s' = record s { max_size = some (size_limit s.max_mb) } in
        if leb 2048 (s.max_mb % 4096) || ltb (length (s.disk s.log_file)) (s.max_mb % 4096 * 2 ^ 20)
        then (pos 0, s')
        else shorten c (close_log s'))
unfolding check_file_size
check_file_size-first c s first ok small =
    if_passed c.stat_ok _ (by_test (ltb size (the_limit s)) (the_limit s)) ok
    ∙ ap (λ (n : ℕ). by_test (ltb size n) n) (first_limit s first)
    ∙ ap (λ b. by_test b (size_limit s.max_mb))
        (ap (ltb size) (size_limit-mod s.max_mb) ∙ below_limit (s.max_mb % 4096) size small)
  where
    size : ℕ
    size = length (s.disk s.log_file)

    by_test : Bool → ℕ → ℤ × Logger
    by_test b n =
        let s' = record s { max_size = some n } in
        if b then (pos 0, s') else shorten c (close_log s')

-- Below the limit a check changes neither the file nor anything else but the static limit.
pub check_file_size-below :
    (c : Calls) (s : Logger)
    → length (s.disk s.log_file) < the_limit s
    → (check_file_size c s).1 ≡ record s { max_size = some (the_limit s) }
unfolding check_file_size
check_file_size-below c s h = rw (lt→ltb _ _ h) (ground arith)

log_init-max_size :
    (opened : Bool) (level : Level) (name : Option Bytes) (max_mb : ℕ) (s : Logger)
    → (log_init opened level name max_mb s).1.max_size ≡ s.max_size
unfolding log_init close_log
log_init-max_size opened level none max_mb s = refl
log_init-max_size opened level (some name) max_mb s = ground arith

shorten-max_size : (c : Calls) (s : Logger) → (shorten c s).1.max_size ≡ s.max_size
unfolding shorten
shorten-max_size c s = ground (
  arith,
  log_init-max_size c.fopen_ok s.log_level (some s.log_file) s.max_mb
      (record s { disk = put s.disk s.log_file (rotate c (s.disk s.log_file)).1 }),
)

check-max_size : (c : Calls) (s : Logger) → (check_file_size c s).1.max_size ≡ some (the_limit s)
unfolding check_file_size close_log
check-max_size c s =
    ground (arith, shorten-max_size c (close_log (record s { max_size = some (the_limit s) })))

pub the_limit-some : (s : Logger) (m : ℕ) → s.max_size ≡ some m → the_limit s ≡ m
unfolding the_limit
the_limit-some s m h = ground arith

-- After a first check the limit stays, whatever a later log_init asks for.
pub the_limit-log_init :
    (c : Calls) (s : Logger) (opened : Bool) (level : Level) (name : Option Bytes) (max_mb : ℕ)
    → the_limit (log_init opened level name max_mb (check_file_size c s).1).1 ≡ the_limit s
the_limit-log_init c s opened level name max_mb =
    the_limit-some _ _ (log_init-max_size opened level name max_mb _ ∙ check-max_size c s)
