-- ===== src/Printf.antt =====
-- The conversions %d, %u and %x of printf, as 002, 003 and 009 use them.
use auxiliary_tool.Common.{
  ℕ, zero, suc, ◌+◌, ◌-◌, ◌/◌, ◌%◌, ◌<◌, ◌≡◌, ◌≢◌, [], ◌∷◌, ◌++◌, Bytes, ltb, if◌then◌else◌, arith,
  Lacks, All-append,
}

-- A digit is printed in lower case.
unfoldable pub digit : ℕ → ℕ
digit d = if ltb d 10 then d + b'0' else d - 10 + b'a'

-- The lowest `width` digits.
unfoldable pub fixed : ℕ → ℕ → ℕ → Bytes
fixed base zero n = []
fixed base (suc width) n = fixed base width (n / base) ++ (digit (n % base) ∷ [])

-- How many digits a number has, if there are no more than the fuel.
unfoldable pub width_of : ℕ → ℕ → ℕ → ℕ
width_of zero base n = 1
width_of (suc fuel) base n =
    let rest = width_of fuel base (n / base) in if ltb n base then 1 else suc rest

-- A number below 2^64, with at least `width` digits.
unfoldable pub padded : ℕ → ℕ → ℕ → Bytes
padded base width n =
    let needed = width_of 64 base n in fixed base (if ltb width needed then needed else width) n

pub digit-not_blank : (d : ℕ) → digit d ≢ b' '
unfolding digit
digit-not_blank d e = ground arith

pub fixed-Lacks_blank : (base width n : ℕ) → Lacks b' ' (fixed base width n)
unfolding fixed
fixed-Lacks_blank base zero n = tt
fixed-Lacks_blank base (suc width) n =
    All-append (λ c. c ≢ b' ') (fixed base width (n / base)) (digit (n % base) ∷ [])
      (fixed-Lacks_blank base width (n / base)) (digit-not_blank (n % base), tt)

pub padded-Lacks_blank : (base width n : ℕ) → Lacks b' ' (padded base width n)
unfolding padded
padded-Lacks_blank base width n = fixed-Lacks_blank base _ n

-- The value of a hexadecimal digit.
unfoldable pub digit_value : ℕ → ℕ
digit_value c = if ltb c b'a' then c - b'0' else c - b'a' + 10

pub digit_value-digit : (d : ℕ) → d < 16 → digit_value (digit d) ≡ d
unfolding digit_value digit
digit_value-digit d h = ground arith
