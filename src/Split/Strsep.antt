-- ===== src/Split/Strsep.antt =====
-- What split_with_empty prints.
use auxiliary_tool.Common.{
  ℕ, zero, suc, ◌+◌, ◌<◌, ◌≤◌, ◌≡◌, refl, sym, ap, ◌∙◌, true, Option, none, some, List, [], ◌∷◌,
  ◌++◌, append-nil, Bytes, arith, Passes, Lacks, length, length-append,
}
use auxiliary_tool.ConfigFile.{span, c_string}
use auxiliary_tool.ConfigFile.Scanner.{Stops, span_sound, c_string-append}
use auxiliary_tool.Split.{is_delim, is_kept, behind, strsep, fields, split_with_empty}
use auxiliary_tool.Split.Strtok.{delimits}

-- A token of kept bytes, which may be empty, and the text behind the delimiter after it, if any.
abbrev pub Parts : Bytes → List (Bytes × Option Bytes) → Option Bytes → Type 0
Parts delim [] s = s ≡ none
Parts delim ((t, none) ∷ xs) s = Passes (is_kept delim) t × (s ≡ some t) × Parts delim xs none
Parts delim ((t, some rest) ∷ xs) s =
    Passes (is_kept delim) t
    × ((d : ℕ) × (is_delim delim d ≡ true) × (s ≡ some (t ++ (d ∷ rest))))
    × Parts delim xs (some rest)

strsep-Parts :
    (delim t tail s : Bytes) (xs : List (Bytes × Option Bytes))
    → t ++ tail ≡ s
    → Passes (is_kept delim) t
    → Stops (is_kept delim) tail
    → Parts delim xs (behind tail)
    → Parts delim ((t, behind tail) ∷ xs) (some s)
unfolding behind
strsep-Parts delim t [] s xs e pass stop h = (pass, ap some (sym e ∙ append-nil t), h)
strsep-Parts delim t (d ∷ rest) s xs e pass stop h =
    (pass, (d, delimits delim d stop, ap some (sym e)), h)

-- The rounds that a pointer is good for.
rounds : Option Bytes → ℕ
rounds none = 0
rounds (some s) = length s + 1

behind-rounds : (tail : Bytes) → rounds (behind tail) ≤ length tail
unfolding rounds behind
behind-rounds [] = omega arith
behind-rounds (d ∷ rest) = omega arith

fields-Parts :
    (fuel : ℕ) (delim : Bytes) (s : Option Bytes)
    → rounds s ≤ fuel
    → (printed : List (Bytes × Option Bytes)) × (fields fuel delim s ≡ some printed)
      × Parts delim printed s
unfolding fields rounds strsep
fields-Parts fuel delim none h = ([], refl, refl)
fields-Parts zero delim (some s) h = absurd (omega arith)
fields-Parts (suc fuel) delim (some s) h =
    let (whole, pass, stop) = span_sound (is_kept delim) s in
    let (token, tail) = span (is_kept delim) s in
    let sum = length-append token tail in
    let (printed, done, parts) =
      fields-Parts fuel delim (behind tail)
        (ground (arith, behind-rounds tail, ap length whole, sum)) in
    (
      (token, behind tail) ∷ printed,
      rw (done, fields),
      strsep-Parts delim token tail s printed whole pass stop parts,
    )

-- With a text that holds no zero byte and memory for the copy, split_with_empty prints the tokens
-- of the text and of what lies behind the copy up to the first zero byte there, the empty ones
-- too, each with the text behind its delimiter, and ends with no return statement, if the fuel
-- exceeds the length of both.
pub split_with_empty-Parts :
    (fuel : ℕ) (beyond str delim : Bytes)
    → Lacks 0 str
    → length (str ++ c_string beyond) < fuel
    → (printed : List (Bytes × Option Bytes)) × (split_with_empty fuel true beyond str delim
        ≡ some (none, printed))
      × Parts delim printed (some (str ++ c_string beyond))
unfolding split_with_empty rounds
split_with_empty-Parts fuel beyond str delim lacks h =
    let (printed, done, parts) =
      fields-Parts fuel delim (some (str ++ c_string beyond)) (omega arith) in
    (
      printed,
      rw (c_string-append str beyond lacks, split_with_empty) (rw (done, split_with_empty)),
      parts,
    )
