-- ===== src/ConfigFile/Bounds.antt =====
-- The arrays of read_cfg_file.
use auxiliary_tool.Common.{
  ℕ, ◌+◌, ◌-◌, ◌≤◌, ◌≡◌, Bool, Option, none, some, [], ◌∷◌, Bytes, arith, length, Option-cases, inl,
  inr,
}
use auxiliary_tool.ConfigFile.{
  max_line_len, c_string, span, matched, scan_set, is_word, is_gap, scan_fields, read_line,
}
use auxiliary_tool.ConfigFile.Reader.{fgets_sound}

c_string-le : (s : Bytes) → length (c_string s) ≤ length s
unfolding c_string
c_string-le [] = omega arith
c_string-le (c ∷ s) = ground (arith, c_string-le s)

span-le : (p : ℕ → Bool) (s : Bytes) → length (span p s).0 + length (span p s).1 ≤ length s
unfolding span
span-le p [] = omega arith
span-le p (c ∷ s) = ground (arith, span-le p s)

matched-le :
    (q : Bytes × Bytes) (run rest : Bytes)
    → matched q ≡ some (run, rest)
    → length run + length rest ≤ length q.0 + length q.1
unfolding matched
matched-le ([], t) run rest h = absurd (ground arith)
matched-le (c ∷ r, t) run rest h = ground arith

-- A conversion takes what it stores, and leaves the rest, from the text that it is given.
scan_set-le :
    (p : ℕ → Bool) (s run rest : Bytes)
    → scan_set p s ≡ some (run, rest)
    → length run + length rest ≤ length s
unfolding scan_set
scan_set-le p s run rest h = omega (arith, span-le p s, matched-le (span p s) run rest h)

-- The stored text and its terminator are no more than `n` bytes.
unfoldable pub Fits : ℕ → Option Bytes → Type 0
Fits n none = Unit
Fits n (some text) = length text + 1 ≤ n

scan_fields-Fits :
    (line : Bytes) (n : ℕ)
    → length line + 1 ≤ n
    → Fits n (scan_fields line).0 × Fits n (scan_fields line).1
unfolding scan_fields Fits
scan_fields-Fits line n h = elim (Option-cases (scan_set is_word (c_string line))) [
  | inl e ↦ rw (e, scan_fields) (tt, tt)
  | inr ((name, rest), e) ↦
      let first = scan_set-le is_word (c_string line) name rest e in
      let cut = c_string-le line in
      elim (Option-cases (scan_set is_gap rest)) [
        | inl e' ↦ rw (e, scan_fields) (rw (e', scan_fields) (omega arith, tt))
        | inr ((gap, rest'), e') ↦
            let second = scan_set-le is_gap rest gap rest' e' in
            elim (Option-cases (scan_set is_word rest')) [
              | inl e'' ↦
                  rw (e, scan_fields)
                    (rw (e', scan_fields) (rw (e'', scan_fields) (omega arith, tt)))
              | inr ((value, left), e'') ↦
                  let third = scan_set-le is_word rest' value left e'' in
                  rw (e, scan_fields)
                    (rw (e', scan_fields) (rw (e'', scan_fields) (omega arith, omega arith)))
            ]
      ]
]

-- Wherever the loop stands in the file, and whatever follows there: what its call of fgets stores in
-- `line`, and what its call of sscanf stores in `name` and in `value`, a partial match included, fits
-- in the 1024 bytes of each array with its terminator.
pub read_cfg_file_bounds :
    (s : Bytes)
    → (length (read_line s).0 + 1 ≤ 1024)
      × Fits 1024 (scan_fields (read_line s).0).0
      × Fits 1024 (scan_fields (read_line s).0).1
unfolding read_line
read_cfg_file_bounds s =
    let room : length (read_line s).0 + 1 ≤ 1024 =
      omega (arith, (fgets_sound (max_line_len - 1) s).1) in
    let (name, value) = scan_fields-Fits (read_line s).0 1024 room in (room, name, value)
