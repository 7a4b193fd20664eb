-- ===== src/ConfigFile.antt =====
-- 001/read_cfg.c: read_cfg_file, which prints the name and the value of each line of a file that has
-- both. fgets and sscanf are written out as far as the function uses them.
pub mod Reader
pub mod Scanner
pub mod Bounds
mod Tests
use auxiliary_tool.Common.{
  ℕ, zero, suc, ◌-◌, Bool, true, false, not, ◌||◌, Option, none, some, List, [], ◌∷◌, ◌++◌, Bytes,
  codes, ℤ, pos, minus_one, ◌==◌, if◌then◌else◌,
}

abbrev pub max_line_len : ℕ
max_line_len = 1024

abbrev pub newline : ℕ
newline = b'\n'

-- fgets with room for `n` bytes before the terminator: what it stores, and what is left unread.
unfoldable pub fgets : ℕ → Bytes → Bytes × Bytes
fgets zero s = ([], s)
fgets (suc n) [] = ([], [])
fgets (suc n) (c ∷ s) =
    let (line, rest) = fgets n s in if c == newline then (c ∷ [], s) else (c ∷ line, rest)

-- The bytes that %[^ #=\t\n] takes, and those that %*[= \t] takes.
abbrev pub is_word : ℕ → Bool
is_word c = not (c == b' ' || c == b'#' || c == b'=' || c == b'\t' || c == newline)

abbrev pub is_gap : ℕ → Bool
is_gap c = c == b'=' || c == b' ' || c == b'\t'

-- The longest prefix of bytes that pass, and the rest.
unfoldable pub span : (ℕ → Bool) → Bytes → Bytes × Bytes
span p [] = ([], [])
span p (c ∷ s) = let (run, rest) = span p s in if p c then (c ∷ run, rest) else ([], c ∷ s)

-- A line is a C string: it ends at its first zero byte.
unfoldable pub c_string : Bytes → Bytes
c_string [] = []
c_string (c ∷ s) = let rest = c_string s in if c == 0 then [] else c ∷ rest

-- A %[…] conversion: it fails where no byte passes.
matched : Bytes × Bytes → Option (Bytes × Bytes)
matched ([], rest) = none
matched (c ∷ run, rest) = some (c ∷ run, rest)

unfoldable pub scan_set : (ℕ → Bool) → Bytes → Option (Bytes × Bytes)
unfolding span matched
scan_set p s = matched (span p s)

-- sscanf(line, "%[^ #=\t\n]%*[= \t]%[^ #=\t\n]", name, value): what it stores in `name` and in
-- `value`, `none` where it stores nothing. The terminators come on top.
unfoldable pub scan_fields : Bytes → Option Bytes × Option Bytes
scan_fields line = elim (scan_set is_word (c_string line)) [
  | none ↦ (none, none)
  | some (name, rest) ↦ elim (scan_set is_gap rest) [
    | none ↦ (some name, none)
    | some (gap, rest') ↦ elim (scan_set is_word rest') [
      | none ↦ (some name, none)
      | some (value, _) ↦ (some name, some value)
    ]
  ]
]

-- It returns 2 where it has stored both.
unfoldable pub both_stored : Option Bytes × Option Bytes → Option (Bytes × Bytes)
both_stored (some name, some value) = some (name, value)
both_stored (some name, none) = none
both_stored (none, value) = none

unfoldable pub scan_entry : Bytes → Option (Bytes × Bytes)
unfolding scan_fields both_stored
scan_entry line = both_stored (scan_fields line)

-- fgets(line, sizeof (line), cfg_fd): one byte of the array is for the terminator.
unfoldable pub read_line : Bytes → Bytes × Bytes
read_line s = fgets (max_line_len - 1) s

-- The three lines that an entry prints.
unfoldable pub print_entry : Bytes × Bytes → Bytes
print_entry (name, value) =
    codes "[" ++ name ++ codes "]\n" ++ codes "[" ++ value ++ codes "]\n" ++ codes "-----------\n"

-- The `while` loop. A call of fgets at the end of the file returns NULL. The fuel bounds the calls,
-- and `none` means that it ran out.
unfoldable pub read_loop : ℕ → Bytes → Option Bytes
read_loop zero s = none
read_loop (suc fuel) [] = some []
read_loop (suc fuel) (c ∷ s) =
    let (line, rest) = read_line (c ∷ s) in
    elim (read_loop fuel rest) [
      | none ↦ none
      | some out ↦ elim (scan_entry line) [ none ↦ some out | some e ↦ some (print_entry e ++ out) ]
    ]

-- The file is its content, or `none` if fopen fails. The result is what is returned and printed.
unfoldable pub read_cfg_file : ℕ → Option Bytes → Option (ℤ × Bytes)
read_cfg_file fuel none = some (minus_one, [])
read_cfg_file fuel (some content) = elim (read_loop fuel content) [
  | none ↦ none
  | some out ↦ some (pos 0, out)
]

-- main of 001/main.c, on the content of "config", or `none` where there is no such file.
unfoldable pub main : ℕ → Option Bytes → Option (ℤ × Bytes)
main fuel content = elim (read_cfg_file fuel content) [
  | none ↦ none
  | some (_, printed) ↦ some (pos 0, printed)
]
