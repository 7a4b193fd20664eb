-- ===== src/ConfigFile/Reader.antt =====
-- The loop of read_cfg_file: fgets, the end of the loop, and files of short lines.
use auxiliary_tool.Common.{
  ℕ, zero, suc, ◌+◌, ◌-◌, ◌≤◌, ◌<◌, ◌≡◌, ◌≢◌, refl, ap, ◌∙◌, none, some, List, [], ◌∷◌, ◌++◌,
  append-nil, Bytes, pos, minus_one, arith, All, Lacks, length,
}
use auxiliary_tool.ConfigFile.{
  max_line_len, newline, fgets, read_line, scan_entry, print_entry, read_loop, read_cfg_file,
}

-- fgets loses nothing, stays within its room, and takes a byte if there is one and there is room.
pub fgets_sound :
    (n : ℕ) (s : Bytes) → ((fgets n s).0 ++ (fgets n s).1 ≡ s) × (length (fgets n s).0 ≤ n)
unfolding fgets
fgets_sound zero s = (refl, omega arith)
fgets_sound (suc n) [] = (refl, omega arith)
fgets_sound (suc n) (c ∷ s) = ground (arith, fgets_sound n s)

fgets_rest : (n : ℕ) (s : Bytes) → length (fgets n s).1 ≤ length s
unfolding fgets
fgets_rest zero s = omega arith
fgets_rest (suc n) [] = omega arith
fgets_rest (suc n) (c ∷ s) = ground (arith, fgets_rest n s)

fgets_progress : (n : ℕ) (c : ℕ) (s : Bytes) → length (fgets (suc n) (c ∷ s)).1 ≤ length s
unfolding fgets
fgets_progress n c s = ground (arith, fgets_rest n s)

-- A line that fits is read whole, with its newline.
fgets_line :
    (n : ℕ) (l rest : Bytes)
    → Lacks newline l
    → length l < n
    → fgets n (l ++ newline ∷ rest) ≡ (l ++ newline ∷ [], rest)
unfolding fgets
fgets_line zero l rest h lt = absurd (omega arith)
fgets_line (suc n) [] rest h lt = refl
fgets_line (suc n) (c ∷ l) rest (hc, h) lt = ground (arith, fgets_line n l rest h (omega arith))

fgets_last : (n : ℕ) (l : Bytes) → Lacks newline l → length l ≤ n → fgets n l ≡ (l, [])
unfolding fgets
fgets_last zero [] h le = refl
fgets_last zero (c ∷ l) h le = absurd (omega arith)
fgets_last (suc n) [] h le = refl
fgets_last (suc n) (c ∷ l) (hc, h) le = ground (arith, fgets_last n l h (omega arith))

-- What one call of fgets makes the loop print.
unfoldable pub print_line : Bytes → Bytes
print_line line = elim (scan_entry line) [ none ↦ [] | some e ↦ print_entry e ]

loop_step :
    (fuel c : ℕ) (s out : Bytes)
    → read_loop fuel (read_line (c ∷ s)).1 ≡ some out
    → read_loop (suc fuel) (c ∷ s) ≡ some (print_line (read_line (c ∷ s)).0 ++ out)
unfolding read_loop print_line
loop_step fuel c s out h = rw (h, read_loop) (ground arith)

append_cons-ne-nil : (c : ℕ) (s t : Bytes) → s ++ c ∷ t ≢ []
append_cons-ne-nil c [] t = λ e. cc
append_cons-ne-nil c (x ∷ s) t = λ e. cc

loop_round :
    (fuel : ℕ) (s line rest out : Bytes)
    → s ≢ []
    → read_line s ≡ (line, rest)
    → read_loop fuel rest ≡ some out
    → read_loop (suc fuel) s ≡ some (print_line line ++ out)
loop_round fuel [] line rest out ne e h = absurd (ne refl)
loop_round fuel (c ∷ s) line rest out ne e h =
    loop_step fuel c s out (rw e h) ∙ ap (λ (q : Bytes × Bytes). some (print_line q.0 ++ out)) e

read_loop_end : (fuel : ℕ) → 0 < fuel → read_loop fuel [] ≡ some []
unfolding read_loop
read_loop_end zero h = absurd (omega arith)
read_loop_end (suc fuel) h = refl

read_loop_total :
    (fuel : ℕ) (s : Bytes) → length s < fuel → (out : Bytes) × (read_loop fuel s ≡ some out)
unfolding read_line
read_loop_total zero s h = absurd (omega arith)
read_loop_total (suc fuel) [] h = ([], unfold read_loop in refl)
read_loop_total (suc fuel) (c ∷ s) h =
    let (out, e) = read_loop_total fuel _ (omega (arith, fgets_progress 1022 c s)) in
    (_, loop_step fuel c s out e)

-- A file of lines that end in a newline, and of a last line that need not.
abbrev pub file_of : List Bytes → Bytes → Bytes
file_of [] last = last
file_of (l ∷ ls) last = l ++ newline ∷ file_of ls last

abbrev pub output_of : List Bytes → Bytes → Bytes
output_of [] [] = []
output_of [] (c ∷ last) = print_line (c ∷ last)
output_of (l ∷ ls) last = print_line (l ++ newline ∷ []) ++ output_of ls last

-- A line that fits in the buffer, with its newline.
abbrev pub Short : Bytes → Type 0
Short l = Lacks newline l × (length l + 1 < max_line_len)

read_loop_lines :
    (ls : List Bytes) (last : Bytes) (fuel : ℕ)
    → length ls + 1 < fuel
    → All Short ls
    → Short last
    → read_loop fuel (file_of ls last) ≡ some (output_of ls last)
unfolding read_line
read_loop_lines ls last zero h v w = absurd (omega arith)
read_loop_lines [] [] (suc fuel) h v w = unfold read_loop in refl
read_loop_lines [] (c ∷ last) (suc fuel) h v (w, fits) =
    loop_round fuel (c ∷ last) (c ∷ last) [] [] (cc)
      (fgets_last (max_line_len - 1) (c ∷ last) w (omega arith)) (read_loop_end fuel (omega arith))
    ∙ ap some (append-nil (print_line (c ∷ last)))
read_loop_lines (l ∷ ls) last (suc fuel) h ((hl, fits), v) w =
    loop_round fuel (l ++ newline ∷ file_of ls last) _ _ _ (append_cons-ne-nil newline l _)
      (fgets_line (max_line_len - 1) l (file_of ls last) hl (omega arith))
      (read_loop_lines ls last fuel (omega arith) v w)

-- A call returns 0 and ends, for every content of the file: a round takes a byte at least, so as
-- many rounds as there are bytes, and one more, are enough. A file that cannot be opened gives -1
-- and prints nothing.
pub read_cfg_file_total :
    (fuel : ℕ) (content : Bytes)
    → length content < fuel
    → ((out : Bytes) × (read_cfg_file fuel (some content) ≡ some (pos 0, out)))
      × (read_cfg_file fuel none ≡ some (minus_one, []))
unfolding read_cfg_file
read_cfg_file_total fuel content h =
    let (out, e) = read_loop_total fuel content h in ((out, rw (e, read_cfg_file)), refl)

-- A file of lines that fit in the buffer prints, for each line in order, what sscanf finds in it.
pub read_cfg_file_lines :
    (ls : List Bytes) (last : Bytes) (fuel : ℕ)
    → length ls + 1 < fuel
    → All Short ls
    → Short last
    → read_cfg_file fuel (some (file_of ls last)) ≡ some (pos 0, output_of ls last)
unfolding read_cfg_file
read_cfg_file_lines ls last fuel h v w = rw (read_loop_lines ls last fuel h v w, read_cfg_file)
