-- ===== src/ConfigFile/Tests.antt =====
-- read_cfg_file at concrete files.
use auxiliary_tool.Common.{
  ◌+◌, ◌≤◌, ◌≡◌, ◌≢◌, refl, none, some, [], ◌∷◌, ◌++◌, Bytes, codes, pos, minus_one, Passes, arith,
  length,
}
use auxiliary_tool.ConfigFile.{
  is_word, is_gap, fgets, c_string, scan_set, scan_fields, both_stored, read_line, scan_entry,
  print_entry, read_cfg_file,
}
use auxiliary_tool.ConfigFile.Scanner.{
  Stops, scan_entry_complete, scan_entry_sound, scan_entry_skips,
}
use auxiliary_tool.ConfigFile.Reader.{
  print_line, file_of, output_of, read_cfg_file_total, read_cfg_file_lines,
}
use auxiliary_tool.ConfigFile.Bounds.{Fits, read_cfg_file_bounds}

-- The lines of 001/config.
name_line : scan_entry (codes "name =\t\t 123#file") ≡ some (codes "name", codes "123")
unfolding scan_entry scan_fields both_stored scan_set c_string
name_line = refl

wrong_lines :
    (scan_entry (codes "type=") ≡ none)
    × (scan_entry (codes "=12333") ≡ none)
    × (scan_entry (codes "info") ≡ none)
    × (scan_entry (codes "\tversion=1.2.3") ≡ none)
unfolding scan_entry scan_fields both_stored scan_set c_string
wrong_lines = (refl, refl, refl, refl)

scan_entry_complete_example :
    scan_entry (codes "v" ++ (codes " = " ++ (codes "1" ++ codes " #n")))
    ≡ some (codes "v", codes "1")
unfolding c_string
scan_entry_complete_example =
    scan_entry_complete (codes "v") (codes " = ") (codes "1") (codes " #n") (λ e. cc) (λ e. cc)
      (λ e. cc) ((refl, tt), omega arith) (refl, (refl, (refl, tt))) ((refl, tt), omega arith) refl

-- The README wants a "=" between name and value: blanks will do.
scan_entry_complete_blank :
    scan_entry (codes "v" ++ (codes " " ++ (codes "1" ++ []))) ≡ some (codes "v", codes "1")
unfolding c_string
scan_entry_complete_blank =
    scan_entry_complete (codes "v") (codes " ") (codes "1") [] (λ e. cc) (λ e. cc) (λ e. cc)
      ((refl, tt), omega arith) (refl, tt) ((refl, tt), omega arith) tt

v_is_1 : scan_entry (codes "v=1") ≡ some (codes "v", codes "1")
unfolding scan_entry scan_fields both_stored scan_set c_string
v_is_1 = refl

scan_entry_sound_example :
    (gap : Bytes) × (rest : Bytes) × (c_string (codes "v=1")
      ≡ codes "v" ++ (gap ++ (codes "1" ++ rest)))
    × (codes "v" ≢ [])
    × (gap ≢ [])
    × (codes "1" ≢ [])
    × Passes is_word (codes "v")
    × Passes is_gap gap
    × Passes is_word (codes "1")
    × Stops is_word rest
scan_entry_sound_example = scan_entry_sound (codes "v=1") (codes "v") (codes "1") v_is_1

scan_entry_skips_example : scan_entry (b'#' ∷ codes " v=1") ≡ none
scan_entry_skips_example = scan_entry_skips b'#' (codes " v=1") refl

read_cfg_file_total_example :
    ((out : Bytes) × (read_cfg_file 9 (some (codes "v=1")) ≡ some (pos 0, out)))
    × (read_cfg_file 9 none ≡ some (minus_one, []))
read_cfg_file_total_example = read_cfg_file_total 9 (codes "v=1") (omega arith)

read_cfg_file_lines_example :
    read_cfg_file 9 (some (file_of (codes "v=1" ∷ codes "# n" ∷ []) (codes "w 2")))
    ≡ some (pos 0, output_of (codes "v=1" ∷ codes "# n" ∷ []) (codes "w 2"))
read_cfg_file_lines_example =
    read_cfg_file_lines (codes "v=1" ∷ codes "# n" ∷ []) (codes "w 2") 9 (omega arith) (omega arith)
      (omega arith)

printed_lines : output_of (codes "v=1" ∷ codes "# n" ∷ []) [] ≡ codes "[v]\n[1]\n-----------\n"
unfolding print_line print_entry scan_entry scan_fields both_stored scan_set c_string
printed_lines = refl

-- A name with no value is stored, and the line is no entry.
partial_match :
    (scan_fields (read_line (codes "info\nv=1")).0 ≡ (some (codes "info"), none))
    × (scan_entry (read_line (codes "info\nv=1")).0 ≡ none)
unfolding read_line fgets scan_entry scan_fields both_stored scan_set c_string
partial_match = (refl, refl)

read_cfg_file_bounds_example :
    (length (read_line (codes "info\nv=1")).0 + 1 ≤ 1024)
    × Fits 1024 (scan_fields (read_line (codes "info\nv=1")).0).0
    × Fits 1024 (scan_fields (read_line (codes "info\nv=1")).0).1
read_cfg_file_bounds_example = read_cfg_file_bounds (codes "info\nv=1")
