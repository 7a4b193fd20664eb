-- ===== src/Curl/Dump.antt =====
-- curl_t::dump and curl_t::debug_info of 003/curl_builder.cpp: a hex dump on stderr.
pub mod Read
use auxiliary_tool.Common.{
  ℕ, zero, suc, ◌+◌, ◌/◌, ◌%◌, Bool, true, false, not, ◌||◌, Option, none, some, List, [], ◌∷◌,
  ◌++◌, Bytes, codes, ltb, if◌then◌else◌, length, drop, pos, ℤ,
}
use auxiliary_tool.ConfigFile.{c_string}
use auxiliary_tool.Printf.{digit, padded}

abbrev pub width : ℕ
width = 16

-- The hex columns: two digits and a blank for a byte, three blanks behind the end.
unfoldable pub hex_cells : ℕ → Bytes → Bytes
hex_cells zero s = []
hex_cells (suc n) [] = codes "   " ++ hex_cells n []
hex_cells (suc n) (c ∷ s) = digit (c / 16) ∷ digit (c % 16) ∷ b' ' ∷ hex_cells n s

-- The bytes themselves, with a dot for what is below 0x20 or from 0x80 on.
unfoldable pub shown : ℕ → Bytes → Bytes
shown zero s = []
shown (suc n) [] = []
shown (suc n) (c ∷ s) = (if ltb c 0x20 || not (ltb c 0x80) then b'.' else c) ∷ shown n s

-- One round of the outer loop.
unfoldable pub row : ℕ → Bytes → Bytes
row i s = padded 16 4 i ++ (codes ": " ++ (hex_cells width s ++ (shown width s ++ codes "\n")))

-- The outer loop. The fuel bounds its rounds.
unfoldable pub dump_rows : ℕ → ℕ → Bytes → Option (List Bytes)
dump_rows zero i s = none
dump_rows (suc fuel) i [] = some []
dump_rows (suc fuel) i (c ∷ s) = elim (dump_rows fuel (i + width) (drop width (c ∷ s))) [
  | none ↦ none
  | some rows ↦ some (row i (c ∷ s) ∷ rows)
]

-- The line before the rows.
unfoldable pub title : Bytes → ℕ → Bytes
title text size =
    text
    ++ (codes ", "
        ++ (padded 10 10 size ++ (codes " bytes (0x" ++ (padded 16 8 size ++ codes ")\n"))))

unfoldable pub dump : ℕ → Bytes → Bytes → Option (List Bytes)
dump fuel text s = elim (dump_rows fuel 0 s) [
  | none ↦ none
  | some rows ↦ some (title text (length s) ∷ rows)
]

-- curl_infotype. `other` is any type that the switch does not name.
pub data InfoType : Type 0 where
  info_text info_header_in info_header_out info_data_in info_data_out info_other : InfoType

-- The case of CURLINFO_TEXT has no break and goes on as that of CURLINFO_HEADER_OUT. Its data is
-- printed as a C string, which goes on in what lies `beyond` it.
unfoldable pub debug_info : ℕ → InfoType → Bytes → Bytes → Option (List Bytes)
debug_info fuel info_header_out s beyond = dump fuel (codes "=> Send header") s
debug_info fuel info_data_out s beyond = dump fuel (codes "=> Send data") s
debug_info fuel info_header_in s beyond = dump fuel (codes "<= Recv header") s
debug_info fuel info_data_in s beyond = dump fuel (codes "<= Recv data") s
debug_info fuel info_other s beyond = some []
debug_info fuel info_text s beyond = elim (dump fuel (codes "=> Send header") s) [
  | none ↦ none
  | some rows ↦ some ((codes "== Info: " ++ c_string (s ++ beyond)) ∷ rows)
]
