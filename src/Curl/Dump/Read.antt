-- ===== src/Curl/Dump/Read.antt =====
-- A reader of the hex columns, which gets back the bytes that were dumped.
use auxiliary_tool.Common.{
  ℕ, zero, suc, ◌+◌, ◌*◌, ◌/◌, ◌%◌, ◌<◌, ◌≡◌, ◌≢◌, refl, sym, ap, ap₂, ◌∙◌, some, List, [], ◌∷◌,
  ◌++◌, append_assoc, Bytes, codes, ◌==◌, if◌then◌else◌, arith, length, length-drop, take, drop,
  take-append-drop, Lacks, All, All-append,
}
use auxiliary_tool.Printf.{
  padded, digit_value, padded-Lacks_blank, digit_value-digit, digit-not_blank,
}
use auxiliary_tool.Curl.Dump.{width, hex_cells, shown, row, dump_rows, title, dump}

-- What stands behind the first blank.
unfoldable pub after_blank : Bytes → Bytes
after_blank [] = []
after_blank (c ∷ s) = let rest = after_blank s in if c == b' ' then s else rest

-- At most `n` columns, up to the first that is blank.
unfoldable pub read_cells : ℕ → Bytes → Bytes
read_cells zero s = []
read_cells (suc n) [] = []
read_cells (suc n) (a ∷ []) = []
read_cells (suc n) (a ∷ b ∷ []) = []
read_cells (suc n) (a ∷ b ∷ c ∷ s) =
    let rest = read_cells n s in
    if a == b' ' then [] else (digit_value a * 16 + digit_value b) ∷ rest

unfoldable pub read_row : Bytes → Bytes
read_row line = read_cells width (after_blank line)

unfoldable pub read_rows : List Bytes → Bytes
read_rows [] = []
read_rows (line ∷ lines) = read_row line ++ read_rows lines

-- Every member is a byte.
abbrev pub AreBytes : Bytes → Type 0
AreBytes = All (λ c. c < 256)

after_blank-append : (s t : Bytes) → Lacks b' ' s → after_blank (s ++ (b' ' ∷ t)) ≡ t
unfolding after_blank
after_blank-append [] t h = refl
after_blank-append (c ∷ s) t (hc, h) = ground (arith, after_blank-append s t h)

read_cells-hex_cells :
    (n : ℕ) (s rest : Bytes) → AreBytes s → read_cells n (hex_cells n s ++ rest) ≡ take n s
unfolding read_cells hex_cells
read_cells-hex_cells zero s rest h = refl
read_cells-hex_cells (suc n) [] rest h = refl
read_cells-hex_cells (suc n) (c ∷ s) rest (hc, h) =
    let high = digit_value-digit (c / 16) (omega arith) in
    let low = digit_value-digit (c % 16) (omega arith) in
    rw (high, low, read_cells-hex_cells n s rest h) (ground (arith, digit-not_blank (c / 16)))

read_row-row : (i : ℕ) (s : Bytes) → AreBytes s → read_row (row i s) ≡ take width s
unfolding read_row row
read_row-row i s h =
    let offset = padded 16 4 i in
    let cells = hex_cells width s ++ (shown width s ++ codes "\n") in
    let split : row i s ≡ (offset ++ (b':' ∷ [])) ++ (b' ' ∷ cells) =
      sym (append_assoc offset (b':' ∷ []) (b' ' ∷ cells)) in
    let lacks =
      All-append (λ c. c ≢ b' ') offset (b':' ∷ []) (padded-Lacks_blank 16 4 i)
        ((λ e. ground arith), tt) in
    ap (λ line. read_cells width (after_blank line)) split
    ∙ ap (read_cells width) (after_blank-append (offset ++ (b':' ∷ [])) cells lacks)
    ∙ read_cells-hex_cells width s (shown width s ++ codes "\n") h

AreBytes-drop : (n : ℕ) (s : Bytes) → AreBytes s → AreBytes (drop n s)
AreBytes-drop zero s h = h
AreBytes-drop (suc n) [] h = tt
AreBytes-drop (suc n) (c ∷ s) (hc, h) = AreBytes-drop n s h

read_rows-dump_rows :
    (fuel i : ℕ) (s : Bytes)
    → AreBytes s
    → length s < fuel
    → (rows : List Bytes) × (dump_rows fuel i s ≡ some rows) × (read_rows rows ≡ s)
unfolding dump_rows read_rows
read_rows-dump_rows zero i s h f = absurd (omega arith)
read_rows-dump_rows (suc fuel) i [] h f = ([], refl, refl)
read_rows-dump_rows (suc fuel) i (c ∷ s) h f =
    let (rows, done, back) =
      read_rows-dump_rows fuel (i + width) (drop width (c ∷ s)) (AreBytes-drop width (c ∷ s) h)
        (omega (arith, length-drop {0} width (c ∷ s))) in
    (
      row i (c ∷ s) ∷ rows,
      rw (done, dump_rows),
      ap₂ (λ a b. a ++ b) (read_row-row i (c ∷ s) h) back ∙ take-append-drop width (c ∷ s),
    )

-- A dump with more fuel than there are bytes ends: it is a title and rows, and from the hex columns
-- of the rows a reader gets back the bytes that were dumped, all of them and in order.
pub read_rows-dump :
    (fuel : ℕ) (text s : Bytes)
    → AreBytes s
    → length s < fuel
    → (rows : List Bytes) × (dump fuel text s ≡ some (title text (length s) ∷ rows))
      × (read_rows rows ≡ s)
unfolding dump
read_rows-dump fuel text s h f =
    let (rows, done, back) = read_rows-dump_rows fuel 0 s h f in (rows, rw (done, dump), back)
