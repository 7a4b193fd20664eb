-- ===== src/Picture/Packets.antt =====
-- read_packet, write_raw_data of 006/pic_op.c: the bytes that FFmpeg is given, and a dump.
use auxiliary_tool.Common.{
  ℕ, zero, suc, ◌+◌, ◌≤◌, ◌<◌, min, ◌≡◌, ◌↔◌, refl, sym, ap, ◌∙◌, Bool, not, Option, none, some,
  List, [], ◌∷◌, ◌++◌, Bytes, ℤ, pos, minus_one, ltb, ◌==◌, if◌then◌else◌, arith, length,
  length-take, take, drop, take_all, Bool-cases, inl, inr,
}
use native.Mathlib.Numerals.{unary_clauses}
use auxiliary_tool.Resources.{Heap, file, and_release}

-- The callback: `bd` is what is left of the buffer, and `none` is AVERROR_EOF.
unfoldable pub read_packet : ℕ → Bytes → Option Bytes × Bytes
read_packet buf_size bd =
    let size = min buf_size (length bd) in
    if size == 0 then (none, bd) else (some (take size bd), drop size bd)

-- fwrite of `written` bytes, which is not more than there are.
unfoldable pub write_raw_data : Bool → ℕ → Bytes → Heap → ℤ × Bytes × Option Heap
write_raw_data opened written buffer h = if not opened then (minus_one, [], some h) else (
  if ltb written (length buffer) then minus_one else pos 0,
  take written buffer,
  and_release file (some (file ∷ h)),
)

-- What a call delivers, none at the end of the data.
unfoldable pub bytes_of : Option Bytes → Bytes
bytes_of none = []
bytes_of (some bytes) = bytes

-- What a sequence of calls delivers, and what is left.
unfoldable pub deliver : List ℕ → Bytes → Bytes × Bytes
deliver [] bd = ([], bd)
deliver (size ∷ sizes) bd =
    let (got, rest) = read_packet size bd in
    let (more, left) = deliver sizes rest in (bytes_of got ++ more, left)

unfoldable pub total : List ℕ → ℕ
total [] = 0
total (n ∷ ns) = n + total ns

take-min : (n : ℕ) (s : Bytes) → take (min n (length s)) s ≡ take n s
take-min n s = elim (Bool-cases (ltb n (length s))) [
  | inl lt ↦ ap (λ k. take k s) (ground arith)
  | inr ge ↦ take_all (min n (length s)) s (ground arith) ∙ sym (take_all n s (ground arith))
]

drop_all : (n : ℕ) (s : Bytes) → length s ≤ n → drop n s ≡ []
drop_all zero [] h = refl
drop_all zero (c ∷ s) h = absurd (omega arith)
drop_all (suc n) [] h = refl
drop_all (suc n) (c ∷ s) h = drop_all n s (omega arith)

drop-min : (n : ℕ) (s : Bytes) → drop (min n (length s)) s ≡ drop n s
drop-min n s = elim (Bool-cases (ltb n (length s))) [
  | inl lt ↦ ap (λ k. drop k s) (ground arith)
  | inr ge ↦ drop_all (min n (length s)) s (ground arith) ∙ sym (drop_all n s (ground arith))
]

take-add : (m n : ℕ) (s : Bytes) → take m s ++ take n (drop m s) ≡ take (m + n) s
take-add zero n s = ap (λ k. take k s) (omega arith)
take-add (suc m) zero [] = simp unary_clauses refl
take-add (suc m) (suc n) [] = simp unary_clauses refl
take-add (suc m) n (c ∷ s) =
    let sum : suc (m + n) ≡ suc m + n = omega arith in
    ap (λ r. c ∷ r) (take-add m n s) ∙ ap (λ k. take k (c ∷ s)) sum

drop-add : (m n : ℕ) (s : Bytes) → drop n (drop m s) ≡ drop (m + n) s
drop-add zero n s = ap (λ k. drop k s) (omega arith)
drop-add (suc m) zero [] = simp unary_clauses refl
drop-add (suc m) (suc n) [] = simp unary_clauses refl
drop-add (suc m) n (c ∷ s) =
    let sum : suc (m + n) ≡ suc m + n = omega arith in drop-add m n s ∙ ap (λ k. drop k (c ∷ s)) sum

read_packet-chunk :
    (n : ℕ) (bd : Bytes)
    → (bytes_of (read_packet n bd).0 ≡ take n bd) × ((read_packet n bd).1 ≡ drop n bd)
unfolding read_packet bytes_of
read_packet-chunk n bd = elim (Bool-cases (min n (length bd) == 0)) [
  | inl e ↦
      let size : min n (length bd) ≡ 0 = ground arith in
      rw e (
        ap (λ k. take k bd) (sym size) ∙ take-min n bd,
        ap (λ k. drop k bd) (sym size) ∙ drop-min n bd,
      )
  | inr e ↦ rw e (take-min n bd, drop-min n bd)
]

-- However libavformat divides its reads, it is given the data in order, each byte once: what the
-- calls deliver and what they leave are the data cut at the sum of the sizes asked for.
pub deliver_lem :
    (sizes : List ℕ) (bd : Bytes)
    → deliver sizes bd ≡ (take (total sizes) bd, drop (total sizes) bd)
unfolding deliver total
deliver_lem [] bd = refl
deliver_lem (n ∷ sizes) bd =
    let (got, rest) = read_packet-chunk n bd in
    rw (
      got,
      rest,
      deliver_lem sizes (drop n bd),
      take-add n (total sizes) bd,
      drop-add n (total sizes) bd,
    )

-- A call with room for a byte gives AVERROR_EOF where nothing is left and nowhere else, and what it
-- delivers fits in the room.
pub read_packet_end :
    (n : ℕ) (bd : Bytes)
    → 0 < n
    → (((read_packet n bd).0 ≡ none) ↔ (bd ≡ [])) × (length (bytes_of (read_packet n bd).0) ≤ n)
unfolding read_packet bytes_of
read_packet_end n [] h = ground arith
read_packet_end n (c ∷ s) h = ground (arith, length-take (min n (suc (length s))) (c ∷ s))
