-- ===== src/Picture/Batch/Release.antt =====
-- What the loop over the directory prints, and what it gives back.
use mathlib.Core.List.{reverse, reverse-append}
use auxiliary_tool.Common.{
  ℕ, zero, suc, ◌+◌, ◌≤◌, ◌≡◌, refl, ap, true, some, List, [], ◌∷◌, pos, arith, length, take,
  take_all, take-get_elem?, All,
}
use auxiliary_tool.Resources.{Resource, Heap, dir_entry, name_list, release, and_release}
use auxiliary_tool.Picture.Data.Release.{SetsBuffer, pic_open_data_wrap-Releases}
use auxiliary_tool.Picture.Batch.{
  Round, Rounds, round_line, opened_name, decode_names, scan_heap, decode_database,
}

-- The condition under which pic_open_data_wrap gives everything back.
abbrev pub IsSafe : Round → Type 0
IsSafe p = (p.calls.avio_alloc ≡ true) × SetsBuffer p.calls

-- The rounds of a list of entries, numbered from `i` on.
unfoldable pub rounds_from : ℕ → List Round → Rounds
rounds_from i [] = []
rounds_from i (p ∷ ps) = (opened_name, round_line i p.d_name) ∷ rounds_from (i + 1) ps

release_first : (r : Resource) (h : Heap) → release r (r ∷ h) ≡ some h
unfolding release
release_first r h = ground arith

decode_names-Releases :
    (names : List Round)
    → All IsSafe names
    → (ret i : ℕ) (h : Heap) → ret ≤ length names
    → decode_names ret i names (scan_heap ret h)
      ≡ (rounds_from i (reverse (take ret names)), some h)
unfolding decode_names rounds_from
decode_names-Releases names safe zero i h fits = refl
decode_names-Releases names safe (suc ret) i h fits =
    let (p, found, cut, (avio, sets)) = take-get_elem? IsSafe names ret safe (omega arith) in
    rw
      (
        decode_names,
        found,
        pic_open_data_wrap-Releases p.file_calls p.calls (dir_entry ret ∷ scan_heap ret h) avio
            sets,
        release_first (dir_entry ret) (scan_heap ret h),
        decode_names-Releases names safe ret (i + 1) h (omega arith),
        ap reverse cut,
        reverse-append (take ret names) (p ∷ []),
      )
      refl

-- Where scandir succeeds, and in no round pic_open_data frees a pointer that was never set or its
-- avio_alloc_context fails: the loop has a round for each entry, from the last to the first, with
-- the number and the path of the entry, each of which opens "realjpg.jpg"; what was acquired is
-- given back, the list and its entries included, and 0 is returned.
pub decode_database-Releases :
    (names : List Round) (h : Heap)
    → All IsSafe names
    → decode_database (some names) h ≡ (pos 0, rounds_from 0 (reverse names), some h)
unfolding decode_database and_release
decode_database-Releases names h safe =
    rw
      (
        decode_names-Releases names safe (length names) 0 (name_list ∷ h) (omega arith),
        take_all (length names) names (omega arith),
        release_first name_list h,
      )
      refl
