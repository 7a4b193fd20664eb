-- ===== src/Picture/Batch.antt =====
-- The loop of 006/main.c over a directory of pictures. It stands behind the return of main, so that
-- the program never comes to it.
pub mod Release
use auxiliary_tool.Common.{
  ℕ, zero, suc, ◌+◌, Option, none, some, List, [], ◌∷◌, ◌++◌, Bytes, codes, ℤ, pos, minus_one,
  length, take, get_elem?,
}
use auxiliary_tool.Printf.{padded}
use auxiliary_tool.Resources.{Heap, dir_entry, name_list, release, and_release}
use auxiliary_tool.Picture.Outcomes.{Calls}
use auxiliary_tool.Picture.Data.{FileCalls, pic_open_data_wrap}

-- An entry that scandir has kept, and the results of the calls in its round.
pub record Round : Type 0 where
  pub d_name : Bytes
  pub file_calls : FileCalls
  pub calls : Calls

-- What snprintf writes into `file_path`, which has room for 511 bytes.
unfoldable pub file_path : Bytes → Bytes
file_path d_name = take 511 (codes "database_raw" ++ (codes "/" ++ d_name))

unfoldable pub round_line : ℕ → Bytes → Bytes
round_line i d_name =
    codes "-------------------"
    ++ (padded 10 1 i ++ (codes ":" ++ (file_path d_name ++ codes "-----------------\n")))

-- What a round opens and what it prints.
abbrev pub Rounds : Type 0
Rounds = List (Bytes × Bytes)

abbrev pub opened_name : Bytes
opened_name = codes "realjpg.jpg"

-- `while (ret--)`, from the last entry to the first. Each round frees its entry.
unfoldable pub decode_names : ℕ → ℕ → List Round → Heap → Rounds × Option Heap
decode_names zero i names h = ([], some h)
decode_names (suc ret) i names h = elim (get_elem? names ret) [
  | none ↦ ([], none)
  | some p ↦ elim (pic_open_data_wrap p.file_calls p.calls h).1 [
    | none ↦ ([], none)
    | some decoded ↦ elim (release (dir_entry ret) decoded) [
      | none ↦ ((opened_name, round_line i p.d_name) ∷ [], none)
      | some freed ↦
          let (rounds, end) = decode_names ret (i + 1) names freed in
          ((opened_name, round_line i p.d_name) ∷ rounds, end)
    ]
  ]
]

-- What scandir has allocated below the list itself.
abbrev pub scan_heap : ℕ → Heap → Heap
scan_heap zero h = h
scan_heap (suc n) h = dir_entry n ∷ scan_heap n h

-- main behind its return. `scanned` is `none` where scandir fails.
unfoldable pub decode_database : Option (List Round) → Heap → ℤ × Rounds × Option Heap
decode_database none h = (minus_one, [], some h)
decode_database (some names) h =
    let (rounds, end) =
      decode_names (length names) 0 names (scan_heap (length names) (name_list ∷ h)) in
    (pos 0, rounds, and_release name_list end)
