-- ===== src/NodeSize.antt =====
-- 008/main.cpp: get_node_size, the size of a file or of everything below a directory. The file
-- system is a parameter, whose listings come in the order of alphasort. Messages on stderr are left
-- out. The lines on stdout are a path and a size each.
pub mod Printed
mod Tests
pub mod Total
use auxiliary_tool.Common.{
  ◌/◌, ℕ, zero, suc, Bool, true, false, ◌||◌, Option, none, some, List, [], ◌∷◌, ◌++◌, Bytes, codes,
  bytes_eq, size_add, ◌==◌, if◌then◌else◌,
}
use auxiliary_tool.FileSystem.{FileSystem, Kind, regular, directory, special}

-- The callback of scandir: 0 drops an entry.
unfoldable pub filter : Bytes → ℕ
filter d_name = if bytes_eq d_name (codes ".") || bytes_eq d_name (codes "..") then 0 else 1

-- scandir keeps the entries for which the callback is not 0.
unfoldable pub scandir : List Bytes → List Bytes
unfolding filter
scandir [] = []
scandir (n ∷ ns) = let rest = scandir ns in if filter n == 0 then rest else n ∷ rest

-- node_path.back() == '/'
ends_with_slash : Bytes → Bool
ends_with_slash [] = false
ends_with_slash (c ∷ []) = c == b'/'
ends_with_slash (c ∷ d ∷ s) = ends_with_slash (d ∷ s)

unfoldable pub child_path : Bytes → Bytes → Bytes
unfolding ends_with_slash
child_path path name = (if ends_with_slash path then path else path ++ codes "/") ++ name

abbrev pub Lines : Type 0
Lines = List (Bytes × ℕ)

-- What a call returns, with the value behind the `size` pointer. A call that fails returns -1 and
-- leaves that value alone.
pub data NodeSize : Type 0 where
  failed : NodeSize
  sized : ℕ → Lines → NodeSize

-- One round of the loop: a call that fails adds nothing.
add_node : ℕ × Lines → NodeSize → ℕ × Lines
add_node (total, lines) failed = (total, lines)
add_node (total, lines) (sized n more) = (size_add total n, lines ++ more)

-- `while (file_num--)`: the entries from the last to the first.
sum_nodes : (Bytes → Option NodeSize) → List Bytes → Option (ℕ × Lines)
unfolding add_node
sum_nodes measure [] = some (0, [])
sum_nodes measure (path ∷ paths) = elim (sum_nodes measure paths) [
  | none ↦ none
  | some sum ↦ elim (measure path) [ none ↦ none | some node ↦ some (add_node sum node) ]
]

paths_below : Bytes → List Bytes → List Bytes
paths_below path [] = []
paths_below path (n ∷ ns) = child_path path n ∷ paths_below path ns

module _ (fs : FileSystem) (s : fs.State) where
  -- The recursion goes down the tree: the fuel bounds its depth, and `none` means that it ran out.
  unfoldable pub get_node_size : ℕ → Bytes → Option NodeSize
  unfolding scandir sum_nodes paths_below child_path
  get_node_size zero path = none
  get_node_size (suc fuel) path = elim (fs.stat s path) [
    | none ↦ some failed
    | some (regular n) ↦ some (sized n ((path, n) ∷ []))
    | some directory ↦ elim (fs.readdir s path) [
      | none ↦ some failed
      | some listing ↦ elim (sum_nodes (get_node_size fuel) (paths_below path (scandir listing))) [
        | none ↦ none
        | some (total, lines) ↦ some (sized total lines)
      ]
    ]
    | some special ↦ some failed
  ]

-- main of 008/main.cpp: the size in KB and in MB, `none` where it prints a value that was never set.
unfoldable pub main : (fs : FileSystem) → fs.State → ℕ → Option (Option (ℕ × ℕ))
main fs s fuel = elim (get_node_size fs s fuel (codes "../../auxiliary_tool/")) [
  | none ↦ none
  | some failed ↦ some none
  | some (sized n lines) ↦ some (some (n / 1024, n / 1024 / 1024))
]
