-- ===== src/NodeSize/Tests.antt =====
-- get_node_size on a file system in memory.
use auxiliary_tool.Common.{ℕ, ◌%◌, ◌≡◌, refl, some, [], ◌∷◌, Bytes, codes, arith, size_mod, ◌<◌}
use auxiliary_tool.FileSystem.{
  Kind, regular, directory, special, Node, file, dir, device, end, entry, Shows,
}
use auxiliary_tool.FileSystem.Memory.{Nodes, memory, look, children, resolve, stat-all}
use auxiliary_tool.NodeSize.{sized, get_node_size}
use auxiliary_tool.NodeSize.Total.{
  is_dots, entries_of, unslashed, entry_path, depth, outcome, get_node_size_lem,
}
use auxiliary_tool.NodeSize.Printed.{printed, get_node_size-printed}

abbrev disk : Nodes
disk =
    ([], directory)
    ∷ (codes "d" ∷ [], directory)
    ∷ (codes "d" ∷ codes "a" ∷ [], regular 5)
    ∷ (codes "d" ∷ codes "b" ∷ [], directory)
    ∷ (codes "d" ∷ codes "b" ∷ codes "c" ∷ [], regular 7)
    ∷ (codes "d" ∷ codes "s" ∷ [], special)
    ∷ []

abbrev tree : Node
tree = dir (
    entry (codes "a") (file 5)
      (entry (codes "b") (dir (entry (codes "c") (file 7) end)) (entry (codes "s") device end)))

disk-Shows : Shows memory entries_of entry_path disk tree (codes "d")
unfolding Shows entries_of is_dots entry_path unslashed look children resolve
disk-Shows = (
  refl,
  (_, refl, refl),
  ((refl, omega arith), ((refl, (_, refl, refl), ((refl, omega arith), tt)), (refl, tt))),
)

deep : depth tree < 3
unfolding depth
deep = omega arith

get_node_size_lem_example :
    get_node_size memory disk 3 (codes "d") ≡ some (outcome tree (codes "d"))
get_node_size_lem_example = get_node_size_lem memory disk tree (codes "d") 3 deep disk-Shows

run :
    get_node_size memory disk 3 (codes "d")
    ≡ some (sized 12 ((codes "d/b/c", 7) ∷ (codes "d/a", 5) ∷ []))
unfolding get_node_size look children resolve
run = refl

abbrev FitsSize : Kind → Type 0
FitsSize (regular n) = n < size_mod
FitsSize directory = Unit
FitsSize special = Unit

small : (p : Bytes) (n : ℕ) → memory.stat disk p ≡ some (regular n) → n < size_mod
small p n h =
    stat-all FitsSize p (regular n) disk (tt, (tt, (omega arith, (tt, (omega arith, (tt, tt)))))) h

get_node_size-printed_example : 12 ≡ printed ((codes "d/b/c", 7) ∷ (codes "d/a", 5) ∷ []) % size_mod
get_node_size-printed_example =
    get_node_size-printed memory disk small 3 (codes "d") 12
      ((codes "d/b/c", 7) ∷ (codes "d/a", 5) ∷ []) run
