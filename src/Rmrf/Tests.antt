-- ===== src/Rmrf/Tests.antt =====
-- rmrf on a file system in memory.
use auxiliary_tool.Common.{◌<◌, ◌≡◌, refl, false, none, some, [], ◌∷◌, codes, pos, All, arith}
use auxiliary_tool.FileSystem.{
  regular, directory, special, Node, Entries, file, dir, end, entry, names, Shows, ShowsEntries,
}
use auxiliary_tool.FileSystem.Laws.{IsName, below, Same}
use auxiliary_tool.FileSystem.Memory.{
  Nodes, memory, memory-IsLawful, look, children, resolve, delete, is_name,
}
use auxiliary_tool.FileSystem.Memory.Limited.{limited, limited-IsLawful, limited-ListsNames}
use auxiliary_tool.StdString.{find_last_of, substr}
use auxiliary_tool.NodeSize.Total.{depth, depth_entries}
use auxiliary_tool.PathName.{dirname, basename}
use auxiliary_tool.Rmrf.{star, is_skipped, remove_each, remove_node, rmrf}
use auxiliary_tool.Rmrf.Names.{visible, unhidden}
use auxiliary_tool.Rmrf.Step.{IsPlain}
use auxiliary_tool.Rmrf.Frame.{Removable, RemovableEntries, Removed, SameBelow}
use auxiliary_tool.Rmrf.Tree.{rmrf-Removed}
use auxiliary_tool.Rmrf.Confined.{rmrf-Confined}
use auxiliary_tool.Rmrf.Star.{rmrf-Emptied, rmrf-star_diverges}

abbrev disk : Nodes
disk =
    ([], directory)
    ∷ (codes "k" ∷ [], directory)
    ∷ (codes "k" ∷ codes ".h" ∷ [], regular 1)
    ∷ (codes "k" ∷ codes "b" ∷ [], directory)
    ∷ (codes "k" ∷ codes "b" ∷ codes "c" ∷ [], regular 7)
    ∷ (codes "x" ∷ [], regular 2)
    ∷ []

abbrev inner : Entries
inner = entry (codes "b") (dir (entry (codes "c") (file 7) end)) end

abbrev tree : Node
tree = dir (entry (codes ".h") (file 1) inner)

run :
    rmrf memory 4 (codes "k") disk
    ≡ some (pos 0, ([], directory) ∷ (codes "x" ∷ [], regular 2) ∷ [])
unfolding rmrf remove_node remove_each is_skipped dirname basename find_last_of substr look children
    resolve delete
run = refl

run_star :
    rmrf memory 4 (codes "k/*") disk
    ≡ some (
      pos 0,
      ([], directory)
          ∷ (codes "k" ∷ [], directory)
          ∷ (codes "k" ∷ codes ".h" ∷ [], regular 1)
          ∷ (codes "x" ∷ [], regular 2)
          ∷ [],
    )
unfolding rmrf remove_node remove_each is_skipped dirname basename find_last_of substr look children
    resolve delete
run_star = refl

IsName-h : IsName (codes ".h")
IsName-h = record {
  ne_nil = λ e. cc;
  no_slash = omega arith;
  ne_self = λ e. cc;
  ne_parent = λ e. ground arith;
}

IsName-b : IsName (codes "b")
IsName-b = record {
  ne_nil = λ e. cc;
  no_slash = omega arith;
  ne_self = λ e. ground arith;
  ne_parent = λ e. cc;
}

IsName-c : IsName (codes "c")
IsName-c = record {
  ne_nil = λ e. cc;
  no_slash = omega arith;
  ne_self = λ e. ground arith;
  ne_parent = λ e. cc;
}

k-IsPlain : IsPlain (codes "k")
unfolding dirname basename find_last_of substr
k-IsPlain = (codes ".", codes "k", refl, refl, refl)

inner_removable : RemovableEntries inner (codes "k")
unfolding Removable
inner_removable = (
  IsName-b,
  (λ e. ground arith),
  tt,
  omega arith,
  ((IsName-c, (λ e. ground arith), tt, omega arith, tt, tt)),
  tt,
)

tree-Removable : Removable tree (codes "k")
unfolding Removable
tree-Removable = (IsName-h, (λ e. cc), ((λ e. cc), tt), omega arith, tt, inner_removable)

inner_shown : ShowsEntries memory (visible false) below disk inner (codes "k")
unfolding Shows visible is_skipped look children resolve
inner_shown = ((refl, (_, refl, refl), ((refl, omega arith), tt)), tt)

tree_shown : Shows memory (visible false) below disk tree (codes "k")
unfolding Shows visible is_skipped look children resolve
tree_shown = (refl, (_, refl, refl), ((refl, omega arith), inner_shown))

deep : depth tree < 4
unfolding depth
deep = omega arith

deep_inner : depth_entries inner < 3
unfolding depth
deep_inner = omega arith

rmrf-Removed_example :
    Removed memory memory-IsLawful disk (codes "k") (rmrf memory 4 (codes "k") disk)
rmrf-Removed_example =
    rmrf-Removed memory memory-IsLawful tree (codes "k") 4 disk deep (λ e. cc) k-IsPlain
      tree-Removable tree_shown

k_directory : memory.stat disk (codes "k") ≡ some directory
unfolding look resolve
k_directory = refl

k_listing :
    memory.readdir disk (codes "k") ≡ some (codes "." ∷ codes ".." ∷ codes ".h" ∷ codes "b" ∷ [])
unfolding look resolve children
k_listing = refl

k_unhidden : unhidden (codes "." ∷ codes ".." ∷ codes ".h" ∷ codes "b" ∷ []) ≡ names inner
unfolding unhidden
k_unhidden = refl

rmrf-Emptied_example :
    (s' : Nodes) × (rmrf memory 4 (below (codes "k") star) disk ≡ some (pos 0, s'))
    × All (λ n. memory.stat s' (below (codes "k") n) ≡ none) (names inner)
    × SameBelow memory memory-IsLawful disk s' (codes "k") (names inner)
rmrf-Emptied_example =
    rmrf-Emptied memory memory-IsLawful (codes "k") (omega arith) inner 3 disk
      (codes "." ∷ codes ".." ∷ codes ".h" ∷ codes "b" ∷ []) deep_inner (λ e. cc) k_directory
      k_listing k_unhidden inner_removable inner_shown

abbrev trap : Nodes
trap = (codes "k" ∷ [], directory) ∷ (codes "k" ∷ codes "*" ∷ [], regular 1) ∷ []

trap_directory : memory.stat trap (codes "k") ≡ some directory
unfolding look resolve
trap_directory = refl

trap_listing : memory.readdir trap (codes "k") ≡ some (codes "." ∷ codes ".." ∷ star ∷ [])
unfolding look resolve children
trap_listing = refl

trap_unhidden : unhidden (codes "." ∷ codes ".." ∷ star ∷ []) ≡ star ∷ []
unfolding unhidden
trap_unhidden = refl

rmrf-star_diverges_example : rmrf memory 100 (below (codes "k") star) trap ≡ none
rmrf-star_diverges_example =
    rmrf-star_diverges memory memory-IsLawful (codes "k") (omega arith) trap
      (codes "." ∷ codes ".." ∷ star ∷ []) [] trap_directory trap_listing trap_unhidden 100

-- A device in the directory, which rmdir does not remove then.
abbrev odd : Nodes
odd =
    (codes "k" ∷ [], directory)
    ∷ (codes "k" ∷ codes "d" ∷ [], special)
    ∷ (codes "k" ∷ codes "f" ∷ [], regular 3)
    ∷ (codes "x" ∷ [], regular 2)
    ∷ []

abbrev odd_left : Nodes
odd_left =
    (codes "k" ∷ [], directory)
    ∷ (codes "k" ∷ codes "d" ∷ [], special)
    ∷ (codes "x" ∷ [], regular 2)
    ∷ []

run_odd : rmrf (limited memory) 3 (codes "k") odd ≡ some (pos 0, odd_left)
unfolding rmrf remove_node remove_each is_skipped dirname basename find_last_of substr look children
    resolve delete is_name
run_odd = refl

k_dirname : dirname (codes "k") ≡ some (codes ".")
unfolding dirname find_last_of substr
k_dirname = refl

k_basename : basename (codes "k") ≡ some (codes "k")
unfolding basename find_last_of substr
k_basename = refl

rmrf-Confined_example :
    Same
      (limited memory)
      (limited-IsLawful memory memory-IsLawful)
      odd
      odd_left
      ((limited-IsLawful memory memory-IsLawful).resolve (codes "k"))
rmrf-Confined_example =
    rmrf-Confined (limited memory) (limited-IsLawful memory memory-IsLawful)
      (limited-ListsNames memory) 3 (codes "k") (codes ".") (codes "k") odd odd_left (pos 0)
      k_dirname k_basename run_odd
