-- ===== src/Rmrf/Link/Tests.antt =====
-- rmrf on a link in a file system in memory.
use auxiliary_tool.Common.{◌<◌, ◌≡◌, refl, false, none, some, [], ◌∷◌, codes, pos, All, arith}
use auxiliary_tool.FileSystem.{
  regular, directory, special, Entries, file, end, entry, names, Shows, ShowsEntries,
}
use auxiliary_tool.FileSystem.Laws.{IsName, below}
use auxiliary_tool.FileSystem.Memory.{
  Nodes, memory, memory-IsLawful, look, children, resolve, delete,
}
use auxiliary_tool.FileSystem.Link.{behind_prefix, redirect, is_link, with_link}
use auxiliary_tool.StdString.{find_last_of, substr}
use auxiliary_tool.NodeSize.Total.{depth, depth_entries}
use auxiliary_tool.PathName.{dirname, basename}
use auxiliary_tool.Rmrf.{is_skipped, remove_each, remove_node, rmrf}
use auxiliary_tool.Rmrf.Names.{visible}
use auxiliary_tool.Rmrf.Step.{IsPlain}
use auxiliary_tool.Rmrf.Frame.{Removable, RemovableEntries, SameBelow}
use auxiliary_tool.Rmrf.Link.{rmrf-link}

-- "k/l" is a link to "x". What is in "x" goes, and the link and "k" stay.
abbrev linked_disk : Nodes
linked_disk =
    (codes "k" ∷ [], directory)
    ∷ (codes "k" ∷ codes "l" ∷ [], special)
    ∷ (codes "x" ∷ [], directory)
    ∷ (codes "x" ∷ codes "c" ∷ [], regular 7)
    ∷ []

run_link :
    rmrf (with_link memory (codes "k/l") (codes "x")) 4 (codes "k") linked_disk
    ≡ some (
      pos 0,
      (codes "k" ∷ [], directory)
          ∷ (codes "k" ∷ codes "l" ∷ [], special)
          ∷ (codes "x" ∷ [], directory)
          ∷ [],
    )
unfolding rmrf remove_node remove_each is_skipped dirname basename find_last_of substr look children
    resolve delete redirect behind_prefix is_link
run_link = refl

IsName-c : IsName (codes "c")
IsName-c = record {
  ne_nil = λ e. cc;
  no_slash = omega arith;
  ne_self = λ e. ground arith;
  ne_parent = λ e. cc;
}

abbrev target_entries : Entries
target_entries = entry (codes "c") (file 7) end

link-IsPlain : IsPlain (codes "k/l")
unfolding dirname basename find_last_of substr
link-IsPlain = (codes "k", codes "l", refl, refl, refl)

link_removable : RemovableEntries target_entries (codes "k/l")
unfolding Removable
link_removable = (IsName-c, (λ e. ground arith), tt, omega arith, tt, tt)

target_removable : RemovableEntries target_entries (codes "x")
unfolding Removable
target_removable = (IsName-c, (λ e. ground arith), tt, omega arith, tt, tt)

target_shown : ShowsEntries memory (visible false) below linked_disk target_entries (codes "x")
unfolding Shows look resolve
target_shown = ((refl, omega arith), tt)

target_directory : memory.stat linked_disk (codes "x") ≡ some directory
unfolding look resolve
target_directory = refl

target_listing :
    memory.readdir linked_disk (codes "x") ≡ some (codes "." ∷ codes ".." ∷ codes "c" ∷ [])
unfolding look resolve children
target_listing = refl

target_visible : visible false (codes "." ∷ codes ".." ∷ codes "c" ∷ []) ≡ names target_entries
unfolding visible is_skipped
target_visible = refl

target_deep : depth_entries target_entries < 3
unfolding depth
target_deep = omega arith

rmrf-link_example :
    (s' : Nodes) × (rmrf (with_link memory (codes "k/l") (codes "x")) 4 (codes "k/l") linked_disk
      ≡ some (pos 0, s'))
    × All (λ n. memory.stat s' (below (codes "x") n) ≡ none) (names target_entries)
    × SameBelow memory memory-IsLawful linked_disk s' (codes "x") (names target_entries)
rmrf-link_example =
    rmrf-link memory memory-IsLawful (codes "k/l") (codes "x") target_entries 3 linked_disk
      (codes "." ∷ codes ".." ∷ codes "c" ∷ []) target_deep (λ e. cc) link-IsPlain link_removable
      target_removable target_directory target_listing target_visible target_shown
