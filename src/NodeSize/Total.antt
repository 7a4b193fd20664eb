-- ===== src/NodeSize/Total.antt =====
-- The result of get_node_size on a tree that the file system shows.
use auxiliary_tool.Common.{
  ℕ, zero, suc, ◌+◌, ◌%◌, ◌<◌, ◌≡◌, refl, ap, ◌∙◌, some, List, [], Bool, false, ◌&&◌, ◌==◌,
  if◌then◌else◌, ◌∷◌, ◌++◌, Bytes, size_mod, arith, append-nil,
}
use Prim.Native.Nat.{max}
use auxiliary_tool.FileSystem.{
  FileSystem, Node, Entries, file, dir, device, missing, locked, end, entry, names, Shows,
  ShowsEntries,
}
use auxiliary_tool.NodeSize.{
  NodeSize, failed, sized, filter, scandir, child_path, ends_with_slash, Lines, add_node, sum_nodes,
  paths_below, get_node_size,
}

-- The names of the directory itself and of its parent.
unfoldable pub is_dots : Bytes → Bool
is_dots [] = false
is_dots (c ∷ []) = c == b'.'
is_dots (c ∷ d ∷ []) = c == b'.' && d == b'.'
is_dots (c ∷ d ∷ e ∷ s) = false

-- The other entries of a listing, in its order.
unfoldable pub entries_of : List Bytes → List Bytes
entries_of [] = []
entries_of (n ∷ ns) = let rest = entries_of ns in if is_dots n then rest else n ∷ rest

-- The path of an entry: one slash stands between the two, also where the path ends in one.
unfoldable pub unslashed : Bytes → Bytes
unslashed [] = []
unslashed (c ∷ []) = if c == b'/' then [] else c ∷ []
unslashed (c ∷ d ∷ s) = c ∷ unslashed (d ∷ s)

unfoldable pub entry_path : Bytes → Bytes → Bytes
entry_path path name = unslashed path ++ b'/' ∷ name

filter-is_dots : (n : Bytes) → filter n ≡ (if is_dots n then 0 else 1)
unfolding filter is_dots
filter-is_dots [] = refl
filter-is_dots (c ∷ []) = ground arith
filter-is_dots (c ∷ d ∷ []) = ground arith
filter-is_dots (c ∷ d ∷ e ∷ s) = ground arith

scandir-entries_of : (ns : List Bytes) → scandir ns ≡ entries_of ns
unfolding scandir entries_of
scandir-entries_of [] = refl
scandir-entries_of (n ∷ ns) = ground (arith, filter-is_dots n, scandir-entries_of ns)

child_path-entry_path : (path name : Bytes) → child_path path name ≡ entry_path path name
unfolding child_path entry_path unslashed ends_with_slash
child_path-entry_path [] name = refl
child_path-entry_path (c ∷ []) name = ground arith
child_path-entry_path (c ∷ d ∷ s) name = ground (arith, child_path-entry_path (d ∷ s) name)

-- The sum of the sizes of all regular files in a tree.
unfoldable mutual
  pub bytes_in : Node → ℕ
  bytes_in (file n) = n
  bytes_in (dir es) = bytes_in_entries es
  bytes_in device = 0
  bytes_in missing = 0
  bytes_in locked = 0

  pub bytes_in_entries : Entries → ℕ
  bytes_in_entries end = 0
  bytes_in_entries (entry n t es) = bytes_in t + bytes_in_entries es

-- The lines printed for a tree, the last entry of a directory first.
unfoldable mutual
  pub lines_of : Node → Bytes → Lines
  lines_of (file n) p = (p, n) ∷ []
  lines_of (dir es) p = lines_of_entries es p
  lines_of device p = []
  lines_of missing p = []
  lines_of locked p = []

  pub lines_of_entries : Entries → Bytes → Lines
  lines_of_entries end p = []
  lines_of_entries (entry n t es) p = lines_of_entries es p ++ lines_of t (entry_path p n)

unfoldable mutual
  pub depth : Node → ℕ
  depth (file n) = 0
  depth (dir es) = suc (depth_entries es)
  depth device = 0
  depth missing = 0
  depth locked = 0

  pub depth_entries : Entries → ℕ
  depth_entries end = 0
  depth_entries (entry n t es) = max (depth t) (depth_entries es)

-- The whole outcome, by the kind of the node.
abbrev pub outcome : Node → Bytes → NodeSize
outcome (file n) p = sized n (lines_of (file n) p)
outcome (dir es) p = sized (bytes_in (dir es) % size_mod) (lines_of (dir es) p)
outcome device p = failed
outcome missing p = failed
outcome locked p = failed

add_outcome :
    (t : Node) (p : Bytes) (k : ℕ) (lines : Lines)
    → add_node (k % size_mod, lines) (outcome t p)
      ≡ ((bytes_in t + k) % size_mod, lines ++ lines_of t p)
unfolding add_node bytes_in lines_of
add_outcome (file n) p k lines = ground arith
add_outcome (dir es) p k lines = ground arith
add_outcome device p k lines = ground (arith, append-nil lines)
add_outcome missing p k lines = ground (arith, append-nil lines)
add_outcome locked p k lines = ground (arith, append-nil lines)

module _ (fs : FileSystem) (s : fs.State) where
  mutual
    unfolding Shows bytes_in lines_of depth get_node_size

    measure_node :
        (t : Node) (p : Bytes) (fuel : ℕ)
        → depth t < fuel
        → Shows fs entries_of entry_path s t p
        → get_node_size fs s fuel p ≡ some (outcome t p)
    measure_node (file n) p zero h v = absurd (omega arith)
    measure_node (file n) p (suc fuel) h v = rw (v.0, get_node_size)
    measure_node (dir es) p zero h v = absurd (omega arith)
    measure_node (dir es) p (suc fuel) h (kind, (listing, listed, kept), below) =
        rw (kind, get_node_size)
          (rw (listed, get_node_size)
            (rw (
              scandir-entries_of listing,
              kept,
              measure_entries es p fuel (omega arith) below,
              get_node_size,
            )))
    measure_node device p zero h v = absurd (omega arith)
    measure_node device p (suc fuel) h v = rw (v, get_node_size)
    measure_node missing p zero h v = absurd (omega arith)
    measure_node missing p (suc fuel) h v = rw (v, get_node_size)
    measure_node locked p zero h v = absurd (omega arith)
    measure_node locked p (suc fuel) h (kind, closed) = rw (kind, closed, get_node_size)

    measure_entries :
        (es : Entries) (p : Bytes) (fuel : ℕ)
        → depth_entries es < fuel
        → ShowsEntries fs entries_of entry_path s es p
        → sum_nodes (get_node_size fs s fuel) (paths_below p (names es))
          ≡ some (bytes_in_entries es % size_mod, lines_of_entries es p)
    measure_entries end p fuel h v = refl
    measure_entries (entry n t es) p fuel h (first, rest) =
        rw
          (
            measure_entries es p fuel (omega arith) rest,
            ap (get_node_size fs s fuel) (child_path-entry_path p n)
                ∙ measure_node t (entry_path p n) fuel (omega arith) first,
          )
          (ap some (add_outcome t (entry_path p n) (bytes_in_entries es) (lines_of_entries es p)))

-- With more fuel than the tree is deep, the call returns what the tree holds: for a file its size,
-- for a directory the sum of the sizes of all regular files below it, hidden ones too, in size_t. What cannot be
-- read and what is neither a file nor a directory adds nothing below a directory, and is a failure
-- at the top. The printed lines are those of the tree.
pub get_node_size_lem :
    (fs : FileSystem) (s : fs.State) (t : Node) (p : Bytes) (fuel : ℕ)
    → depth t < fuel
    → Shows fs entries_of entry_path s t p
    → get_node_size fs s fuel p ≡ some (outcome t p)
get_node_size_lem = measure_node
