-- ===== src/FileSystem.antt =====
-- The file system as the programs see it: an unknown state with the system calls that the sources
-- make, and the relation that says which tree a state shows at a path.
pub mod Keys
pub mod Laws
pub mod Memory
pub mod Link
use auxiliary_tool.Common.{
  ℕ, ◌<◌, ◌≡◌, ◌≢◌, Bool, true, false, Option, none, some, List, [], ◌∷◌, ◌++◌, Bytes, size_mod,
}

-- What stat(2) says of a node: a regular file with its st_size, a directory, or something else.
pub data Kind : Type 0 where
  regular : ℕ → Kind
  directory : Kind
  special : Kind

-- `none` is a failed call. A listing holds "." and ".." too.
pub record FileSystem : Type 1 where
  pub State : Type 0
  pub access : State → Bytes → Bool
  pub stat : State → Bytes → Option Kind
  pub readdir : State → Bytes → Option (List Bytes)
  pub unlink : State → Bytes → State
  pub rmdir : State → Bytes → State

-- A file tree, with the nodes on which a system call fails.
mutual
  pub data Node : Type 0 where
    file : ℕ → Node  -- a regular file and its size
    dir : Entries → Node
    device : Node  -- neither a regular file nor a directory
    missing : Node  -- stat fails
    locked : Node  -- a directory that cannot be opened

  pub data Entries : Type 0 where
    end : Entries
    entry : Bytes → Node → Entries → Entries

abbrev pub names : Entries → List Bytes
names end = []
names (entry n t es) = n ∷ names es

module _ (fs : FileSystem) (keep : List Bytes → List Bytes) (child : Bytes → Bytes → Bytes)
    (s : fs.State) where
  unfoldable mutual
    -- The state shows the node at the path. A directory lists its entries, once `keep` has dropped
    -- what the program skips, and shows each entry at the path that `child` gives it.
    pub Shows : Node → Bytes → Type 0
    Shows (file n) p = (fs.stat s p ≡ some (regular n)) × (n < size_mod)
    Shows (dir es) p =
        (fs.stat s p ≡ some directory)
        × ((listing : List Bytes) × (fs.readdir s p ≡ some listing) × (keep listing ≡ names es))
        × ShowsEntries es p
    Shows device p = fs.stat s p ≡ some special
    Shows missing p = fs.stat s p ≡ none
    Shows locked p = (fs.stat s p ≡ some directory) × (fs.readdir s p ≡ none)

    pub ShowsEntries : Entries → Bytes → Type 0
    ShowsEntries end p = Unit
    ShowsEntries (entry n t es) p = Shows t (child p n) × ShowsEntries es p
