-- ===== src/Rmrf.antt =====
-- 004/rmrf.cpp: rmrf, which removes a file, a directory with all that is in it, or with "dir/*" what is
-- in a directory and not hidden. The file system is a parameter; messages are left out. A listing
-- is the one that readdir gives from opendir on.
pub mod Frame
pub mod Names
pub mod Step
pub mod Tree
pub mod Star
pub mod Confined
pub mod Link
mod Tests
use auxiliary_tool.Common.{
  ℕ, zero, suc, Bool, true, false, not, ◌||◌, Option, none, some, List, [], ◌∷◌, ◌++◌, Bytes, codes,
  bytes_eq, ℤ, pos, minus_one, ◌==◌, if◌then◌else◌,
}
use auxiliary_tool.FileSystem.{FileSystem, Kind, regular, directory, special}
use auxiliary_tool.PathName.{dirname, basename}

-- strncmp(".", d_name, 1) == 0
unfoldable pub is_hidden : Bytes → Bool
is_hidden [] = false
is_hidden (c ∷ name) = c == b'.'

-- The entries over which the loop passes: for "*" the hidden ones, otherwise "." and "..".
unfoldable pub is_skipped : Bool → Bytes → Bool
unfolding is_hidden
is_skipped true name = is_hidden name
is_skipped false name = bytes_eq (codes ".") name || bytes_eq (codes "..") name

abbrev pub star : Bytes
star = codes "*"

module _ (fs : FileSystem) where
  open fs use {State, access, stat, readdir, unlink, rmdir}

  -- The `while` loop, over a listing. The result of the recursive call is not looked at.
  unfoldable pub remove_each :
      (Bytes → State → Option (ℤ × State)) → Bool → Bytes → List Bytes → State → Option State
  remove_each remove all path_c [] s = some s
  remove_each remove all path_c (name ∷ listing) s = elim (is_skipped all name) [
    | true ↦ remove_each remove all path_c listing s
    | false ↦ elim (remove (path_c ++ (codes "/" ++ name)) s) [
      | none ↦ none
      | some (_, s') ↦ remove_each remove all path_c listing s'
    ]
  ]

  -- From the test of access on. `all` says that the base is "*". A directory that cannot be opened
  -- is `none`, since readdir is then called with a null pointer.
  unfoldable pub remove_node :
      (Bytes → State → Option (ℤ × State)) → Bool → Bytes → State → Option (ℤ × State)
  remove_node remove all path_c s =
      if not (access s path_c) then some (pos 0, s) else elim (stat s path_c) [
        | none ↦ some (minus_one, s)
        | some (regular n) ↦ some (pos 0, unlink s path_c)
        | some directory ↦ elim (readdir s path_c) [
          | none ↦ none
          | some listing ↦ elim (remove_each remove all path_c listing s) [
            | none ↦ none
            | some s' ↦ some (pos 0, if all then s' else rmdir s' path_c)
          ]
        ]
        | some special ↦ some (pos 0, s)
      ]

  -- The fuel bounds the depth of the recursion. `none` is also an exception of substr.
  unfoldable pub rmrf : ℕ → Bytes → State → Option (ℤ × State)
  rmrf zero path s = none
  rmrf (suc fuel) path s = elim (dirname path) [
    | none ↦ none
    | some dir ↦ elim (basename path) [
      | none ↦ none
      | some base ↦
          let all = bytes_eq base star in remove_node (rmrf fuel) all (if all then dir else path) s
    ]
  ]

-- main of 004/main.cpp.
unfoldable pub main : (fs : FileSystem) → ℕ → fs.State → Option (ℤ × fs.State)
main fs fuel s = elim (rmrf fs fuel (codes "kkk/*") s) [
  | none ↦ none
  | some (_, s') ↦ some (pos 0, s')
]
