-- ===== src/PathName.antt =====
-- 005/parse_pathname.cpp: dirname and basename of a path. `none` is an exception of substr.
mod Cases
pub mod Inner
pub mod Reference
pub mod Total
mod Tests
pub mod Trailing
use auxiliary_tool.Common.{
  List, [], ◌∷◌, none, ◌++◌, ℕ, ◌+◌, Option, some, ◌&&◌, Bytes, codes, size_add, size_sub, ◌==◌,
  if◌then◌else◌, length,
}
use auxiliary_tool.StdString.{npos, find_last_of, substr}

abbrev pub slash : ℕ
slash = b'/'

unfoldable pub dirname : Bytes → Option Bytes
dirname path =
    let location = find_last_of path slash npos in
    if length path == size_add location 1
    then substr path 0 (size_add (find_last_of path slash (size_sub location 1)) 1)
    else if npos == location
    then some (codes ".")
    else substr path 0 (find_last_of path slash npos)

unfoldable pub basename : Bytes → Option Bytes
basename path =
    let location = find_last_of path slash npos in
    if 0 == location && 1 == length path
    then some (codes "/")
    else if length path == size_add location 1
    then substr path (size_add (find_last_of path slash (size_sub location 1)) 1)
        (size_sub location 1)
    else substr path (size_add (find_last_of path slash npos) 1) npos

-- The paths of 005/main.cpp, and what main prints of one, `none` where a call throws.
abbrev pub demo_paths : List Bytes
demo_paths =
    codes "/usr/lib"
    ∷ codes "/usr/"
    ∷ codes "usr"
    ∷ codes "/"
    ∷ codes "."
    ∷ codes ".."
    ∷ codes "usr/*"
    ∷ []

unfoldable pub show_path : Bytes → Option Bytes
show_path path = elim (dirname path) [
  | none ↦ none
  | some dir ↦ elim (basename path) [
    | none ↦ none
    | some base ↦ some (
        codes "------"
        ++ (path ++ (codes "------\n" ++ (dir ++ (codes "\n" ++ (base ++ codes "\n"))))))
  ]
]

unfoldable pub show_paths : List Bytes → Option Bytes
show_paths [] = some []
show_paths (path ∷ paths) = elim (show_path path) [
  | none ↦ none
  | some shown ↦ elim (show_paths paths) [ none ↦ none | some rest ↦ some (shown ++ rest) ]
]
