-- ===== src/PathName/Tests.antt =====
-- dirname and basename at concrete paths.
use auxiliary_tool.Common.{◌≡◌, ◌≢◌, refl, some, [], ◌∷◌, ◌++◌, Bytes, codes, Lacks, arith}
use auxiliary_tool.StdString.{find_last_of, substr}
use auxiliary_tool.PathName.{slash, dirname, basename}
use auxiliary_tool.PathName.Inner.{dirname-basename_rejoin}
use auxiliary_tool.PathName.Trailing.{dirname-basename_relative}
use auxiliary_tool.PathName.Reference.{trim, cut, or_root, posix_dirname, posix_basename}
use auxiliary_tool.PathName.Total.{dirname-basename_total}

-- The paths of 005/main.cpp.
usr_lib :
    (dirname (codes "/usr/lib") ≡ some (codes "/usr"))
    × (basename (codes "/usr/lib") ≡ some (codes "lib"))
unfolding dirname basename find_last_of substr
usr_lib = (refl, refl)

usr : (dirname (codes "/usr/") ≡ some (codes "/")) × (basename (codes "/usr/") ≡ some (codes "usr"))
unfolding dirname basename find_last_of substr
usr = (refl, refl)

root : (dirname (codes "/") ≡ some (codes "/")) × (basename (codes "/") ≡ some (codes "/"))
unfolding dirname basename find_last_of substr
root = (refl, refl)

dots : (dirname (codes "..") ≡ some (codes ".")) × (basename (codes "..") ≡ some (codes ".."))
unfolding dirname basename find_last_of substr
dots = (refl, refl)

-- Below the root, and with two slashes, the directory is not that of dirname(3).
below_root : (dirname (codes "/usr") ≡ some []) × (posix_dirname (codes "/usr") ≡ codes "/")
unfolding dirname find_last_of substr posix_dirname trim cut or_root
below_root = (refl, refl)

two_slashes :
    (dirname (codes "a//b") ≡ some (codes "a/")) × (posix_dirname (codes "a//b") ≡ codes "a")
unfolding dirname find_last_of substr posix_dirname trim cut or_root
two_slashes = (refl, refl)

open_end : (d : Bytes) → codes "a/b" ≢ d ++ slash ∷ []
open_end [] e = ground arith
open_end (x ∷ []) e = ground arith
open_end (x ∷ y ∷ []) e = ground arith
open_end (x ∷ y ∷ z ∷ []) e = ground arith
open_end (x ∷ y ∷ z ∷ w ∷ d) e = ground arith

dirname-basename_rejoin_example :
    (d : Bytes) × (b : Bytes) × (dirname (codes "a/b") ≡ some d)
    × (basename (codes "a/b") ≡ some b)
    × (d ++ slash ∷ b ≡ codes "a/b")
    × Lacks slash b
    × (posix_basename (codes "a/b") ≡ b)
    × (posix_dirname (codes "a/b") ≡ or_root (trim d))
dirname-basename_rejoin_example =
    dirname-basename_rejoin (codes "a/b") (omega arith) (λ h. omega arith) open_end

trailing_slash :
    (dirname (codes "us" ++ b'r' ∷ slash ∷ []) ≡ some [])
    × (basename (codes "us" ++ b'r' ∷ slash ∷ []) ≡ some (codes "us"))
trailing_slash = dirname-basename_relative (codes "us") b'r' (omega arith) (omega arith)

dirname-basename_total_example :
    ((r : Bytes) × (dirname (codes "a//") ≡ some r))
    × ((r : Bytes) × (basename (codes "a//") ≡ some r))
dirname-basename_total_example = dirname-basename_total (codes "a//") (omega arith)
