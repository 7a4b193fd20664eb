-- ===== src/PathName/Cases.antt =====
-- The branches of dirname and basename, by where the last slash is.
use auxiliary_tool.Common.{
  ℕ, ◌+◌, ◌-◌, ◌<◌, ◌≡◌, some, arith, Bytes, codes, size_add, size_sub, length,
}
use auxiliary_tool.StdString.{npos, find_last_of, substr}
use auxiliary_tool.PathName.{slash, dirname, basename}

module _ (path : Bytes) (l : ℕ) (found : find_last_of path slash npos ≡ l)
    (fits : length path < npos) where
  pub dirname_cut : l + 1 < length path → dirname path ≡ substr path 0 l
  unfolding dirname
  dirname_cut h = rw found (ground arith)

  pub basename_cut : l + 1 < length path → basename path ≡ substr path (l + 1) npos
  unfolding basename
  basename_cut h = rw found (ground arith)

  pub dirname_trailing :
      l + 1 ≡ length path
      → dirname path ≡ substr path 0 (size_add (find_last_of path slash (size_sub l 1)) 1)
  unfolding dirname
  dirname_trailing h = rw found (ground arith)

  pub basename_trailing :
      l + 1 ≡ length path
      → 0 < l
      → basename path ≡ substr path (size_add (find_last_of path slash (size_sub l 1)) 1) (l - 1)
  unfolding basename
  basename_trailing h p = rw found (ground arith)

  pub dirname_absent : l ≡ npos → 0 < length path → dirname path ≡ some (codes ".")
  unfolding dirname
  dirname_absent h p = rw found (ground arith)

  pub basename_absent : l ≡ npos → 0 < length path → basename path ≡ substr path 0 npos
  unfolding basename
  basename_absent h p = rw found (ground arith)
