-- ===== src/PathName/Inner.antt =====
-- Paths whose last byte is no slash.
use auxiliary_tool.Common.{
  inl, inr, ◌+◌, ◌≤◌, ◌<◌, ◌≡◌, ◌≢◌, refl, ap, ◌∙◌, sym, some, [], ◌∷◌, ◌++◌, arith, Bytes, codes,
  length, length-append, take_all, Lacks, append_assoc,
}
use auxiliary_tool.StdString.{
  last_split, npos, find_last_of_last, find_last_of_none, substr, substr_prefix, substr_suffix,
}
use auxiliary_tool.PathName.{slash, dirname, basename}
use auxiliary_tool.PathName.Reference.{trim, or_root, posix_dirname, posix_basename, posix_open}
use auxiliary_tool.PathName.Cases.{dirname_cut, basename_cut, dirname_absent, basename_absent}

-- The text behind a slash, up to the end.
substr_behind :
    (d b : Bytes) → length b ≤ npos → substr (d ++ slash ∷ b) (length d + 1) npos ≡ some b
substr_behind d b fits = rw (sym (append_assoc d (slash ∷ []) b)) (
    substr_suffix (d ++ slash ∷ []) b (length d + 1) npos
      (omega (arith, length-append d (slash ∷ [])))
    ∙ ap some (take_all npos b fits))

-- A path that ends in a name behind a slash is cut at its last slash: dirname gives what stands
-- before that slash, and basename what stands behind it.
pub dirname-basename_inner :
    (d b : Bytes)
    → Lacks slash b
    → b ≢ []
    → length (d ++ slash ∷ b) < npos
    → (dirname (d ++ slash ∷ b) ≡ some d) × (basename (d ++ slash ∷ b) ≡ some b)
dirname-basename_inner d [] lacks ne fits = absurd (ne refl)
dirname-basename_inner d (x ∷ b) lacks ne fits =
    let size = length-append d (slash ∷ x ∷ b) in
    let found = find_last_of_last slash d (x ∷ b) lacks (omega (arith, size)) in
    (
      dirname_cut _ _ found fits (omega (arith, size)) ∙ substr_prefix d _ _ refl,
      basename_cut _ _ found fits (omega (arith, size))
          ∙ substr_behind d (x ∷ b) (omega (arith, size)),
    )

-- A path with no slash has the directory "." and is its own last component.
pub dirname-basename_plain :
    (path : Bytes)
    → Lacks slash path
    → path ≢ []
    → length path < npos
    → (dirname path ≡ some (codes ".")) × (basename path ≡ some path)
dirname-basename_plain [] lacks ne fits = absurd (ne refl)
dirname-basename_plain (x ∷ p) lacks ne fits =
    let found = find_last_of_none slash npos (x ∷ p) lacks in
    (
      dirname_absent _ _ found fits refl (omega arith),
      basename_absent _ _ found fits refl (omega arith)
          ∙ substr_suffix [] (x ∷ p) 0 npos refl
          ∙ ap some (take_all npos (x ∷ p) (omega arith)),
    )

-- A path that holds a slash and does not end in one is its directory, a slash, and its base, and
-- the base holds no slash. The base is that of basename(3). The directory is that of dirname(3) only
-- where it has no slash at its end and is not empty: dirname(3) drops such slashes, and gives "/"
-- where nothing is left.
pub dirname-basename_rejoin :
    (path : Bytes)
    → length path < npos
    → ¬ Lacks slash path
    → ((d : Bytes) → path ≢ d ++ slash ∷ [])
    → (d : Bytes) × (b : Bytes) × (dirname path ≡ some d)
      × (basename path ≡ some b)
      × (d ++ slash ∷ b ≡ path)
      × Lacks slash b
      × (posix_basename path ≡ b)
      × (posix_dirname path ≡ or_root (trim d))
dirname-basename_rejoin path fits holds open_end = elim (last_split slash path) [
  | inl lacks ↦ absurd (holds lacks)
  | inr (d, b, e, lacks) ↦
      let named = λ (h : b ≡ []). open_end d (e ∙ ap (λ t. d ++ slash ∷ t) h) in
      let parts = dirname-basename_inner d b lacks named (rw (sym e) fits) in
      let posix = posix_open d b lacks named in
      (
        d,
        b,
        ap dirname e ∙ parts.0,
        ap basename e ∙ parts.1,
        sym e,
        lacks,
        ap posix_basename e ∙ posix.1,
        ap posix_dirname e ∙ posix.0,
      )
]
