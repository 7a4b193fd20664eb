-- ===== src/PathName/Reference.antt =====
-- dirname(3) and basename(3), as POSIX describes them, to compare 005/parse_pathname.cpp with.
use auxiliary_tool.Common.{
  ℕ, ◌≡◌, ◌≢◌, refl, ap, ◌∙◌, Option, none, some, [], ◌∷◌, ◌++◌, Bytes, codes, Lacks, arith, ◌==◌,
  if◌then◌else◌,
}
use auxiliary_tool.PathName.{slash}

-- A text without the slashes at its end.
push : ℕ → Bytes → Bytes
push c [] = if c == slash then [] else c ∷ []
push c (x ∷ s) = c ∷ x ∷ s

unfoldable pub trim : Bytes → Bytes
unfolding push
trim [] = []
trim (c ∷ s) = push c (trim s)

-- What stands before the last slash, and what stands behind it.
under : ℕ → Bytes → Option (Bytes × Bytes) → Option (Bytes × Bytes)
under c s none = if c == slash then some ([], s) else none
under c s (some (d, b)) = some (c ∷ d, b)

unfoldable pub cut : Bytes → Option (Bytes × Bytes)
unfolding under
cut [] = none
cut (c ∷ s) = under c s (cut s)

-- A directory of slashes only is the root.
unfoldable pub or_root : Bytes → Bytes
or_root [] = slash ∷ []
or_root (c ∷ s) = c ∷ s

dirname_of : Option (Bytes × Bytes) → Bytes
dirname_of none = codes "."
dirname_of (some (d, b)) = or_root (trim d)

basename_of : Bytes → Option (Bytes × Bytes) → Bytes
basename_of trimmed none = or_root trimmed
basename_of trimmed (some (d, b)) = b

-- The path without the slashes at its end is cut; where nothing is left the path is the root.
named_dirname : Bytes → Bytes
unfolding dirname_of
named_dirname [] = slash ∷ []
named_dirname (c ∷ s) = dirname_of (cut (c ∷ s))

unfoldable pub posix_dirname : Bytes → Bytes
unfolding named_dirname
posix_dirname [] = codes "."
posix_dirname (c ∷ s) = named_dirname (trim (c ∷ s))

unfoldable pub posix_basename : Bytes → Bytes
unfolding basename_of
posix_basename [] = codes "."
posix_basename (c ∷ s) = basename_of (trim (c ∷ s)) (cut (trim (c ∷ s)))

trim_name : (x : ℕ) (b : Bytes) → Lacks slash (x ∷ b) → trim (x ∷ b) ≡ x ∷ b
unfolding trim push
trim_name x [] (h, _) = ground arith
trim_name x (y ∷ b) (h, lacks) = ap (push x) (trim_name y b lacks)

trim-append :
    (d : Bytes) (x : ℕ) (b : Bytes) → trim (x ∷ b) ≡ x ∷ b → trim (d ++ x ∷ b) ≡ d ++ x ∷ b
unfolding trim push
trim-append [] x b h = h
trim-append (c ∷ []) x b h = ap (push c) h
trim-append (c ∷ y ∷ d) x b h = ap (push c) (trim-append (y ∷ d) x b h)

-- A path with a name behind its last slash has no slash at its end.
pub trim_open :
    (d : Bytes) (x : ℕ) (b : Bytes)
    → Lacks slash (x ∷ b)
    → trim (d ++ slash ∷ x ∷ b) ≡ d ++ slash ∷ x ∷ b
unfolding trim push
trim_open d x b lacks = trim-append d slash (x ∷ b) (ap (push slash) (trim_name x b lacks))

cut_name : (b : Bytes) → Lacks slash b → cut b ≡ none
unfolding cut under
cut_name [] lacks = refl
cut_name (c ∷ b) (h, lacks) = ground (arith, cut_name b lacks)

pub cut_open : (d b : Bytes) → Lacks slash b → cut (d ++ slash ∷ b) ≡ some (d, b)
unfolding cut under
cut_open [] b lacks = ap (under slash b) (cut_name b lacks)
cut_open (c ∷ d) b lacks = ap (under c (d ++ slash ∷ b)) (cut_open d b lacks)

-- The parts of a path that ends in a name behind a slash.
pub posix_open :
    (d b : Bytes)
    → Lacks slash b
    → b ≢ []
    → (posix_dirname (d ++ slash ∷ b) ≡ or_root (trim d)) × (posix_basename (d ++ slash ∷ b) ≡ b)
unfolding posix_dirname posix_basename named_dirname dirname_of basename_of
posix_open d [] lacks ne = absurd (ne refl)
posix_open [] (x ∷ b) lacks ne =
    let whole = trim_open [] x b lacks in
    let parts = cut_open [] (x ∷ b) lacks in
    (
      ap named_dirname whole ∙ ap dirname_of parts,
      ap (λ t. basename_of t (cut t)) whole ∙ ap (basename_of (slash ∷ x ∷ b)) parts,
    )
posix_open (c ∷ d) (x ∷ b) lacks ne =
    let whole = trim_open (c ∷ d) x b lacks in
    let parts = cut_open (c ∷ d) (x ∷ b) lacks in
    (
      ap named_dirname whole ∙ ap dirname_of parts,
      ap (λ t. basename_of t (cut t)) whole ∙ ap (basename_of (c ∷ d ++ slash ∷ x ∷ b)) parts,
    )
