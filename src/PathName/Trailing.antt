-- ===== src/PathName/Trailing.antt =====
-- Paths that end in a slash.
use auxiliary_tool.Common.{
  ℕ, ◌+◌, ◌<◌, ◌≡◌, ◌≢◌, refl, ap, ◌∙◌, sym, some, [], ◌∷◌, ◌++◌, arith, Bytes, length,
  length-append, take, take_all, take-append, Lacks, append_assoc, size_add, size_sub,
}
use auxiliary_tool.StdString.{
  npos, find_last_of, find_last_of_last, find_last_of_found, find_last_of_before, substr_prefix,
  substr_suffix,
}
use auxiliary_tool.PathName.{slash, dirname, basename}
use auxiliary_tool.PathName.Cases.{dirname_trailing, basename_trailing}

-- d/b/ with the name b
abbrev closed : Bytes → Bytes → Bytes
closed d b = d ++ slash ∷ (b ++ slash ∷ [])

module _ (d : Bytes) (x : ℕ) (b : Bytes) (lacks : Lacks slash (x ∷ b))
    (fits : length (closed d (x ∷ b)) < npos) where
  size : length (closed d (x ∷ b)) ≡ length d + 1 + length (x ∷ b) + 1
  size =
      omega (
        arith,
        length-append d (slash ∷ ((x ∷ b) ++ slash ∷ [])),
        length-append (x ∷ b) (slash ∷ []),
      )

  last : find_last_of (closed d (x ∷ b)) slash npos ≡ length d + 1 + length (x ∷ b)
  last = rw (sym (append_assoc d (slash ∷ x ∷ b) (slash ∷ []))) (
      find_last_of_last slash (d ++ slash ∷ x ∷ b) [] tt
        (omega (arith, size, length-append d (slash ∷ x ∷ b)))
      ∙ omega (arith, length-append d (slash ∷ x ∷ b)))

  inner :
      size_add
        (find_last_of (closed d (x ∷ b)) slash (size_sub (length d + 1 + length (x ∷ b)) 1))
        1
      ≡ length d + 1
  inner =
      rw
        (find_last_of_found slash (size_sub (length d + 1 + length (x ∷ b)) 1) d (x ∷ b)
          (slash ∷ []) lacks (omega (arith, size)) (omega (arith, size)))
        (omega (arith, size))

  dirname-closed : dirname (closed d (x ∷ b)) ≡ some (d ++ slash ∷ [])
  dirname-closed =
      dirname_trailing _ _ last fits (omega (arith, size))
      ∙ rw (inner, sym (append_assoc d (slash ∷ []) (x ∷ (b ++ slash ∷ []))))
          (substr_prefix (d ++ slash ∷ []) _ _ (omega (arith, length-append d (slash ∷ []))))

  basename-closed :
      basename (closed d (x ∷ b)) ≡ some (take (length d + length (x ∷ b)) (x ∷ (b ++ slash ∷ [])))
  basename-closed =
      basename_trailing _ _ last fits (omega (arith, size)) (omega arith)
      ∙ rw (inner, sym (append_assoc d (slash ∷ []) (x ∷ (b ++ slash ∷ []))))
          (substr_suffix (d ++ slash ∷ []) _ _ _ (omega (arith, length-append d (slash ∷ [])))
            ∙ ap (λ n. some (take n (x ∷ (b ++ slash ∷ [])))) (omega arith))

-- A single name between two slashes, "/usr/": the directory is "/" and the base is the name.
pub dirname-basename_rooted :
    (b : Bytes)
    → Lacks slash b
    → b ≢ []
    → length (slash ∷ (b ++ slash ∷ [])) < npos
    → (dirname (slash ∷ (b ++ slash ∷ [])) ≡ some (slash ∷ []))
      × (basename (slash ∷ (b ++ slash ∷ [])) ≡ some b)
dirname-basename_rooted [] lacks ne fits = absurd (ne refl)
dirname-basename_rooted (x ∷ b) lacks ne fits = (
  dirname-closed [] x b lacks fits,
  basename-closed [] x b lacks fits ∙ ap some (take-append _ (x ∷ b) (slash ∷ []) (omega arith)),
)

-- Below a directory, "d/b/", both results keep a slash: dirname gives "d/" and basename "b/",
-- where dirname(3) and basename(3) give "d" and "b".
pub dirname-basename_nested :
    (d b : Bytes)
    → Lacks slash b
    → d ≢ []
    → b ≢ []
    → length (d ++ slash ∷ (b ++ slash ∷ [])) < npos
    → (dirname (d ++ slash ∷ (b ++ slash ∷ [])) ≡ some (d ++ slash ∷ []))
      × (basename (d ++ slash ∷ (b ++ slash ∷ [])) ≡ some (b ++ slash ∷ []))
dirname-basename_nested [] b lacks nd ne fits = absurd (nd refl)
dirname-basename_nested (y ∷ d) [] lacks nd ne fits = absurd (ne refl)
dirname-basename_nested (y ∷ d) (x ∷ b) lacks nd ne fits = (
  dirname-closed (y ∷ d) x b lacks fits,
  basename-closed (y ∷ d) x b lacks fits
      ∙ ap some (take_all _ (x ∷ (b ++ slash ∷ [])) (omega (arith, length-append b (slash ∷ [])))),
)

-- A relative name before its only slash, "bx/": dirname gives the empty text and basename loses
-- the last byte of the name, where dirname(3) and basename(3) give "." and "bx".
pub dirname-basename_relative :
    (b : Bytes) (x : ℕ)
    → Lacks slash (b ++ x ∷ [])
    → length (b ++ x ∷ slash ∷ []) < npos
    → (dirname (b ++ x ∷ slash ∷ []) ≡ some []) × (basename (b ++ x ∷ slash ∷ []) ≡ some b)
dirname-basename_relative b x lacks fits =
    let n = length b in
    let long = length-append b (x ∷ slash ∷ []) in
    let short = length-append b (x ∷ []) in
    let regroup = append_assoc b (x ∷ []) (slash ∷ []) in
    let found : find_last_of (b ++ x ∷ slash ∷ []) slash npos ≡ n + 1 =
      rw (sym regroup)
        (find_last_of_last slash (b ++ x ∷ []) [] tt (omega (arith, long, short)) ∙ short) in
    let before : find_last_of (b ++ x ∷ slash ∷ []) slash (size_sub (n + 1) 1) ≡ npos =
      rw (sym regroup) (
        find_last_of_before slash _ (b ++ x ∷ []) (slash ∷ []) lacks
          (omega (arith, long, short))) in
    (
      dirname_trailing _ _ found fits (omega (arith, long)) ∙ rw before (substr_prefix [] _ _ refl),
      basename_trailing _ _ found fits (omega (arith, long)) (omega arith)
          ∙ rw before (substr_prefix b _ _ (omega arith)),
    )
