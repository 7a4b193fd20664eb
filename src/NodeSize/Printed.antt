-- ===== src/NodeSize/Printed.antt =====
-- The size that get_node_size returns against the sizes that it prints.
use auxiliary_tool.Common.{
  ℕ, zero, suc, ◌+◌, ◌%◌, ◌<◌, ◌≡◌, refl, sym, subst, Option, none, some, List, [], ◌∷◌, ◌++◌,
  Bytes, size_mod, arith, Option-cases, inl, inr,
}
use auxiliary_tool.FileSystem.{FileSystem, Kind, regular, directory, special}
use auxiliary_tool.NodeSize.{
  NodeSize, failed, sized, Lines, add_node, sum_nodes, paths_below, scandir, get_node_size,
}

unfoldable pub printed : Lines → ℕ
printed [] = 0
printed ((p, n) ∷ lines) = n + printed lines

printed-append : (xs ys : Lines) → printed (xs ++ ys) ≡ printed xs + printed ys
unfolding printed
printed-append [] ys = omega arith
printed-append ((p, n) ∷ xs) ys = omega (arith, printed-append xs ys)

-- The size is the sum of the printed sizes, in size_t.
abbrev pub Adds : NodeSize → Type 0
Adds failed = Unit
Adds (sized total lines) = total ≡ printed lines % size_mod

add_node-Adds :
    (total : ℕ) (lines : Lines) (r : NodeSize)
    → total ≡ printed lines % size_mod
    → Adds r
    → (add_node (total, lines) r).0 ≡ printed (add_node (total, lines) r).1 % size_mod
unfolding add_node
add_node-Adds total lines failed h a = h
add_node-Adds total lines (sized n more) h a = omega (arith, printed-append lines more)

sum_nodes-Adds :
    (measure : Bytes → Option NodeSize)
    → ((p : Bytes) (r : NodeSize) → measure p ≡ some r → Adds r)
    → (ps : List Bytes) (sum : ℕ × Lines) → sum_nodes measure ps ≡ some sum
    → sum.0 ≡ printed sum.1 % size_mod
unfolding sum_nodes printed
sum_nodes-Adds measure good [] sum h = ground arith
sum_nodes-Adds measure good (p ∷ ps) sum h = elim (Option-cases (sum_nodes measure ps)) [
  | inl e ↦ absurd (ground arith)
  | inr (before, e) ↦ elim (Option-cases (measure p)) [
    | inl e' ↦ absurd (ground arith)
    | inr (r, e') ↦
        let after : add_node before r ≡ sum = ground arith in
        rw (sym after) (
          add_node-Adds before.0 before.1 r (sum_nodes-Adds measure good ps before e) (good p r e'))
  ]
]

module _ (fs : FileSystem) (s : fs.State)
    (sizes : (p : Bytes) (n : ℕ) → fs.stat s p ≡ some (regular n) → n < size_mod) where
  get_node_size-Adds :
      (fuel : ℕ) (p : Bytes) (r : NodeSize) → get_node_size fs s fuel p ≡ some r → Adds r
  unfolding get_node_size printed
  get_node_size-Adds zero p r h = absurd (ground arith)
  get_node_size-Adds (suc fuel) p r h = by_kind (get_node_size-Adds fuel) (fs.stat s p) refl
    where
      Smaller : Type 0
      Smaller = (q : Bytes) (m : NodeSize) → get_node_size fs s fuel q ≡ some m → Adds m

      by_sum :
          Smaller
          → (sum : Option (ℕ × Lines)) (listing : List Bytes) → fs.stat s p ≡ some directory
          → fs.readdir s p ≡ some listing
          → sum_nodes (get_node_size fs s fuel) (paths_below p (scandir listing)) ≡ sum
          → Adds r
      by_sum ih none listing e l q = absurd (ground arith)
      by_sum ih (some (total, lines)) listing e l q =
          subst Adds {x = sized total lines} (ground arith) (
            sum_nodes-Adds (get_node_size fs s fuel) ih (paths_below p (scandir listing))
              (total, lines) q)

      by_listing :
          Smaller
          → (listing : Option (List Bytes)) → fs.stat s p ≡ some directory
          → fs.readdir s p ≡ listing
          → Adds r
      by_listing ih none e l = subst Adds {x = failed} (ground arith) tt
      by_listing ih (some listing) e l =
          by_sum ih (sum_nodes (get_node_size fs s fuel) (paths_below p (scandir listing))) listing
            e l refl

      by_kind : Smaller → (k : Option Kind) → fs.stat s p ≡ k → Adds r
      by_kind ih none e = subst Adds {x = failed} (ground arith) tt
      by_kind ih (some (regular n)) e =
          subst Adds {x = sized n ((p, n) ∷ [])} (ground arith) (omega (arith, sizes p n e))
      by_kind ih (some directory) e = by_listing ih (fs.readdir s p) e refl
      by_kind ih (some special) e = subst Adds {x = failed} (ground arith) tt

  -- If every st_size is a size_t, a size that is returned is the sum, in size_t, of the sizes that
  -- were printed on the way, whatever the file system holds and whichever calls fail.
  pub get_node_size-printed :
      (fuel : ℕ) (p : Bytes) (total : ℕ) (lines : Lines)
      → get_node_size fs s fuel p ≡ some (sized total lines)
      → total ≡ printed lines % size_mod
  get_node_size-printed fuel p total lines h = get_node_size-Adds fuel p (sized total lines) h
