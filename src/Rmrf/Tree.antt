-- ===== src/Rmrf/Tree.antt =====
-- rmrf on a tree of files and directories that a lawful file system shows.
use auxiliary_tool.Common.{
  ℕ, zero, suc, ◌<◌, ◌≡◌, ◌≢◌, refl, ◌∙◌, sym, false, none, some, List, [], ◌∷◌, ◌++◌, Bytes, arith,
  All,
}
use auxiliary_tool.FileSystem.{
  FileSystem, Node, Entries, file, dir, device, missing, locked, end, entry, names, Shows,
  ShowsEntries,
}
use auxiliary_tool.FileSystem.Keys.{Under, Apart-siblings, in_all}
use auxiliary_tool.FileSystem.Laws.{IsName, below, IsLawful, Same, unlink-Same}
use auxiliary_tool.Rmrf.{rmrf}
use auxiliary_tool.Rmrf.Names.{visible, remove_all}
use auxiliary_tool.Rmrf.Step.{
  IsPlain, below-IsPlain, rmrf_plain, remove_node_file, remove_node_directory,
}
use auxiliary_tool.Rmrf.Frame.{
  Removable, RemovableEntries, below-ne-nil, ShowsEntries-Same, SameBelow, Removed, Emptied,
  remove_directory,
}
use auxiliary_tool.NodeSize.Total.{depth, depth_entries}

module _ (fs : FileSystem) (L : IsLawful fs) where
  nothing_removed : (s : fs.State) (p : Bytes) → Emptied fs L s p [] (some s)
  nothing_removed s p = (s, refl, tt, record { stats = λ q h. refl; listings = λ q h. refl })

  -- One entry, and then the others.
  removed_then :
      (s s' s'' : fs.State) (p n : Bytes) (ns : List Bytes)
      → p ≢ []
      → IsName n
      → All (λ m. m ≢ n) ns
      → fs.stat s' (below p n) ≡ none
      → Same fs L s s' (L.resolve (below p n))
      → SameBelow fs L s' s'' p ns
      → (fs.stat s'' (below p n) ≡ none) × SameBelow fs L s s'' p (n ∷ ns)
  removed_then s s' s'' p n ns np name fresh gone first rest =
      let e = L.resolve-below p n np name in
      (
        rest.stats (below p n) (rw e (fresh_apart n ns fresh)) ∙ gone,
        record {
          stats = λ q h. rest.stats q h.1 ∙ first.stats q (rw e h.0);
          listings = λ q h. rest.listings q h.1 ∙ first.listings q (rw e h.0);
        },
      )
    where
      fresh_apart :
          (n : Bytes) (ms : List Bytes)
          → All (λ m. m ≢ n) ms
          → All (λ m. ¬ Under (L.resolve p ++ m ∷ []) (L.resolve p ++ n ∷ [])) ms
      fresh_apart n [] h = tt
      fresh_apart n (m ∷ ms) (h, hs) = ((Apart-siblings (L.resolve p) m n h).0, fresh_apart n ms hs)

  pub others_shown :
      (s s' : fs.State) (p n : Bytes) (es : Entries)
      → p ≢ []
      → IsName n
      → All (λ m. m ≢ n) (names es)
      → RemovableEntries es p
      → Same fs L s s' (L.resolve (below p n))
      → ShowsEntries fs (visible false) below s es p
      → ShowsEntries fs (visible false) below s' es p
  others_shown s s' p n es np name fresh r same v =
      ShowsEntries-Same fs L es p s s' (L.resolve (below p n)) np r v same λ m other i.
        rw (L.resolve-below p n np name, L.resolve-below p m np other)
          (Apart-siblings (L.resolve p) n m (λ e. in_all (λ k. k ≢ n) m (names es) i fresh (sym e)))

  mutual
    unfolding Shows Removable depth remove_all

    remove_tree :
        (t : Node) (p : Bytes) (fuel : ℕ) (s : fs.State)
        → depth t < fuel
        → p ≢ []
        → IsPlain p
        → Removable t p
        → Shows fs (visible false) below s t p
        → Removed fs L s p (rmrf fs fuel p s)
    remove_tree (file n) p zero s h np plain r v = absurd (omega arith)
    remove_tree (file n) p (suc fuel) s h np plain r v = (
      fs.unlink s p,
      rmrf_plain fs L fuel p s plain ∙ remove_node_file fs L fuel p s n false v.0,
      L.unlink_gone s p n v.0,
      unlink-Same fs L s p,
    )
    remove_tree (dir es) p zero s h np plain r v = absurd (omega arith)
    remove_tree (dir es) p (suc fuel) s h np plain r (kind, (listing, listed, kept), v) =
        let (s', done, gone, same) = remove_entries es p fuel s (omega arith) np r v in
        let (empty, frame) =
          remove_directory fs L s s' p np (names es) listing listed kept gone same kind in
        (
          fs.rmdir s' p,
          rmrf_plain fs L fuel p s plain
              ∙ remove_node_directory fs L fuel p s false listing s' kind listed (rw kept done),
          empty,
          frame,
        )
    remove_tree device p fuel s h np plain r v = absurd r
    remove_tree missing p fuel s h np plain r v = absurd r
    remove_tree locked p fuel s h np plain r v = absurd r

    pub remove_entries :
        (es : Entries) (p : Bytes) (fuel : ℕ) (s : fs.State)
        → depth_entries es < fuel
        → p ≢ []
        → RemovableEntries es p
        → ShowsEntries fs (visible false) below s es p
        → Emptied fs L s p (names es) (remove_all fs (rmrf fs fuel) p (names es) s)
    remove_entries end p fuel s h np r v = nothing_removed s p
    remove_entries (entry n t es) p fuel s h np (name, ns, fresh, fits, r, rs) (v, vs) =
        let (s', done, gone, same) =
          remove_tree t (below p n) fuel s (omega arith) (below-ne-nil p n)
            (below-IsPlain p n name ns fits) r v in
        let vs' = others_shown s s' p n es np name fresh rs same vs in
        let (s'', done', gone', same') = remove_entries es p fuel s' (omega arith) np rs vs' in
        let (left, all_same) = removed_then s s' s'' p n (names es) np name fresh gone same same' in
        (s'', rw (done, remove_all) done', (left, gone'), all_same)

-- rmrf on the path of a tree of files and directories, with more fuel than the tree is deep: it
-- returns 0, nothing exists at the path any more, and what is not at or below the path is as it
-- was. The base of the path and the names in the tree are not "*".
pub rmrf-Removed :
    (fs : FileSystem) (L : IsLawful fs) (t : Node) (p : Bytes) (fuel : ℕ) (s : fs.State)
    → depth t < fuel
    → p ≢ []
    → IsPlain p
    → Removable t p
    → Shows fs (visible false) below s t p
    → Removed fs L s p (rmrf fs fuel p s)
rmrf-Removed = remove_tree
