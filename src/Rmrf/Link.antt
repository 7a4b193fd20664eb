-- ===== src/Rmrf/Link.antt =====
-- rmrf on a symbolic link to a directory.
mod Tests
use auxiliary_tool.Common.{
  ℕ, zero, suc, ◌<◌, ◌≡◌, ◌≢◌, refl, ap, sym, subst, ◌∙◌, Bool, true, false, none, some, List, [],
  ◌∷◌, ◌++◌, append_assoc, Bytes, pos, arith, All, if◌then◌else◌,
}
use auxiliary_tool.FileSystem.{
  FileSystem, directory, Node, Entries, file, dir, device, missing, locked, end, entry, names,
  Shows, ShowsEntries,
}
use auxiliary_tool.FileSystem.Laws.{below, IsLawful}
use auxiliary_tool.FileSystem.Link.{
  behind_prefix, redirect, is_link, with_link, behind_prefix_self, redirect-below, is_link-below,
}
use auxiliary_tool.NodeSize.Total.{depth, depth_entries}
use auxiliary_tool.Rmrf.{rmrf}
use auxiliary_tool.Rmrf.Names.{visible, remove_all}
use auxiliary_tool.Rmrf.Step.{
  IsPlain, below-IsPlain, call_plain, call_file, call_directory, rmrf_plain, remove_node_file,
  remove_node_directory,
}
use auxiliary_tool.Rmrf.Frame.{Removable, RemovableEntries, below-ne-nil, SameBelow}
use auxiliary_tool.Rmrf.Tree.{others_shown, remove_entries, rmrf-Removed}

-- A path below the link, and the same path below its target.
abbrev Linked : Bytes → Bytes → Bytes → Bytes → Type 0
Linked l q p p' = (r : Bytes) × (p ≡ l ++ (b'/' ∷ r)) × (p' ≡ q ++ (b'/' ∷ r))

Linked-below : (l q p p' n : Bytes) → Linked l q p p' → Linked l q (below p n) (below p' n)
Linked-below l q p p' n (r, e, e') = (
  r ++ (b'/' ∷ n),
  ap (λ t. below t n) e ∙ append_assoc l (b'/' ∷ r) (b'/' ∷ n),
  ap (λ t. below t n) e' ∙ append_assoc q (b'/' ∷ r) (b'/' ∷ n),
)

module _ (l q p p' : Bytes) (at : Linked l q p p') where
  redirected : (last : Bool) → redirect last q p (behind_prefix l p) ≡ p'
  redirected last =
      let (r, e, e') = at in
      subst (λ t. redirect last q t (behind_prefix l t) ≡ p') (sym e)
        (redirect-below last l q r ∙ sym e')

  not_link : is_link (behind_prefix l p) ≡ false
  not_link =
      let (r, e, e') = at in
      subst (λ t. is_link (behind_prefix l t) ≡ false) (sym e) (is_link-below l r)

module _ (fs : FileSystem) (L : IsLawful fs) (l q : Bytes) where
  abbrev linked : FileSystem
  linked = with_link fs l q

  mutual
    unfolding Shows Removable depth remove_all

    tree_linked :
        (t : Node) (p p' : Bytes) (fuel : ℕ) (s : fs.State)
        → Linked l q p p'
        → depth t < fuel
        → p' ≢ []
        → IsPlain p
        → IsPlain p'
        → Removable t p
        → Removable t p'
        → Shows fs (visible false) below s t p'
        → rmrf linked fuel p s ≡ rmrf fs fuel p' s
    tree_linked (file n) p p' zero s at h np plain plain' r r' v = absurd (omega arith)
    tree_linked (file n) p p' (suc fuel) s at h np plain plain' r r' v =
        let to = redirected l q p p' at in
        call_plain linked fuel p s plain
        ∙ call_file linked fuel p s n false (ap (fs.access s) (to true) ∙ L.access-stat s p' _ v.0)
            (ap (fs.stat s) (to true) ∙ v.0)
        ∙ ap (λ t. some (pos 0, fs.unlink s t)) (to false)
        ∙ sym (rmrf_plain fs L fuel p' s plain' ∙ remove_node_file fs L fuel p' s n false v.0)
    tree_linked (dir es) p p' zero s at h np plain plain' r r' v = absurd (omega arith)
    tree_linked (dir es) p p' (suc fuel) s at h np plain plain' r r'
          (kind, (listing, listed, kept), v) =
        let to = redirected l q p p' at in
        let (s', done, gone, same) = remove_entries fs L es p' fuel s (omega arith) np r' v in
        let done' =
          entries_linked es p p' fuel s (λ n. Linked-below l q p p' n at) (omega arith) np r r' v
          ∙ done in
        call_plain linked fuel p s plain
        ∙ call_directory linked fuel p s false listing s'
            (ap (fs.access s) (to true) ∙ L.access-stat s p' _ kind)
            (ap (fs.stat s) (to true) ∙ kind) (ap (fs.readdir s) (to true) ∙ listed) (rw kept done')
        ∙ ap
            (λ (b : Bool).
              some (pos 0, if b then s' else fs.rmdir s' (redirect false q p (behind_prefix l p))))
            (not_link l q p p' at)
        ∙ ap (λ t. some (pos 0, fs.rmdir s' t)) (to false)
        ∙ sym (
            rmrf_plain fs L fuel p' s plain'
            ∙ remove_node_directory fs L fuel p' s false listing s' kind listed (rw kept done))
    tree_linked device p p' fuel s at h np plain plain' r r' v = absurd r
    tree_linked missing p p' fuel s at h np plain plain' r r' v = absurd r
    tree_linked locked p p' fuel s at h np plain plain' r r' v = absurd r

    entries_linked :
        (es : Entries) (p p' : Bytes) (fuel : ℕ) (s : fs.State)
        → ((n : Bytes) → Linked l q (below p n) (below p' n))
        → depth_entries es < fuel
        → p' ≢ []
        → RemovableEntries es p
        → RemovableEntries es p'
        → ShowsEntries fs (visible false) below s es p'
        → remove_all linked (rmrf linked fuel) p (names es) s
          ≡ remove_all fs (rmrf fs fuel) p' (names es) s
    entries_linked end p p' fuel s at h np r r' v = refl
    entries_linked (entry n t es) p p' fuel s at h np (name, ns, fresh, fits, r, rs)
          (_, _, _, fits', r', rs') (v, vs) =
        let plain = below-IsPlain p n name ns fits in
        let plain' = below-IsPlain p' n name ns fits' in
        let (s', done, gone, same) =
          rmrf-Removed fs L t (below p' n) fuel s (omega arith) (below-ne-nil p' n) plain' r' v in
        let head =
          tree_linked t (below p n) (below p' n) fuel s (at n) (omega arith) (below-ne-nil p' n)
            plain plain' r r' v in
        let vs' = others_shown fs L s s' p' n es np name fresh rs' same vs in
        rw (head ∙ done, remove_all)
          (rw (done, remove_all) (entries_linked es p p' fuel s' at (omega arith) np rs rs' vs'))

-- On the path of a link to a directory, with no "*" for a base, where the entries of that directory are
-- trees of files and directories that can be removed, rmrf follows the link: it returns 0 and
-- removes those entries. The directory itself, and all that is not at or below its entries, are as
-- they were.
pub rmrf-link :
    (fs : FileSystem) (L : IsLawful fs) (l q : Bytes) (es : Entries) (fuel : ℕ) (s : fs.State)
    (listing : List Bytes)
    → depth_entries es < fuel
    → q ≢ []
    → IsPlain l
    → RemovableEntries es l
    → RemovableEntries es q
    → fs.stat s q ≡ some directory
    → fs.readdir s q ≡ some listing
    → visible false listing ≡ names es
    → ShowsEntries fs (visible false) below s es q
    → (s' : fs.State) × (rmrf (with_link fs l q) (suc fuel) l s ≡ some (pos 0, s'))
      × All (λ n. fs.stat s' (below q n) ≡ none) (names es)
      × SameBelow fs L s s' q (names es)
unfolding redirect is_link
rmrf-link fs L l q es fuel s listing deep nq plain r r' kind listed kept v =
    let (s', done, gone, same) = remove_entries fs L es q fuel s deep nq r' v in
    let to = ap (redirect true q l) (behind_prefix_self l) in
    let done' =
      entries_linked fs L l q es l q fuel s (λ n. (n, refl, refl)) deep nq r r' v ∙ done in
    (
      s',
      call_plain (with_link fs l q) fuel l s plain
          ∙ call_directory (with_link fs l q) fuel l s false listing s'
              (ap (fs.access s) to ∙ L.access-stat s q _ kind) (ap (fs.stat s) to ∙ kind)
              (ap (fs.readdir s) to ∙ listed) (rw kept done')
          ∙ ap
              (λ (b : Bool).
                some
                  (pos 0, if b then s' else fs.rmdir s' (redirect false q l (behind_prefix l l))))
              (ap is_link (behind_prefix_self l)),
      gone,
      same,
    )
