-- ===== src/Rmrf/Frame.antt =====
-- The trees that rmrf can remove, and what of a file system stays as it was while it does.
use auxiliary_tool.Common.{
  ◌<◌, ◌≡◌, ◌≢◌, refl, ◌∙◌, sym, subst, false, inl, inr, Option, none, some, List, [], ◌∷◌, ◌++◌,
  Bytes, ℤ, pos, Option-cases, All, length,
}
use auxiliary_tool.FileSystem.{
  FileSystem, directory, Node, Entries, file, dir, device, missing, locked, end, entry, names,
  Shows, ShowsEntries,
}
use auxiliary_tool.FileSystem.Keys.{
  Key, Under, Apart, In, Under-of_snoc, Apart-snoc, not-Under_child, Apart-siblings, In-or-fresh,
  in_all,
}
use auxiliary_tool.FileSystem.Laws.{IsName, below, IsLawful, Same, rmdir-Same}
use auxiliary_tool.StdString.{npos}
use auxiliary_tool.Rmrf.{star}
use auxiliary_tool.Rmrf.Names.{visible, In-visible, name-not_skipped}

-- A tree that rmrf can remove: files and directories, whose entries have different names, none of
-- them "*", at paths that fit in a text.
unfoldable mutual
  pub Removable : Node → Bytes → Type 0
  Removable (file n) p = Unit
  Removable (dir es) p = RemovableEntries es p
  Removable device p = ⊥
  Removable missing p = ⊥
  Removable locked p = ⊥

  pub RemovableEntries : Entries → Bytes → Type 0
  RemovableEntries end p = Unit
  RemovableEntries (entry n t es) p =
      IsName n
      × (n ≢ star)
      × All (λ m. m ≢ n) (names es)
      × (length (below p n) < npos)
      × Removable t (below p n)
      × RemovableEntries es p

pub below-ne-nil : (p n : Bytes) → below p n ≢ []
below-ne-nil [] n = λ e. cc
below-ne-nil (c ∷ p) n = λ e. cc

module _ (fs : FileSystem) (L : IsLawful fs) where
  -- A tree is still shown where nothing has changed.
  mutual
    unfolding Shows Removable

    pub Shows-Same :
        (t : Node) (p : Bytes) (s s' : fs.State) (k : Key)
        → p ≢ []
        → Removable t p
        → Shows fs (visible false) below s t p
        → Same fs L s s' k
        → Apart k (L.resolve p)
        → Shows fs (visible false) below s' t p
    Shows-Same (file n) p s s' k np r v same apart = (same.stats p apart.0 ∙ v.0, v.1)
    Shows-Same (dir es) p s s' k np r (kind, (listing, listed, kept), below) same apart = (
      same.stats p apart.0 ∙ kind,
      (listing, same.listings p apart ∙ listed, kept),
      ShowsEntries-Same es p s s' k np r below same (λ n name m.
          subst (Apart k) (sym (L.resolve-below p n np name)) (Apart-snoc k (L.resolve p) n apart)),
    )
    Shows-Same device p s s' k np r v same apart = absurd r
    Shows-Same missing p s s' k np r v same apart = absurd r
    Shows-Same locked p s s' k np r v same apart = absurd r

    pub ShowsEntries-Same :
        (es : Entries) (p : Bytes) (s s' : fs.State) (k : Key)
        → p ≢ []
        → RemovableEntries es p
        → ShowsEntries fs (visible false) below s es p
        → Same fs L s s' k
        → ((n : Bytes) → IsName n → In n (names es) → Apart k (L.resolve (below p n)))
        → ShowsEntries fs (visible false) below s' es p
    ShowsEntries-Same end p s s' k np r v same apart = tt
    ShowsEntries-Same (entry n t es) p s s' k np (name, ns, fresh, fits, r, rs) (v, vs) same apart =
        (
          Shows-Same t (below p n) s s' k (below-ne-nil p n) r v same (apart n name (inl refl)),
          ShowsEntries-Same es p s s' k np rs vs same (λ m nm i. apart m nm (inr i)),
        )

-- Two states differ at most at and below the entries of a directory, and in the listings above them.
pub record SameBelow (fs : FileSystem) (L : IsLawful fs) (s s' : fs.State) (p : Bytes)
    (ns : List Bytes) : Type 0 where
  pub stats :
      (q : Bytes)
      → All (λ n. ¬ Under (L.resolve p ++ n ∷ []) (L.resolve q)) ns
      → fs.stat s' q ≡ fs.stat s q
  pub listings :
      (q : Bytes)
      → All (λ n. Apart (L.resolve p ++ n ∷ []) (L.resolve q)) ns
      → fs.readdir s' q ≡ fs.readdir s q

-- The outcome of removing what is at a path.
abbrev pub Removed :
    (fs : FileSystem) → IsLawful fs → fs.State → Bytes → Option (ℤ × fs.State) → Type 0
Removed fs L s p result =
    (s' : fs.State) × (result ≡ some (pos 0, s'))
    × (fs.stat s' p ≡ none)
    × Same fs L s s' (L.resolve p)

abbrev pub Emptied :
    (fs : FileSystem) → IsLawful fs → fs.State → Bytes → List Bytes → Option fs.State → Type 0
Emptied fs L s p ns result =
    (s' : fs.State) × (result ≡ some s')
    × All (λ n. fs.stat s' (below p n) ≡ none) ns
    × SameBelow fs L s s' p ns

-- In a directory without its entries nothing is left.
module _ (fs : FileSystem) (L : IsLawful fs) (s s' : fs.State) (p : Bytes) (np : p ≢ [])
    (ns listing : List Bytes) (listed : fs.readdir s p ≡ some listing)
    (kept : visible false listing ≡ ns) (gone : All (λ n. fs.stat s' (below p n) ≡ none) ns)
    (same : SameBelow fs L s s' p ns) where
  fresh-apart :
      (n : Bytes) (ms : List Bytes)
      → All (λ m. m ≢ n) ms
      → All (λ m. ¬ Under (L.resolve p ++ m ∷ []) (L.resolve p ++ n ∷ [])) ms
  fresh-apart n [] h = tt
  fresh-apart n (m ∷ ms) (h, hs) = ((Apart-siblings (L.resolve p) m n h).0, fresh-apart n ms hs)

  nothing_left : (n : Bytes) → IsName n → fs.stat s' (below p n) ≡ none
  nothing_left n name = elim (In-or-fresh n ns) [
    | inl i ↦ in_all (λ m. fs.stat s' (below p m) ≡ none) n ns i gone
    | inr fresh ↦
        let before =
          same.stats (below p n) (rw (L.resolve-below p n np name) (fresh-apart n ns fresh)) in
        elim (Option-cases (fs.stat s (below p n))) [
          | inl e ↦ before ∙ e
          | inr (k, e) ↦
              let i =
                In-visible false n listing (L.listed s p n k listing np name listed e)
                  (name-not_skipped n name) in
              in_all (λ m. fs.stat s' (below p m) ≡ none) n ns (subst (In n) kept i) gone
        ]
  ]

  here_apart : (ms : List Bytes) → All (λ m. ¬ Under (L.resolve p ++ m ∷ []) (L.resolve p)) ms
  here_apart [] = tt
  here_apart (m ∷ ms) = (not-Under_child (L.resolve p) m, here_apart ms)

  outside :
      (q : Bytes)
      → ¬ Under (L.resolve p) (L.resolve q)
      → (ms : List Bytes) → All (λ m. ¬ Under (L.resolve p ++ m ∷ []) (L.resolve q)) ms
  outside q u [] = tt
  outside q u (m ∷ ms) = ((λ v. u (Under-of_snoc (L.resolve p) m (L.resolve q) v)), outside q u ms)

  aside :
      (q : Bytes)
      → Apart (L.resolve p) (L.resolve q)
      → (ms : List Bytes) → All (λ m. Apart (L.resolve p ++ m ∷ []) (L.resolve q)) ms
  aside q a [] = tt
  aside q a (m ∷ ms) =
      let b = Apart-snoc (L.resolve q) (L.resolve p) m (a.1, a.0) in ((b.1, b.0), aside q a ms)

  pub remove_directory :
      fs.stat s p ≡ some directory
      → (fs.stat (fs.rmdir s' p) p ≡ none) × Same fs L s (fs.rmdir s' p) (L.resolve p)
  remove_directory kind =
      let last = rmdir-Same fs L s' p in
      (
        L.rmdir_gone s' p np (same.stats p (here_apart ns) ∙ kind) nothing_left,
        record {
          stats = λ q u. last.stats q u ∙ same.stats q (outside q u ns);
          listings = λ q a. last.listings q a ∙ same.listings q (aside q a ns);
        },
      )
