-- ===== src/Rmrf/Star.antt =====
-- rmrf on "dir/*".
use auxiliary_tool.Common.{
  ℕ, zero, suc, ◌<◌, ◌≡◌, ◌≢◌, refl, ◌∙◌, true, false, none, some, List, [], ◌∷◌, Bytes, pos, arith,
  All, length,
}
use auxiliary_tool.FileSystem.{FileSystem, directory, Entries, names, ShowsEntries}
use auxiliary_tool.FileSystem.Laws.{below, IsLawful}
use auxiliary_tool.NodeSize.Total.{depth_entries}
use auxiliary_tool.PathName.Inner.{dirname-basename_inner}
use auxiliary_tool.StdString.{npos}
use auxiliary_tool.Rmrf.{star, remove_node, rmrf}
use auxiliary_tool.Rmrf.Names.{visible, unhidden, visible-unhidden, remove_all, remove_each-visible}
use auxiliary_tool.Rmrf.Step.{remove_node_directory}
use auxiliary_tool.Rmrf.Frame.{RemovableEntries, SameBelow}
use auxiliary_tool.Rmrf.Tree.{remove_entries}

module _ (fs : FileSystem) (L : IsLawful fs) (d : Bytes) (fits : length (below d star) < npos) where
  rmrf-star :
      (fuel : ℕ) (s : fs.State)
      → rmrf fs (suc fuel) (below d star) s ≡ remove_node fs (rmrf fs fuel) true d s
  unfolding rmrf
  rmrf-star fuel s =
      let parts = dirname-basename_inner d star ((λ e. ground arith), tt) (λ e. cc) fits in
      rw (parts.0, rmrf) (rw (parts.1, rmrf))

  -- rmrf on "dir/*", where the entries that are not hidden are trees of files and directories
  -- that can be removed, returns 0 and removes those entries. The directory, its hidden entries and
  -- all else are as they were.
  pub rmrf-Emptied :
      (es : Entries) (fuel : ℕ) (s : fs.State) (listing : List Bytes)
      → depth_entries es < fuel
      → d ≢ []
      → fs.stat s d ≡ some directory
      → fs.readdir s d ≡ some listing
      → unhidden listing ≡ names es
      → RemovableEntries es d
      → ShowsEntries fs (visible false) below s es d
      → (s' : fs.State) × (rmrf fs (suc fuel) (below d star) s ≡ some (pos 0, s'))
        × All (λ n. fs.stat s' (below d n) ≡ none) (names es)
        × SameBelow fs L s s' d (names es)
  rmrf-Emptied es fuel s listing deep nd kind listed kept r v =
      let (s', done, gone, same) = remove_entries fs L es d fuel s deep nd r v in
      (
        s',
        rmrf-star fuel s
            ∙ remove_node_directory fs L fuel d s true listing s' kind listed
                (rw (visible-unhidden listing, kept) done),
        gone,
        same,
      )

  -- Where an entry of the directory is itself named "*", and is the first that is not hidden, the
  -- call of rmrf on that entry is the same call again: no fuel is enough.
  pub rmrf-star_diverges :
      (s : fs.State) (listing rest : List Bytes)
      → fs.stat s d ≡ some directory
      → fs.readdir s d ≡ some listing
      → unhidden listing ≡ star ∷ rest
      → (fuel : ℕ) → rmrf fs fuel (below d star) s ≡ none
  unfolding remove_node remove_all rmrf
  rmrf-star_diverges s listing rest kind listed kept zero = refl
  rmrf-star_diverges s listing rest kind listed kept (suc fuel) =
      let again = rmrf-star_diverges s listing rest kind listed kept fuel in
      rmrf-star fuel s
      ∙ rw (L.access-stat s d directory kind) (
          rw (kind, remove_node)
            (rw (listed, remove_node)
              (rw
                (
                  remove_each-visible fs (rmrf fs fuel) d true listing s,
                  visible-unhidden listing,
                  kept,
                )
                (rw (again, remove_all, remove_node)))))
