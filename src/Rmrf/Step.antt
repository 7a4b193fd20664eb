-- ===== src/Rmrf/Step.antt =====
-- One call of rmrf, by what stat says of the path.
use auxiliary_tool.Common.{
  ℕ, suc, ◌≡◌, ◌≢◌, Bool, true, false, some, List, Bytes, bytes_eq, bytes_eq_sound, inl, inr, pos,
  Bool-cases, if◌then◌else◌, length, ◌<◌,
}
use auxiliary_tool.FileSystem.{FileSystem, regular, directory}
use auxiliary_tool.FileSystem.Laws.{IsName, below, IsLawful}
use auxiliary_tool.PathName.{dirname, basename}
use auxiliary_tool.PathName.Inner.{dirname-basename_inner}
use auxiliary_tool.StdString.{npos}
use auxiliary_tool.Rmrf.{star, remove_node, rmrf}
use auxiliary_tool.Rmrf.Names.{visible, remove_all, remove_each-visible}

-- A path whose base is not "*".
abbrev pub IsPlain : Bytes → Type 0
IsPlain p =
    (d : Bytes) × (b : Bytes) × (dirname p ≡ some d)
    × (basename p ≡ some b)
    × (bytes_eq b star ≡ false)

pub below-IsPlain :
    (p n : Bytes) → IsName n → n ≢ star → length (below p n) < npos → IsPlain (below p n)
below-IsPlain p n name ns fits =
    let parts = dirname-basename_inner p n name.no_slash name.ne_nil fits in
    (
      p,
      n,
      parts.0,
      parts.1,
      elim (Bool-cases (bytes_eq n star)) [
        | inl e ↦ absurd (ns (bytes_eq_sound n star e))
        | inr e ↦ e
      ],
    )

-- What a call does with a path at which something is, on any file system.
module _ (fs : FileSystem) (fuel : ℕ) (p : Bytes) (s : fs.State) where
  pub call_plain : IsPlain p → rmrf fs (suc fuel) p s ≡ remove_node fs (rmrf fs fuel) false p s
  unfolding rmrf
  call_plain (d, b, ed, eb, ns) = rw (ed, rmrf) (rw (eb, rmrf) (rw ns))

  pub call_file :
      (n : ℕ) (all : Bool)
      → fs.access s p ≡ true
      → fs.stat s p ≡ some (regular n)
      → remove_node fs (rmrf fs fuel) all p s ≡ some (pos 0, fs.unlink s p)
  unfolding remove_node
  call_file n all there h = rw there (rw (h, remove_node))

  pub call_directory :
      (all : Bool) (listing : List Bytes) (s' : fs.State)
      → fs.access s p ≡ true
      → fs.stat s p ≡ some directory
      → fs.readdir s p ≡ some listing
      → remove_all fs (rmrf fs fuel) p (visible all listing) s ≡ some s'
      → remove_node fs (rmrf fs fuel) all p s ≡ some (pos 0, (if all then s' else fs.rmdir s' p))
  unfolding remove_node
  call_directory all listing s' there kind listed done = rw there (
      rw (kind, remove_node)
        (rw (listed, remove_node)
          (rw (remove_each-visible fs (rmrf fs fuel) p all listing s, done, remove_node))))

module _ (fs : FileSystem) (L : IsLawful fs) (fuel : ℕ) (p : Bytes) (s : fs.State) where
  pub rmrf_plain : IsPlain p → rmrf fs (suc fuel) p s ≡ remove_node fs (rmrf fs fuel) false p s
  rmrf_plain = call_plain fs fuel p s

  pub remove_node_file :
      (n : ℕ) (all : Bool)
      → fs.stat s p ≡ some (regular n)
      → remove_node fs (rmrf fs fuel) all p s ≡ some (pos 0, fs.unlink s p)
  remove_node_file n all h = call_file fs fuel p s n all (L.access-stat s p _ h) h

  pub remove_node_directory :
      (all : Bool) (listing : List Bytes) (s' : fs.State)
      → fs.stat s p ≡ some directory
      → fs.readdir s p ≡ some listing
      → remove_all fs (rmrf fs fuel) p (visible all listing) s ≡ some s'
      → remove_node fs (rmrf fs fuel) all p s ≡ some (pos 0, (if all then s' else fs.rmdir s' p))
  remove_node_directory all listing s' kind =
      call_directory fs fuel p s all listing s' (L.access-stat s p _ kind) kind
