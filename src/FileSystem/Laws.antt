-- ===== src/FileSystem/Laws.antt =====
-- What the documentation of the system calls promises on a file system without links, for paths
-- with no "..", and with nobody else at work.
use auxiliary_tool.Common.{
  ℕ, ◌∙◌, append-nil, ◌≡◌, ◌≢◌, sym, true, none, some, List, [], ◌∷◌, ◌++◌, Bytes, codes, Lacks,
  ◌⊎◌, ◌<◌, length, All,
}
use auxiliary_tool.StdString.{npos}
use auxiliary_tool.FileSystem.{FileSystem, Kind, regular, directory}
use auxiliary_tool.FileSystem.Keys.{Key, Under, Apart, In}

-- A name that an entry of a directory other than "." and ".." can have.
pub record IsName (n : Bytes) : Type 0 where
  pub ne_nil : n ≢ []
  pub no_slash : Lacks b'/' n
  pub ne_self : n ≢ codes "."
  pub ne_parent : n ≢ codes ".."

abbrev pub below : Bytes → Bytes → Bytes
below p n = p ++ (codes "/" ++ n)

pub record IsLawful (fs : FileSystem) : Type 0 where
  -- Path resolution: a child's path resolves to the directory's names and one more.
  pub resolve : Bytes → Key
  pub resolve-below : (p n : Bytes) → p ≢ [] → IsName n → resolve (below p n) ≡ resolve p ++ n ∷ []
  pub stat-nil : (s : fs.State) → fs.stat s [] ≡ none
  pub access-stat :
      (s : fs.State) (p : Bytes) (k : Kind) → fs.stat s p ≡ some k → fs.access s p ≡ true
  -- A listing holds every name under which something exists.
  pub listed :
      (s : fs.State) (p n : Bytes) (k : Kind) (listing : List Bytes)
      → p ≢ []
      → IsName n
      → fs.readdir s p ≡ some listing
      → fs.stat s (below p n) ≡ some k
      → In n listing
  -- unlink removes a regular file, rmdir a directory that shows nothing, and neither touches what
  -- resolves elsewhere.
  pub unlink_gone :
      (s : fs.State) (p : Bytes) (size : ℕ)
      → fs.stat s p ≡ some (regular size)
      → fs.stat (fs.unlink s p) p ≡ none
  pub unlink_stat :
      (s : fs.State) (p q : Bytes) → resolve q ≢ resolve p → fs.stat (fs.unlink s p) q ≡ fs.stat s q
  pub unlink_readdir :
      (s : fs.State) (p q : Bytes)
      → ¬ Under (resolve q) (resolve p)
      → fs.readdir (fs.unlink s p) q ≡ fs.readdir s q
  pub rmdir_gone :
      (s : fs.State) (p : Bytes)
      → p ≢ []
      → fs.stat s p ≡ some directory
      → ((n : Bytes) → IsName n → fs.stat s (below p n) ≡ none)
      → fs.stat (fs.rmdir s p) p ≡ none
  pub rmdir_stat :
      (s : fs.State) (p q : Bytes) → resolve q ≢ resolve p → fs.stat (fs.rmdir s p) q ≡ fs.stat s q
  pub rmdir_readdir :
      (s : fs.State) (p q : Bytes)
      → ¬ Under (resolve q) (resolve p)
      → fs.readdir (fs.rmdir s p) q ≡ fs.readdir s q

-- An entry that readdir gives: ".", "..", or a name, whose path is shorter than npos.
abbrev pub IsEntry : Bytes → Bytes → Type 0
IsEntry p n = (n ≡ codes ".") ⊎ ((n ≡ codes "..") ⊎ (IsName n × (length (below p n) < npos)))

-- A listing holds nothing else.
pub record ListsNames (fs : FileSystem) : Type 0 where
  pub lists :
      (s : fs.State) (p : Bytes) (listing : List Bytes)
      → fs.readdir s p ≡ some listing
      → All (IsEntry p) listing

module _ (fs : FileSystem) (L : IsLawful fs) where
  -- Two states differ at most at and below a path, and in the listings of the directories above it.
  pub record Same (s s' : fs.State) (k : Key) : Type 0 where
    pub stats : (q : Bytes) → ¬ Under k (L.resolve q) → fs.stat s' q ≡ fs.stat s q
    pub listings : (q : Bytes) → Apart k (L.resolve q) → fs.readdir s' q ≡ fs.readdir s q

  pub unlink-Same : (s : fs.State) (p : Bytes) → Same s (fs.unlink s p) (L.resolve p)
  unlink-Same s p = record {
    stats = λ q u. L.unlink_stat s p q (λ e. u ([], append-nil (L.resolve p) ∙ sym e));
    listings = λ q a. L.unlink_readdir s p q a.1;
  }

  pub rmdir-Same : (s : fs.State) (p : Bytes) → Same s (fs.rmdir s p) (L.resolve p)
  rmdir-Same s p = record {
    stats = λ q u. L.rmdir_stat s p q (λ e. u ([], append-nil (L.resolve p) ∙ sym e));
    listings = λ q a. L.rmdir_readdir s p q a.1;
  }
