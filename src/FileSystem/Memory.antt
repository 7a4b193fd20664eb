-- ===== src/FileSystem/Memory.antt =====
-- A file system in memory, which meets the laws: what exists, by resolved path. Relative paths start
-- at the root.
mod Paths
mod Table
pub mod Limited
use auxiliary_tool.Common.{
  All, ◌≡◌, ◌≢◌, refl, ap, ap₂, subst, ◌∙◌, sym, ◌⊎◌, inl, inr, Bool, true, false, not, ◌&&◌, ◌||◌,
  Option, none, some, List, [], ◌∷◌, ◌++◌, append_assoc, append-nil, Bytes, codes, bytes_eq,
  bytes_eq_sound, bytes_eq_refl, arith, Bool-cases, Option-cases, if◌then◌else◌, ◌==◌, ==_iff,
  Lacks, ℕ,
}
use auxiliary_tool.FileSystem.{FileSystem, Kind, regular, directory, special}
use auxiliary_tool.FileSystem.Keys.{Key, Under, In}
use auxiliary_tool.FileSystem.Laws.{IsName, below, IsLawful}
use Paths.{is_name_sound, is_name_complete, resolve-below}
use Table.{look-all, look-delete_self, look-delete, children-delete, In-children, children_sound}
unfoldable pub use Paths.{resolve, is_name}
unfoldable pub use Table.{Nodes, look, delete, children}

abbrev stat : Nodes → Bytes → Option Kind
stat s [] = none
stat s (c ∷ p) = look (resolve (c ∷ p)) s

abbrev entries : Option Kind → List Bytes → Option (List Bytes)
entries (some directory) ns = some (codes "." ∷ codes ".." ∷ ns)
entries (some (regular n)) ns = none
entries (some special) ns = none
entries none ns = none

abbrev unlinked : Option Kind → Key → Nodes → Nodes
unlinked (some (regular n)) k s = delete k s
unlinked (some directory) k s = s
unlinked (some special) k s = s
unlinked none k s = s

abbrev emptied : Option Kind → List Bytes → Key → Nodes → Nodes
emptied (some directory) [] k s = delete k s
emptied (some directory) (n ∷ ns) k s = s
emptied (some (regular n)) ns k s = s
emptied (some special) ns k s = s
emptied none ns k s = s

abbrev is_some : Option Kind → Bool
is_some none = false
is_some (some k) = true

abbrev pub memory : FileSystem
memory = record {
  State = Nodes;
  access = λ s p. is_some (stat s p);
  stat = stat;
  readdir = λ s p. entries (stat s p) (children (resolve p) s);
  unlink = λ s p. unlinked (stat s p) (resolve p) s;
  rmdir = λ s p. emptied (stat s p) (children (resolve p) s) (resolve p) s;
}

stat-look : (s : Nodes) (p : Bytes) → p ≢ [] → stat s p ≡ look (resolve p) s
stat-look s [] np = absurd (np refl)
stat-look s (c ∷ p) np = refl

pub stat-all :
    (P : Kind → Type 0) (p : Bytes) (kind : Kind) (s : Nodes)
    → All (λ (n : Key × Kind). P n.1) s
    → stat s p ≡ some kind
    → P kind
stat-all P [] kind s h e = absurd (ground arith)
stat-all P (c ∷ p) kind s h e = look-all P (resolve (c ∷ p)) kind s h e

-- A node that goes leaves every other, and the listings of the directories that are not above it.
stat-delete :
    (s : Nodes) (p q : Bytes) → resolve q ≢ resolve p → stat (delete (resolve p) s) q ≡ stat s q
stat-delete s p [] ne = refl
stat-delete s p (c ∷ q) ne = look-delete (resolve p) (resolve (c ∷ q)) s ne

stat-delete_self : (s : Nodes) (p : Bytes) → stat (delete (resolve p) s) p ≡ none
stat-delete_self s [] = refl
stat-delete_self s (c ∷ p) = look-delete_self (resolve (c ∷ p)) s

readdir-delete :
    (s : Nodes) (p q : Bytes)
    → ¬ Under (resolve q) (resolve p)
    → memory.readdir (delete (resolve p) s) q ≡ memory.readdir s q
readdir-delete s p q u =
    ap₂ entries (stat-delete s p q (λ e. u ([], append-nil (resolve q) ∙ e)))
      (children-delete (resolve p) (resolve q) s u)

-- unlink and rmdir change nothing, or take the node away.
unlink-cases :
    (s : Nodes) (p : Bytes) → (memory.unlink s p ≡ s) ⊎ (memory.unlink s p ≡ delete (resolve p) s)
unlink-cases s p = by_kind (stat s p)
  where
    by_kind :
        (k : Option Kind)
        → (unlinked k (resolve p) s ≡ s) ⊎ (unlinked k (resolve p) s ≡ delete (resolve p) s)
    by_kind none = inl refl
    by_kind (some (regular n)) = inr refl
    by_kind (some directory) = inl refl
    by_kind (some special) = inl refl

rmdir-cases :
    (s : Nodes) (p : Bytes) → (memory.rmdir s p ≡ s) ⊎ (memory.rmdir s p ≡ delete (resolve p) s)
rmdir-cases s p = by_kind (stat s p) (children (resolve p) s)
  where
    by_kind :
        (k : Option Kind) (ns : List Bytes)
        → (emptied k ns (resolve p) s ≡ s) ⊎ (emptied k ns (resolve p) s ≡ delete (resolve p) s)
    by_kind none ns = inl refl
    by_kind (some (regular n)) ns = inl refl
    by_kind (some directory) [] = inr refl
    by_kind (some directory) (n ∷ ns) = inl refl
    by_kind (some special) ns = inl refl

module _ (s s' : Nodes) (p : Bytes) (cases : (s' ≡ s) ⊎ (s' ≡ delete (resolve p) s))
    (q : Bytes) where
  stat_changed : resolve q ≢ resolve p → stat s' q ≡ stat s q
  stat_changed ne = elim cases [
    | inl e ↦ ap (λ t. stat t q) e
    | inr e ↦ ap (λ t. stat t q) e ∙ stat-delete s p q ne
  ]

  readdir_changed : ¬ Under (resolve q) (resolve p) → memory.readdir s' q ≡ memory.readdir s q
  readdir_changed u = elim cases [
    | inl e ↦ ap (λ t. memory.readdir t q) e
    | inr e ↦ ap (λ t. memory.readdir t q) e ∙ readdir-delete s p q u
  ]

no_children :
    (s : Nodes) (p : Bytes) (ns : List Bytes)
    → ((n : Bytes) → IsName n → stat s (below p n) ≡ none)
    → children (resolve p) s ≡ ns
    → ns ≡ []
no_children s p [] gone e = refl
no_children s p (n ∷ ns) gone e =
    let (name, there) = children_sound (resolve p) n ns s e in
    let nm = is_name_sound n name in
    absurd (
      there (
        ap (λ k. look k s) (sym (resolve-below p n nm))
        ∙ sym (stat-look s (below p n) (below-ne-nil p n))
        ∙ gone n nm))
  where
    below-ne-nil : (p n : Bytes) → below p n ≢ []
    below-ne-nil [] n = λ h. cc
    below-ne-nil (c ∷ p) n = λ h. cc

pub memory-IsLawful : IsLawful memory
memory-IsLawful = record {
  resolve = resolve;
  resolve-below = λ p n np name. resolve-below p n name;
  stat-nil = λ s. refl;
  access-stat = λ s p k e. ap is_some e;
  listed = λ s p n k listing np name. listed_lem s p n k listing name;
  unlink_gone = λ s p size e. ap (λ k. stat (unlinked k (resolve p) s) p) e ∙ stat-delete_self s p;
  unlink_stat = λ s p. stat_changed s (memory.unlink s p) p (unlink-cases s p);
  unlink_readdir = λ s p. readdir_changed s (memory.unlink s p) p (unlink-cases s p);
  rmdir_gone = λ s p np kind gone.
      ap₂ (λ k ns. stat (emptied k ns (resolve p) s) p) kind (no_children s p _ gone refl)
      ∙ stat-delete_self s p;
  rmdir_stat = λ s p. stat_changed s (memory.rmdir s p) p (rmdir-cases s p);
  rmdir_readdir = λ s p. readdir_changed s (memory.rmdir s p) p (rmdir-cases s p);
}
  where
    listed_of :
        (o : Option Kind) (ns listing : List Bytes) (n : Bytes)
        → entries o ns ≡ some listing
        → In n ns
        → In n listing
    listed_of none ns listing n e i = absurd (ground arith)
    listed_of (some (regular m)) ns listing n e i = absurd (ground arith)
    listed_of (some special) ns listing n e i = absurd (ground arith)
    listed_of (some directory) ns listing n e i =
        subst (In n) {x = codes "." ∷ codes ".." ∷ ns} (ground arith) (inr (inr i))

    listed_lem :
        (s : Nodes) (p n : Bytes) (k : Kind) (listing : List Bytes)
        → IsName n
        → memory.readdir s p ≡ some listing
        → stat s (below p n) ≡ some k
        → In n listing
    listed_lem s p n k listing name r e =
        listed_of (stat s p) (children (resolve p) s) listing n r (
          In-children (resolve p) n s k (is_name_complete n name)
            (ap (λ key. look key s) (sym (resolve-below p n name)) ∙ look_of (below p n) e))
      where
        look_of : (q : Bytes) → stat s q ≡ some k → look (resolve q) s ≡ some k
        look_of [] h = absurd (ground arith)
        look_of (c ∷ q) h = h
