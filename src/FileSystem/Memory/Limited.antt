-- ===== src/FileSystem/Memory/Limited.antt =====
-- A file system whose listings hold names only, with paths shorter than npos: a directory for which
-- that fails cannot be read.
use auxiliary_tool.Common.{
  ◌≡◌, inl, inr, ap, subst, Bool, true, ◌&&◌, ◌||◌, Option, none, some, List, [], ◌∷◌, Bytes, codes,
  bytes_eq, bytes_eq_sound, ltb, if◌then◌else◌, length, All, Bool-cases, arith,
}
use auxiliary_tool.FileSystem.{FileSystem}
use auxiliary_tool.FileSystem.Laws.{below, IsLawful, IsEntry, ListsNames}
use auxiliary_tool.FileSystem.Memory.Paths.{is_name, is_name_sound}
use auxiliary_tool.StdString.{npos}

abbrev is_entry : Bytes → Bytes → Bool
is_entry p n =
    bytes_eq n (codes ".")
    || (bytes_eq n (codes "..") || (is_name n && ltb (length (below p n)) npos))

abbrev all_entries : Bytes → List Bytes → Bool
all_entries p [] = true
all_entries p (n ∷ ns) = is_entry p n && all_entries p ns

abbrev limit : Bytes → Option (List Bytes) → Option (List Bytes)
limit p none = none
limit p (some listing) = if all_entries p listing then some listing else none

abbrev pub limited : FileSystem → FileSystem
limited fs = record fs { readdir = λ s p. limit p (fs.readdir s p) }

limit-some :
    (p : Bytes) (o : Option (List Bytes)) (listing : List Bytes)
    → limit p o ≡ some listing
    → (o ≡ some listing) × (all_entries p listing ≡ true)
limit-some p none listing h = absurd (ground arith)
limit-some p (some l) listing h = elim (Bool-cases (all_entries p l)) [
  | inl e ↦
      let same : l ≡ listing = ground (arith, h, e) in
      (ap some same, subst (λ ns. all_entries p ns ≡ true) same e)
  | inr e ↦ absurd (ground (arith, h, e))
]

pub limited-IsLawful : (fs : FileSystem) → IsLawful fs → IsLawful (limited fs)
limited-IsLawful fs L = record {
  resolve = L.resolve;
  resolve-below = L.resolve-below;
  stat-nil = L.stat-nil;
  access-stat = L.access-stat;
  listed = λ s p n k listing np name h there.
      L.listed s p n k listing np name (limit-some p (fs.readdir s p) listing h).0 there;
  unlink_gone = L.unlink_gone;
  unlink_stat = L.unlink_stat;
  unlink_readdir = λ s p q u. ap (limit q) (L.unlink_readdir s p q u);
  rmdir_gone = L.rmdir_gone;
  rmdir_stat = L.rmdir_stat;
  rmdir_readdir = λ s p q u. ap (limit q) (L.rmdir_readdir s p q u);
}

is_entry_sound : (p n : Bytes) → is_entry p n ≡ true → IsEntry p n
is_entry_sound p n h = elim (Bool-cases (bytes_eq n (codes "."))) [
  | inl e ↦ inl (bytes_eq_sound n (codes ".") e)
  | inr e ↦ elim (Bool-cases (bytes_eq n (codes ".."))) [
    | inl e' ↦ inr (inl (bytes_eq_sound n (codes "..") e'))
    | inr e' ↦ inr (inr (is_name_sound n (ground (arith, h, e, e')), ground (arith, h, e, e')))
  ]
]

all_entries_sound : (p : Bytes) (ns : List Bytes) → all_entries p ns ≡ true → All (IsEntry p) ns
all_entries_sound p [] h = tt
all_entries_sound p (n ∷ ns) h =
    (is_entry_sound p n (ground (arith, h)), all_entries_sound p ns (ground (arith, h)))

pub limited-ListsNames : (fs : FileSystem) → ListsNames (limited fs)
limited-ListsNames fs = record {
  lists = λ s p listing h. all_entries_sound p listing (limit-some p (fs.readdir s p) listing h).1;
}
