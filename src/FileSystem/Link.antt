-- ===== src/FileSystem/Link.antt =====
-- A file system with one symbolic link to a directory more, for paths that begin with the link as it is
-- written. access, stat and readdir follow a link that is the last name of a path, unlink and rmdir
-- do not, and rmdir refuses it. What unlink does with it is left to the other file system.
use auxiliary_tool.Common.{
  ◌≡◌, refl, arith, Bool, true, false, Option, none, some, [], ◌∷◌, ◌++◌, Bytes, ◌==◌,
  if◌then◌else◌,
}
use auxiliary_tool.FileSystem.{FileSystem}

-- What is behind a prefix.
unfoldable pub behind_prefix : Bytes → Bytes → Option Bytes
behind_prefix [] p = some p
behind_prefix (c ∷ prefix) [] = none
behind_prefix (c ∷ prefix) (d ∷ p) =
    let rest = behind_prefix prefix p in if c == d then rest else none

-- The path behind the link, which goes on with a slash, or ends there if `last` says so.
unfoldable pub redirect : Bool → Bytes → Bytes → Option Bytes → Bytes
redirect last target p none = p
redirect true target p (some []) = target
redirect false target p (some []) = p
redirect last target p (some (c ∷ rest)) = if c == b'/' then target ++ (c ∷ rest) else p

-- Whether a path is the link.
unfoldable pub is_link : Option Bytes → Bool
is_link none = false
is_link (some []) = true
is_link (some (c ∷ rest)) = false

abbrev pub with_link : FileSystem → Bytes → Bytes → FileSystem
with_link fs link target = record {
  State = fs.State;
  access = λ s p. fs.access s (redirect true target p (behind_prefix link p));
  stat = λ s p. fs.stat s (redirect true target p (behind_prefix link p));
  readdir = λ s p. fs.readdir s (redirect true target p (behind_prefix link p));
  unlink = λ s p. fs.unlink s (redirect false target p (behind_prefix link p));
  rmdir = λ s p.
      if is_link (behind_prefix link p)
      then s
      else fs.rmdir s (redirect false target p (behind_prefix link p));
}

behind_prefix-append : (l r : Bytes) → behind_prefix l (l ++ r) ≡ some r
unfolding behind_prefix
behind_prefix-append [] r = refl
behind_prefix-append (c ∷ l) r = ground (arith, behind_prefix-append l r)

pub behind_prefix_self : (l : Bytes) → behind_prefix l l ≡ some []
unfolding behind_prefix
behind_prefix_self [] = refl
behind_prefix_self (c ∷ l) = ground (arith, behind_prefix_self l)

-- A path below the link is the path below its target.
pub redirect-below :
    (last : Bool) (l q r : Bytes)
    → redirect last q (l ++ (b'/' ∷ r)) (behind_prefix l (l ++ (b'/' ∷ r))) ≡ q ++ (b'/' ∷ r)
unfolding redirect
redirect-below true l q r = rw (behind_prefix-append l (b'/' ∷ r), redirect) refl
redirect-below false l q r = rw (behind_prefix-append l (b'/' ∷ r), redirect) refl

pub is_link-below : (l r : Bytes) → is_link (behind_prefix l (l ++ (b'/' ∷ r))) ≡ false
unfolding is_link
is_link-below l r = rw (behind_prefix-append l (b'/' ∷ r), is_link) refl
