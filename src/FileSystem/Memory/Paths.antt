-- ===== src/FileSystem/Memory/Paths.antt =====
-- How a path is resolved to names, and which names there are.
use auxiliary_tool.Common.{
  ◌≡◌, ◌≢◌, refl, ap, ◌∙◌, sym, inl, inr, Bool, true, false, not, ◌||◌, [], ◌∷◌, ◌++◌, append_assoc,
  append-nil, Bytes, codes, bytes_eq, bytes_eq_sound, bytes_eq_refl, arith, Bool-cases,
  if◌then◌else◌, ◌==◌, Lacks,
}
use auxiliary_tool.FileSystem.Keys.{Key}
use auxiliary_tool.FileSystem.Laws.{IsName, below}

-- The names between the slashes, without empty ones and ".".
push : Bytes → Key → Key
push name k = if bytes_eq name [] || bytes_eq name (codes ".") then k else name ∷ k

split : Bytes → Bytes → Key
split [] name = push name []
split (c ∷ path) name = elim (c == b'/') [
  | true ↦ push name (split path [])
  | false ↦ split path (name ++ c ∷ [])
]

unfoldable pub resolve : Bytes → Key
unfolding split push
resolve path = split path []

has_slash : Bytes → Bool
has_slash [] = false
has_slash (c ∷ s) = c == b'/' || has_slash s

unfoldable pub is_name : Bytes → Bool
unfolding has_slash
is_name n = not (bytes_eq n [] || has_slash n || bytes_eq n (codes ".") || bytes_eq n (codes ".."))

has_slash-Lacks : (n : Bytes) → has_slash n ≡ false → Lacks b'/' n
unfolding has_slash
has_slash-Lacks [] h = tt
has_slash-Lacks (c ∷ n) h = ((λ e. ground arith), has_slash-Lacks n (ground arith))

Lacks-has_slash : (n : Bytes) → Lacks b'/' n → has_slash n ≡ false
unfolding has_slash
Lacks-has_slash [] h = refl
Lacks-has_slash (c ∷ n) (hc, h) = ground (arith, Lacks-has_slash n h)

differs : (s t : Bytes) → s ≢ t → bytes_eq s t ≡ false
differs s t ne = elim (Bool-cases (bytes_eq s t)) [
  | inl e ↦ absurd (ne (bytes_eq_sound s t e))
  | inr e ↦ e
]

differs_sound : (s t : Bytes) → bytes_eq s t ≡ false → s ≢ t
differs_sound s t h e = ground (arith, bytes_eq_refl s, ap (bytes_eq s) e)

pub is_name_sound : (n : Bytes) → is_name n ≡ true → IsName n
unfolding is_name
is_name_sound n h = record {
  ne_nil = differs_sound n [] (ground arith);
  no_slash = has_slash-Lacks n (ground arith);
  ne_self = differs_sound n (codes ".") (ground arith);
  ne_parent = differs_sound n (codes "..") (ground arith);
}

pub is_name_complete : (n : Bytes) → IsName n → is_name n ≡ true
unfolding is_name
is_name_complete n h = rw (
  differs n [] h.ne_nil,
  Lacks-has_slash n h.no_slash,
  differs n (codes ".") h.ne_self,
  differs n (codes "..") h.ne_parent,
)

split_plain : (n name : Bytes) → Lacks b'/' n → split n name ≡ push (name ++ n) []
unfolding split
split_plain [] name h = ap (λ t. push t []) (sym (append-nil name))
split_plain (c ∷ n) name (hc, h) =
    ground (arith, split_plain n (name ++ c ∷ []) h, append_assoc name (c ∷ []) n)

push-append : (name : Bytes) (k l : Key) → push name (k ++ l) ≡ push name k ++ l
unfolding push
push-append name k l = elim (Bool-cases (bytes_eq name [] || bytes_eq name (codes "."))) [
  | inl e ↦ rw e
  | inr e ↦ rw e
]

split_below : (p n name : Bytes) → split (p ++ b'/' ∷ n) name ≡ split p name ++ split n []
unfolding split
split_below [] n name = push-append name [] (split n [])
split_below (c ∷ p) n name = elim (Bool-cases (c == b'/')) [
  | inl e ↦ rw (e, split) (rw (split_below p n []) (push-append name (split p []) (split n [])))
  | inr e ↦ rw (e, split) (split_below p n (name ++ c ∷ []))
]

pub resolve-below : (p n : Bytes) → IsName n → resolve (below p n) ≡ resolve p ++ n ∷ []
unfolding resolve
resolve-below p n h =
    split_below p n []
    ∙ ap (λ t. split p [] ++ t)
        (split_plain n [] h.no_slash
          ∙ unfold push in rw (differs n [] h.ne_nil, differs n (codes ".") h.ne_self))
