-- ===== src/Rmrf/Names.antt =====
-- The entries that the loop of rmrf passes over, and the loop without them.
use auxiliary_tool.Common.{
  ◌≡◌, ◌≢◌, refl, sym, ap, ◌==◌, Bool, true, false, inl, inr, Option, none, some, List, [], ◌∷◌,
  Bytes, codes, bytes_eq, bytes_eq_sound, ℤ, Bool-cases, Option-cases, if◌then◌else◌,
}
use auxiliary_tool.FileSystem.{FileSystem}
use auxiliary_tool.FileSystem.Keys.{In}
use auxiliary_tool.FileSystem.Laws.{IsName, below}
use auxiliary_tool.Rmrf.{is_hidden, is_skipped, remove_each}

unfoldable pub visible : Bool → List Bytes → List Bytes
visible all [] = []
visible all (n ∷ ms) = let rest = visible all ms in if is_skipped all n then rest else n ∷ rest

-- The names that do not begin with ".".
unfoldable pub unhidden : List Bytes → List Bytes
unhidden [] = []
unhidden ([] ∷ ms) = [] ∷ unhidden ms
unhidden ((c ∷ n) ∷ ms) = let rest = unhidden ms in if c == b'.' then rest else (c ∷ n) ∷ rest

pub visible-unhidden : (ms : List Bytes) → visible true ms ≡ unhidden ms
unfolding visible unhidden is_skipped is_hidden
visible-unhidden [] = refl
visible-unhidden ([] ∷ ms) = ap (λ r. [] ∷ r) (visible-unhidden ms)
visible-unhidden ((c ∷ n) ∷ ms) = rw (visible-unhidden ms)

pub In-visible :
    (all : Bool) (n : Bytes) (ms : List Bytes)
    → In n ms
    → is_skipped all n ≡ false
    → In n (visible all ms)
unfolding visible
In-visible all n [] i h = i
In-visible all n (m ∷ ms) (inl e) h = rw (sym e) (rw h (inl refl))
In-visible all n (m ∷ ms) (inr i) h = elim (Bool-cases (is_skipped all m)) [
  | inl skip ↦ rw skip (In-visible all n ms i h)
  | inr keep ↦ rw keep (inr (In-visible all n ms i h))
]

bytes_eq_differs : (s t : Bytes) → t ≢ s → bytes_eq s t ≡ false
bytes_eq_differs s t ne = elim (Bool-cases (bytes_eq s t)) [
  | inl e ↦ absurd (ne (sym (bytes_eq_sound s t e)))
  | inr e ↦ e
]

pub name-not_skipped : (n : Bytes) → IsName n → is_skipped false n ≡ false
unfolding is_skipped
name-not_skipped n h =
    rw (bytes_eq_differs (codes ".") n h.ne_self, bytes_eq_differs (codes "..") n h.ne_parent)

module _ (fs : FileSystem) (remove : Bytes → fs.State → Option (ℤ × fs.State)) (p : Bytes) where
  -- The loop over entries that it does not skip.
  unfoldable pub remove_all : List Bytes → fs.State → Option fs.State
  remove_all [] s = some s
  remove_all (n ∷ ms) s = elim (remove (below p n) s) [
    | none ↦ none
    | some (_, s') ↦ remove_all ms s'
  ]

  pub remove_each-visible :
      (all : Bool) (listing : List Bytes) (s : fs.State)
      → remove_each fs remove all p listing s ≡ remove_all (visible all listing) s
  unfolding remove_each visible remove_all
  remove_each-visible all [] s = refl
  remove_each-visible all (n ∷ ms) s = elim (Bool-cases (is_skipped all n)) [
    | inl skip ↦ rw (skip, remove_each) (remove_each-visible all ms s)
    | inr keep ↦
        rw (keep, remove_each)
          (elim (Option-cases (remove (below p n) s)) [
            | inl e ↦ rw (e, remove_each, remove_all)
            | inr ((r, s'), e) ↦ rw (e, remove_each, remove_all) (remove_each-visible all ms s')
          ])
  ]
