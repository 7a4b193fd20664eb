-- ===== src/FileSystem/Memory/Table.antt =====
-- The nodes of a file system in memory, by resolved path.
use auxiliary_tool.Common.{
  All, ◌≡◌, ◌≢◌, refl, ap, ap₂, subst, ◌∙◌, sym, inl, inr, Bool, true, false, ◌&&◌, Option, none,
  some, List, [], ◌∷◌, ◌++◌, Bytes, bytes_eq, bytes_eq_sound, bytes_eq_refl, arith, Bool-cases,
  Option-cases, if◌then◌else◌,
}
use auxiliary_tool.FileSystem.{Kind}
use auxiliary_tool.FileSystem.Keys.{Key, Under, In}
use auxiliary_tool.FileSystem.Memory.Paths.{is_name}

key_eq : Key → Key → Bool
key_eq [] [] = true
key_eq [] (y ∷ l) = false
key_eq (x ∷ k) [] = false
key_eq (x ∷ k) (y ∷ l) = bytes_eq x y && key_eq k l

key_eq_refl : (k : Key) → key_eq k k ≡ true
unfolding key_eq
key_eq_refl [] = refl
key_eq_refl (x ∷ k) = ground (arith, bytes_eq_refl x, key_eq_refl k)

key_eq_sound : (k l : Key) → key_eq k l ≡ true → k ≡ l
unfolding key_eq
key_eq_sound [] [] h = refl
key_eq_sound [] (y ∷ l) h = absurd (ground arith)
key_eq_sound (x ∷ k) [] h = absurd (ground arith)
key_eq_sound (x ∷ k) (y ∷ l) h = ground (arith, bytes_eq_sound x y, key_eq_sound k l)

abbrev pub Nodes : Type 0
Nodes = List (Key × Kind)

unfoldable pub look : Key → Nodes → Option Kind
unfolding key_eq
look k [] = none
look k ((l, kind) ∷ s) = if key_eq l k then some kind else look k s

unfoldable pub delete : Key → Nodes → Nodes
unfolding key_eq
delete k [] = []
delete k ((l, kind) ∷ s) = let rest = delete k s in if key_eq l k then rest else (l, kind) ∷ rest

-- The name by which a node is an entry of a directory.
child_of : Key → Key → Option Bytes
child_of [] [] = none
child_of [] (n ∷ []) = if is_name n then some n else none
child_of [] (n ∷ m ∷ l) = none
child_of (x ∷ k) [] = none
child_of (x ∷ k) (y ∷ l) = let rest = child_of k l in if bytes_eq x y then rest else none

add_name : Option Bytes → List Bytes → List Bytes
add_name none ns = ns
add_name (some n) ns = n ∷ ns

unfoldable pub children : Key → Nodes → List Bytes
unfolding child_of add_name is_name
children k [] = []
children k ((l, kind) ∷ s) = add_name (child_of k l) (children k s)

pub look-all :
    (P : Kind → Type 0) (k : Key) (kind : Kind) (s : Nodes)
    → All (λ (n : Key × Kind). P n.1) s
    → look k s ≡ some kind
    → P kind
unfolding look
look-all P k kind [] h e = absurd (ground arith)
look-all P k kind ((l, kind') ∷ s) (h, hs) e = elim (Bool-cases (key_eq l k)) [
  | inl here ↦ subst P {x = kind'} (ground arith) h
  | inr there ↦ look-all P k kind s hs (ground arith)
]

pub look-delete_self : (k : Key) (s : Nodes) → look k (delete k s) ≡ none
unfolding look delete
look-delete_self k [] = refl
look-delete_self k ((l, kind) ∷ s) = ground (arith, look-delete_self k s)

pub look-delete : (k k' : Key) (s : Nodes) → k' ≢ k → look k' (delete k s) ≡ look k' s
unfolding look delete
look-delete k k' [] ne = refl
look-delete k k' ((l, kind) ∷ s) ne = elim (Bool-cases (key_eq l k)) [
  | inl e ↦ elim (Bool-cases (key_eq l k')) [
    | inl e' ↦ absurd (ne (sym (key_eq_sound l k' e') ∙ key_eq_sound l k e))
    | inr e' ↦ rw (e, e') (look-delete k k' s ne)
  ]
  | inr e ↦ rw e (ap (λ t. if key_eq l k' then some kind else t) (look-delete k k' s ne))
]

child_of_sound :
    (k l : Key) (n : Bytes) → child_of k l ≡ some n → (l ≡ k ++ n ∷ []) × (is_name n ≡ true)
unfolding child_of
child_of_sound [] [] n h = absurd (ground arith)
child_of_sound [] (m ∷ []) n h = elim (Bool-cases (is_name m)) [
  | inl e ↦ let same : m ≡ n = ground arith in (ap (λ t. t ∷ []) same, rw (sym same) e)
  | inr e ↦ absurd (ground arith)
]
child_of_sound [] (m ∷ m' ∷ l) n h = absurd (ground arith)
child_of_sound (x ∷ k) [] n h = absurd (ground arith)
child_of_sound (x ∷ k) (y ∷ l) n h = elim (Bool-cases (bytes_eq x y)) [
  | inl e ↦
      let rest = child_of_sound k l n (ground arith) in
      (ap₂ (λ a b. a ∷ b) (sym (bytes_eq_sound x y e)) rest.0, rest.1)
  | inr e ↦ absurd (ground arith)
]

child_of_complete : (k : Key) (n : Bytes) → is_name n ≡ true → child_of k (k ++ n ∷ []) ≡ some n
unfolding child_of
child_of_complete [] n h = rw h
child_of_complete (x ∷ k) n h = rw (bytes_eq_refl x) (child_of_complete k n h)

pub children-delete :
    (k k' : Key) (s : Nodes) → ¬ Under k' k → children k' (delete k s) ≡ children k' s
unfolding children delete add_name
children-delete k k' [] u = refl
children-delete k k' ((l, kind) ∷ s) u = elim (Bool-cases (key_eq l k)) [
  | inl e ↦ elim (Option-cases (child_of k' l)) [
    | inl none_here ↦ rw (e, none_here) (children-delete k k' s u)
    | inr (n, here) ↦ absurd (u (n ∷ [], sym (child_of_sound k' l n here).0 ∙ key_eq_sound l k e))
  ]
  | inr e ↦ rw e (ap (add_name (child_of k' l)) (children-delete k k' s u))
]

In-add_name : (n : Bytes) (o : Option Bytes) (ns : List Bytes) → In n ns → In n (add_name o ns)
unfolding add_name
In-add_name n none ns i = i
In-add_name n (some m) ns i = inr i

pub In-children :
    (k : Key) (n : Bytes) (s : Nodes) (kind : Kind)
    → is_name n ≡ true
    → look (k ++ n ∷ []) s ≡ some kind
    → In n (children k s)
unfolding children look add_name
In-children k n [] kind h e = absurd (ground arith)
In-children k n ((l, kind') ∷ s) kind h e = elim (Bool-cases (key_eq l (k ++ n ∷ []))) [
  | inl here ↦ rw (key_eq_sound l (k ++ n ∷ []) here, child_of_complete k n h) (inl refl)
  | inr there ↦
      In-add_name n (child_of k l) (children k s) (In-children k n s kind h (ground arith))
]

pub children_sound :
    (k : Key) (n : Bytes) (ns : List Bytes) (s : Nodes)
    → children k s ≡ n ∷ ns
    → (is_name n ≡ true) × ((look (k ++ n ∷ []) s ≡ none) → ⊥)
unfolding children look add_name
children_sound k n ns [] e = absurd (ground arith)
children_sound k n ns ((l, kind) ∷ s) e = elim (Option-cases (child_of k l)) [
  | inl none_here ↦
      let (name, some_there) = children_sound k n ns s (ground arith) in
      (
        name,
        λ gone. some_there (elim (Bool-cases (key_eq l (k ++ n ∷ []))) [
          | inl here ↦ absurd (ground arith)
          | inr there ↦ ground arith
        ]),
      )
  | inr (m, here) ↦
      let same : m ≡ n = ground arith in
      let (at, name) = child_of_sound k l m here in
      (
        rw (sym same) name,
        λ gone. absurd (
            ground (
              arith,
              key_eq_refl l,
              ap (key_eq l) at,
              ap (λ t. look (k ++ t ∷ []) ((l, kind) ∷ s)) same,
            )),
      )
]
