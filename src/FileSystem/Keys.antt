-- ===== src/FileSystem/Keys.antt =====
-- Resolved paths, as lists of names: one lies under another, or they lie apart.
use auxiliary_tool.Common.{
  ◌≡◌, ◌≢◌, refl, ap, ap₂, subst, ◌∙◌, sym, ◌⊎◌, inl, inr, List, [], ◌∷◌, ◌++◌, append_assoc, Bytes,
  bytes_eq, bytes_eq_sound, bytes_eq_refl, All, arith, Bool-cases, false,
}

abbrev pub Key : Type 0
Key = List Bytes

abbrev pub Under : Key → Key → Type 0
Under k l = (r : Key) × (k ++ r ≡ l)

abbrev pub Apart : Key → Key → Type 0
Apart k l = (¬ Under k l) × (¬ Under l k)

-- The head and the tail of equal lists.
cons_injective : {x y : Bytes} {k l : Key} → x ∷ k ≡ y ∷ l → (x ≡ y) × (k ≡ l)
cons_injective e = ground arith

pub Under-of_snoc : (k : Key) (n : Bytes) (l : Key) → Under (k ++ n ∷ []) l → Under k l
Under-of_snoc k n l (r, e) = (n ∷ r, sym (append_assoc k (n ∷ []) r) ∙ e)

Under-snoc : (l k : Key) (n : Bytes) → Under l (k ++ n ∷ []) → Under l k ⊎ (l ≡ k ++ n ∷ [])
Under-snoc [] k n u = inl (k, refl)
Under-snoc (x ∷ []) [] n (r, e) = inr (ap (λ t. t ∷ []) (cons_injective e).0)
Under-snoc (x ∷ y ∷ l) [] n (r, e) = absurd (ground arith)
Under-snoc (x ∷ l) (y ∷ k) n (r, e) = elim (Under-snoc l k n (r, (cons_injective e).1)) [
  | inl (r', e') ↦ inl (r', ap₂ (λ a b. a ∷ b) (cons_injective e).0 e')
  | inr e' ↦ inr (ap₂ (λ a b. a ∷ b) (cons_injective e).0 e')
]

pub Apart-snoc : (k l : Key) (n : Bytes) → Apart k l → Apart k (l ++ n ∷ [])
Apart-snoc k l n (nu, nv) = (
  (λ u. elim (Under-snoc k l n u) [ inl v ↦ nu v | inr e ↦ nv (n ∷ [], sym e) ]),
  (λ u. nv (Under-of_snoc l n k u)),
)

-- A path is not under its own child.
pub not-Under_child : (k : Key) (n : Bytes) → ¬ Under (k ++ n ∷ []) k
not-Under_child [] n (r, e) = cc
not-Under_child (x ∷ k) n (r, e) = not-Under_child k n (r, (cons_injective e).1)

not-Under_sibling : (k : Key) (m n : Bytes) → m ≢ n → ¬ Under (k ++ m ∷ []) (k ++ n ∷ [])
not-Under_sibling [] m n ne (r, e) = ne (cons_injective e).0
not-Under_sibling (x ∷ k) m n ne (r, e) = not-Under_sibling k m n ne (r, (cons_injective e).1)

pub Apart-siblings : (k : Key) (m n : Bytes) → m ≢ n → Apart (k ++ m ∷ []) (k ++ n ∷ [])
Apart-siblings k m n ne = (not-Under_sibling k m n ne, not-Under_sibling k n m (λ e. ne (sym e)))

abbrev pub In : Bytes → List Bytes → Type 0
In n [] = ⊥
In n (m ∷ ms) = (n ≡ m) ⊎ In n ms

-- A name is in a list, or differs from every name of it.
pub In-or-fresh : (n : Bytes) (ms : List Bytes) → In n ms ⊎ All (λ m. m ≢ n) ms
In-or-fresh n [] = inr tt
In-or-fresh n (m ∷ ms) = elim (Bool-cases (bytes_eq n m)) [
  | inl e ↦ inl (inl (bytes_eq_sound n m e))
  | inr e ↦ elim (In-or-fresh n ms) [
    | inl i ↦ inl (inr i)
    | inr fresh ↦ inr ((λ (q : m ≡ n). differs q e), fresh)
  ]
]
  where
    differs : m ≡ n → bytes_eq n m ≡ false → ⊥
    differs q e = ground (arith, bytes_eq_refl n, ap (bytes_eq n) q)

pub in_all : (P : Bytes → Type 0) (n : Bytes) (ms : List Bytes) → In n ms → All P ms → P n
in_all P n [] i h = absurd i
in_all P n (m ∷ ms) (inl e) (h, hs) = subst P (sym e) h
in_all P n (m ∷ ms) (inr i) (h, hs) = in_all P n ms i hs
