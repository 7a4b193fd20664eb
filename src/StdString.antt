-- ===== src/StdString.antt =====
-- What the sources call of std::string: find_last_of for one character, and substr, with the
-- size_t arithmetic of npos and the exception of substr.
use auxiliary_tool.Common.{
  ℕ, suc, ◌+◌, ◌-◌, ◌≤◌, ◌<◌, ◌≡◌, refl, ap, ◌∙◌, ◌⊎◌, inl, inr, ◌&&◌, Option, none, some, [], ◌∷◌,
  ◌++◌, arith, Bytes, size_mod, ltb, leb, ◌==◌, ==_iff, Bool-cases, if◌then◌else◌, length,
  length-append, take, drop, take-append, drop-append, Lacks,
}

abbrev pub npos : ℕ
npos = size_mod - 1

-- The last index from `i` on that holds `c` and is at most `upto`; `best` if there is none.
last_of : ℕ → Bytes → ℕ → ℕ → ℕ → ℕ
last_of c [] i upto best = best
last_of c (x ∷ xs) i upto best =
    last_of c xs (suc i) upto (if x == c && leb i upto then i else best)

unfoldable pub find_last_of : Bytes → ℕ → ℕ → ℕ
unfolding last_of
find_last_of s c upto = last_of c s 0 upto npos

-- `none` is std::out_of_range.
unfoldable pub substr : Bytes → ℕ → ℕ → Option Bytes
substr s start count = if ltb (length s) start then none else some (take count (drop start s))

module _ (c upto : ℕ) where
  last_of-append :
      (xs ys : Bytes) (i best : ℕ)
      → last_of c (xs ++ ys) i upto best
        ≡ last_of c ys (i + length xs) upto (last_of c xs i upto best)
  unfolding last_of
  last_of-append [] ys i best = let e : i + 0 ≡ i = omega arith in rw e
  last_of-append (x ∷ xs) ys i best =
      let e : suc i + length xs ≡ i + suc (length xs) = omega arith in
      rw (last_of-append xs ys (suc i), e)

  last_of_lacking : (xs : Bytes) (i best : ℕ) → Lacks c xs → last_of c xs i upto best ≡ best
  unfolding last_of
  last_of_lacking [] i best h = refl
  last_of_lacking (x ∷ xs) i best (hx, h) = ground (arith, last_of_lacking xs (suc i) best h)

  last_of_beyond : (xs : Bytes) (i best : ℕ) → upto < i → last_of c xs i upto best ≡ best
  unfolding last_of
  last_of_beyond [] i best h = refl
  last_of_beyond (x ∷ xs) i best h = ground (arith, last_of_beyond xs (suc i) best)

  -- The last `c` within reach, when the bytes from there to the end of the reach hold no other.
  last_of_found :
      (d b e : Bytes) (best : ℕ)
      → Lacks c b
      → length d ≤ upto
      → upto ≤ length d + length b
      → last_of c (d ++ c ∷ (b ++ e)) 0 upto best ≡ length d
  last_of_found d b e best lacks reach beyond = rw (last_of-append d) (
      unfold last_of in
      ground (
        arith,
        last_of-append b e (suc (0 + length d)) (0 + length d),
        last_of_lacking b (suc (0 + length d)) (0 + length d) lacks,
        last_of_beyond e (suc (0 + length d) + length b) (0 + length d),
      ))

  last_of_last :
      (d b : Bytes) (best : ℕ)
      → Lacks c b
      → length d ≤ upto
      → last_of c (d ++ c ∷ b) 0 upto best ≡ length d
  last_of_last d b best lacks reach = rw (last_of-append d) (
      unfold last_of in ground (arith, last_of_lacking b (suc (0 + length d)) (0 + length d) lacks))

  last_of_bound :
      (s : Bytes) (i best : ℕ)
      → (last_of c s i upto best ≡ best)
        ⊎ ((last_of c s i upto best < i + length s) × (last_of c s i upto best ≤ upto))
  unfolding last_of
  last_of_bound [] i best = inl refl
  last_of_bound (x ∷ s) i best =
      ground (arith, last_of_bound s (suc i) (if x == c && leb i upto then i else best))

pub find_last_of_found :
    (c upto : ℕ) (d b e : Bytes)
    → Lacks c b
    → length d ≤ upto
    → upto ≤ length d + length b
    → find_last_of (d ++ c ∷ (b ++ e)) c upto ≡ length d
unfolding find_last_of
find_last_of_found c upto d b e lacks reach beyond =
    last_of_found c upto d b e npos lacks reach beyond

-- At the end of the text no byte is out of reach.
pub find_last_of_last :
    (c : ℕ) (d b : Bytes)
    → Lacks c b
    → length d + length b ≤ npos
    → find_last_of (d ++ c ∷ b) c npos ≡ length d
unfolding find_last_of
find_last_of_last c d b lacks fits = last_of_last c npos d b npos lacks (omega arith)

-- Nothing within reach: the slashes stand behind it.
pub find_last_of_before :
    (c upto : ℕ) (s t : Bytes) → Lacks c s → upto < length s → find_last_of (s ++ t) c upto ≡ npos
unfolding find_last_of
find_last_of_before c upto s t lacks h =
    rw last_of-append
      (last_of_beyond c upto t _ _ (omega arith) ∙ last_of_lacking c upto s 0 npos lacks)

-- npos, or an index of the text that is within reach.
pub find_last_of_bound :
    (s : Bytes) (c upto : ℕ)
    → (find_last_of s c upto ≡ npos)
      ⊎ ((find_last_of s c upto < length s) × (find_last_of s c upto ≤ upto))
unfolding find_last_of
find_last_of_bound s c upto = ground (arith, last_of_bound c upto s 0 npos)

-- A text holds `c` nowhere, or has a last one.
pub last_split :
    (c : ℕ) (s : Bytes) → Lacks c s ⊎ ((d : Bytes) × (b : Bytes) × (s ≡ d ++ c ∷ b) × Lacks c b)
last_split c [] = inl tt
last_split c (x ∷ s) = elim (last_split c s) [
  | inr (d, b, e, lacks) ↦ inr (x ∷ d, b, ap (λ t. x ∷ t) e, lacks)
  | inl lacks ↦ elim (Bool-cases (x == c)) [
    | inl h ↦ inr ([], s, ap (λ (t : ℕ). t ∷ s) ((==_iff x c).0 h), lacks)
    | inr h ↦ inl ((λ e. ground arith), lacks)
  ]
]

pub find_last_of_none : (c upto : ℕ) (s : Bytes) → Lacks c s → find_last_of s c upto ≡ npos
unfolding find_last_of
find_last_of_none c upto s lacks = last_of_lacking c upto s 0 npos lacks

pub substr_prefix : (s t : Bytes) (n : ℕ) → n ≡ length s → substr (s ++ t) 0 n ≡ some s
unfolding substr
substr_prefix s t n e = rw (take-append n s t e) (ground arith)

-- The part from `start` on, cut to `count` bytes.
pub substr_suffix :
    (s t : Bytes) (start count : ℕ)
    → start ≡ length s
    → substr (s ++ t) start count ≡ some (take count t)
unfolding substr
substr_suffix s t start count e = rw (drop-append start s t e, length-append s t) (ground arith)

pub substr_total :
    (s : Bytes) (start count : ℕ) → start ≤ length s → (r : Bytes) × (substr s start count ≡ some r)
unfolding substr
substr_total s start count h = (take count (drop start s), ground arith)
