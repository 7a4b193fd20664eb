-- ===== src/Split/Strtok.antt =====
-- What split prints, as an account of the text that does not run the loops.
use auxiliary_tool.Common.{
  ℕ, zero, suc, ◌+◌, ◌<◌, ◌≤◌, ◌≡◌, ◌≢◌, ◌⊎◌, refl, sym, ap, ◌∙◌, subst, Bool, true, false, not,
  inl, inr, Option, none, some, List, [], ◌∷◌, ◌++◌, append-nil, Bytes, pos, arith, Passes, Lacks,
  All, length, length-append, Bool-cases,
}
use auxiliary_tool.ConfigFile.{span, c_string}
use auxiliary_tool.ConfigFile.Scanner.{Stops, span_sound, c_string-append}
use auxiliary_tool.Split.{
  is_delim, is_kept, after_token, token_at, strtok_r, subtokens, below_token, tokens, split,
}

-- The tokens are the non-empty runs of kept bytes, with delimiters only around them.
abbrev pub Tokens : Bytes → List Bytes → Bytes → Type 0
Tokens delim [] s = Passes (is_delim delim) s
Tokens delim (t ∷ ts) s =
    (gap : Bytes) × (tail : Bytes) × (s ≡ gap ++ (t ++ tail))
    × Passes (is_delim delim) gap
    × (t ≢ [])
    × Passes (is_kept delim) t
    × Stops (is_kept delim) tail
    × Tokens delim ts tail

-- One call of strtok_r: the text is a gap, the token and a tail.
abbrev Found : Bytes → Bytes → Bytes → Bytes → Bytes → Type 0
Found delim s gap t tail =
    (strtok_r delim s ≡ some (t, after_token tail))
    × (s ≡ gap ++ (t ++ tail))
    × Passes (is_delim delim) gap
    × (t ≢ [])
    × Passes (is_kept delim) t
    × Stops (is_kept delim) tail

kept : (delim : Bytes) (c : ℕ) → is_delim delim c ≡ false → is_kept delim c ≡ true
kept delim c h = ap not h

pub delimits : (delim : Bytes) (c : ℕ) → is_kept delim c ≡ false → is_delim delim c ≡ true
delimits delim c h = elim (Bool-cases (is_delim delim c)) [
  | inl e ↦ e
  | inr e ↦ absurd (ground arith)
]

span_head : (p : ℕ → Bool) (c : ℕ) (s : Bytes) → p c ≡ true → (span p (c ∷ s)).0 ≢ []
unfolding span
span_head p c s h e = ground arith

token_at-Found :
    (delim s : Bytes)
    → Stops (is_delim delim) s
    → ((s ≡ []) × (token_at delim s ≡ none))
      ⊎ ((t : Bytes) × (tail : Bytes) × (token_at delim s ≡ some (t, after_token tail))
          × (s ≡ t ++ tail)
          × (t ≢ [])
          × Passes (is_kept delim) t
          × Stops (is_kept delim) tail)
unfolding token_at
token_at-Found delim [] stop = inl (refl, refl)
token_at-Found delim (c ∷ s) stop =
    let (whole, pass, ends) = span_sound (is_kept delim) (c ∷ s) in
    inr (
      (span (is_kept delim) (c ∷ s)).0,
      (span (is_kept delim) (c ∷ s)).1,
      refl,
      sym whole,
      span_head (is_kept delim) c s (kept delim c stop),
      pass,
      ends,
    )

strtok_r-Found :
    (delim s : Bytes)
    → ((strtok_r delim s ≡ none) × Passes (is_delim delim) s)
      ⊎ ((gap : Bytes) × (t : Bytes) × (tail : Bytes) × Found delim s gap t tail)
unfolding strtok_r
strtok_r-Found delim s =
    let (whole, pass, ends) = span_sound (is_delim delim) s in
    elim (token_at-Found delim (span (is_delim delim) s).1 ends) [
      | inl (empty, e) ↦ inl (
        e,
        subst (Passes (is_delim delim))
            (sym (append-nil _) ∙ ap (λ r. (span (is_delim delim) s).0 ++ r) (sym empty) ∙ whole)
            pass,
      )
      | inr (t, tail, e, cut, ne, pt, stop) ↦ inr (
        (span (is_delim delim) s).0,
        t,
        tail,
        (e, sym whole ∙ ap (λ r. (span (is_delim delim) s).0 ++ r) cut, pass, ne, pt, stop),
      )
    ]

-- A delimiter before the text changes no token.
Tokens-after_token :
    (delim tail : Bytes) (ts : List Bytes)
    → Stops (is_kept delim) tail
    → Tokens delim ts (after_token tail)
    → Tokens delim ts tail
unfolding after_token
Tokens-after_token delim [] ts stop h = h
Tokens-after_token delim (d ∷ rest) [] stop h = (delimits delim d stop, h)
Tokens-after_token delim (d ∷ rest) (t ∷ ts) stop (gap, tail, e, pg, ne, pt, ends, more) =
    (d ∷ gap, tail, ap (λ r. d ∷ r) e, (delimits delim d stop, pg), ne, pt, ends, more)

after_token-length : (s : Bytes) → length (after_token s) ≤ length s
unfolding after_token
after_token-length [] = omega arith
after_token-length (d ∷ s) = omega arith

-- What is left behind a token is shorter than the text.
Found-length :
    (s gap t tail : Bytes)
    → s ≡ gap ++ (t ++ tail)
    → t ≢ []
    → (length t ≤ length s) × (length (after_token tail) < length s)
Found-length s gap [] tail e ne = absurd (ne refl)
Found-length s gap (c ∷ t) tail e ne =
    let whole : length s ≡ length (gap ++ (c ∷ t ++ tail)) = ap length e in
    ground (
      arith,
      whole,
      length-append gap (c ∷ t ++ tail),
      length-append t tail,
      after_token-length tail,
    )

subtokens-Tokens :
    (fuel : ℕ) (delim s : Bytes)
    → length s < fuel
    → (ts : List Bytes) × (subtokens fuel delim s ≡ some ts) × Tokens delim ts s
unfolding subtokens
subtokens-Tokens zero delim s h = absurd (omega arith)
subtokens-Tokens (suc fuel) delim s h = elim (strtok_r-Found delim s) [
  | inl (e, pass) ↦ ([], rw (e, subtokens), pass)
  | inr (gap, t, tail, (e, cut, pass, ne, pt, stop)) ↦
      let (_, shorter) = Found-length s gap t tail cut ne in
      let (ts, done, rest) = subtokens-Tokens fuel delim (after_token tail) (omega arith) in
      (
        t ∷ ts,
        rw (e, subtokens) (rw (done, subtokens)),
        (gap, tail, cut, pass, ne, pt, stop, Tokens-after_token delim tail ts stop rest),
      )
]

-- The subtokens that are printed below a token, if there is a subdelim.
abbrev pub Below : Option Bytes → Bytes × List Bytes → Type 0
Below none (t, subs) = subs ≡ []
Below (some subdelim) (t, subs) = Tokens subdelim subs t

below_token-Below :
    (fuel : ℕ) (subdelim : Option Bytes) (t : Bytes)
    → length t < fuel
    → (subs : List Bytes) × (below_token fuel subdelim t ≡ some subs) × Below subdelim (t, subs)
unfolding below_token
below_token-Below fuel none t h = ([], refl, refl)
below_token-Below fuel (some subdelim) t h = subtokens-Tokens fuel subdelim t h

abbrev pub firsts : List (Bytes × List Bytes) → List Bytes
firsts [] = []
firsts ((t, subs) ∷ printed) = t ∷ firsts printed

tokens-Tokens :
    (fuel : ℕ) (delim : Bytes) (subdelim : Option Bytes) (s : Bytes)
    → length s + 1 < fuel
    → (printed : List (Bytes × List Bytes)) × (tokens fuel delim subdelim s ≡ some printed)
      × Tokens delim (firsts printed) s
      × All (Below subdelim) printed
unfolding tokens
tokens-Tokens zero delim subdelim s h = absurd (omega arith)
tokens-Tokens (suc fuel) delim subdelim s h = elim (strtok_r-Found delim s) [
  | inl (e, pass) ↦ ([], rw (e, tokens), pass, tt)
  | inr (gap, t, tail, (e, cut, pass, ne, pt, stop)) ↦
      let (part, shorter) = Found-length s gap t tail cut ne in
      let (subs, found, below) = below_token-Below fuel subdelim t (omega arith) in
      let (printed, done, rest, all) =
        tokens-Tokens fuel delim subdelim (after_token tail) (omega arith) in
      (
        (t, subs) ∷ printed,
        rw (e, tokens) (rw (found, tokens) (rw (done, tokens))),
        (
          gap,
          tail,
          cut,
          pass,
          ne,
          pt,
          stop,
          Tokens-after_token delim tail (firsts printed) stop rest,
        ),
        (below, all),
      )
]

-- With a text that holds no zero byte, a delim and memory for the copy, split returns 0 and prints
-- the tokens of the text and of what lies behind the copy up to the first zero byte there, each
-- with its subtokens, if the fuel exceeds the length of both by more than one.
pub split-Tokens :
    (fuel : ℕ) (beyond str delim : Bytes) (subdelim : Option Bytes)
    → Lacks 0 str
    → length (str ++ c_string beyond) + 1 < fuel
    → (printed : List (Bytes × List Bytes)) × (split fuel true beyond
          (some str)
          (some delim)
          subdelim
        ≡ some (pos 0, printed))
      × Tokens delim (firsts printed) (str ++ c_string beyond)
      × All (Below subdelim) printed
unfolding split
split-Tokens fuel beyond str delim subdelim lacks h =
    let (printed, done, cut, below) =
      tokens-Tokens fuel delim subdelim (str ++ c_string beyond) h in
    (printed, rw (c_string-append str beyond lacks, split) (rw (done, split)), cut, below)
