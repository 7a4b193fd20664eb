-- ===== src/Split.antt =====
-- 007/main.c: split, with strtok_r, and split_with_empty, with strsep. Both work on a copy of the
-- text that malloc has given just its length, without the terminator: `beyond` is what lies behind
-- it in memory, and the copy as a C string goes on there.
pub mod Strtok
pub mod Strsep
mod Tests
use auxiliary_tool.Common.{
  ℕ, zero, suc, ◌==◌, ◌||◌, Bool, false, not, Option, none, some, List, [], ◌∷◌, ◌++◌, Bytes, codes,
  ℤ, pos, minus_one, if◌then◌else◌,
}
use auxiliary_tool.ConfigFile.{span, c_string}

abbrev pub is_delim : Bytes → ℕ → Bool
is_delim [] c = false
is_delim (d ∷ delim) c = c == d || is_delim delim c

abbrev pub is_kept : Bytes → ℕ → Bool
is_kept delim c = not (is_delim delim c)

-- What the save pointer points to: the delimiter that ends a token is overwritten.
unfoldable pub after_token : Bytes → Bytes
after_token [] = []
after_token (d ∷ rest) = rest

unfoldable pub token_at : Bytes → Bytes → Option (Bytes × Bytes)
token_at delim [] = none
token_at delim (c ∷ s) =
    let (token, tail) = span (is_kept delim) (c ∷ s) in some (token, after_token tail)

-- strtok_r: what it returns, and the text that its next call goes on with.
unfoldable pub strtok_r : Bytes → Bytes → Option (Bytes × Bytes)
strtok_r delim s = token_at delim (span (is_delim delim) s).1

-- The inner loop. The fuel bounds its rounds.
unfoldable pub subtokens : ℕ → Bytes → Bytes → Option (List Bytes)
subtokens zero delim s = none
subtokens (suc fuel) delim s = elim (strtok_r delim s) [
  | none ↦ some []
  | some (token, rest) ↦ elim (subtokens fuel delim rest) [
    | none ↦ none
    | some tokens ↦ some (token ∷ tokens)
  ]
]

-- The inner loop where there is a subdelim.
unfoldable pub below_token : ℕ → Option Bytes → Bytes → Option (List Bytes)
below_token fuel none token = some []
below_token fuel (some subdelim) token = subtokens fuel subdelim token

-- The outer loop: each token with the subtokens that are printed below it.
unfoldable pub tokens : ℕ → Bytes → Option Bytes → Bytes → Option (List (Bytes × List Bytes))
tokens zero delim subdelim s = none
tokens (suc fuel) delim subdelim s = elim (strtok_r delim s) [
  | none ↦ some []
  | some (token, rest) ↦ elim (below_token fuel subdelim token) [
    | none ↦ none
    | some subs ↦ elim (tokens fuel delim subdelim rest) [
      | none ↦ none
      | some more ↦ some ((token, subs) ∷ more)
    ]
  ]
]

-- A null pointer is `none`.
unfoldable pub split :
    ℕ
    → Bool
    → Bytes
    → Option Bytes
    → Option Bytes
    → Option Bytes
    → Option (ℤ × List (Bytes × List Bytes))
split fuel malloc_ok beyond none delim subdelim = some (minus_one, [])
split fuel malloc_ok beyond (some str) none subdelim = some (minus_one, [])
split fuel malloc_ok beyond (some str) (some delim) subdelim =
    if not malloc_ok
    then some (minus_one, [])
    else elim (tokens fuel delim subdelim (c_string (str ++ beyond))) [
      | none ↦ none
      | some printed ↦ some (pos 0, printed)
    ]

-- Where strsep leaves the pointer.
unfoldable pub behind : Bytes → Option Bytes
behind [] = none
behind (d ∷ rest) = some rest

-- strsep: the token, and what the pointer then points to.
unfoldable pub strsep : Bytes → Bytes → Bytes × Option Bytes
strsep delim s = let (token, tail) = span (is_kept delim) s in (token, behind tail)

-- The loop of split_with_empty: each token with what is printed as the rest.
unfoldable pub fields : ℕ → Bytes → Option Bytes → Option (List (Bytes × Option Bytes))
fields fuel delim none = some []
fields zero delim (some s) = none
fields (suc fuel) delim (some s) =
    let (token, rest) = strsep delim s in
    elim (fields fuel delim rest) [ none ↦ none | some more ↦ some ((token, rest) ∷ more) ]

-- What is returned is `none` where the function ends without a return statement.
unfoldable pub split_with_empty :
    ℕ → Bool → Bytes → Bytes → Bytes → Option (Option ℤ × List (Bytes × Option Bytes))
split_with_empty fuel malloc_ok beyond str delim =
    if not malloc_ok
    then some (some minus_one, [])
    else elim (fields fuel delim (some (c_string (str ++ beyond)))) [
      | none ↦ none
      | some printed ↦ some (none, printed)
    ]

abbrev pub aa : Bytes
aa = codes ";try;;;;0;0;0;0;"

-- main of 007/main.c: what it returns, and what it prints before, in and after split_with_empty.
unfoldable pub main : ℕ → Bool → Bytes → Option (ℤ × Bytes × List (Bytes × Option Bytes) × Bytes)
main fuel malloc_ok beyond = elim (split_with_empty fuel malloc_ok beyond aa (codes ";")) [
  | none ↦ none
  | some (_, printed) ↦
      some (
        pos 0,
        codes "before " ++ (aa ++ codes "\n"),
        printed,
        codes "after " ++ (aa ++ codes "\n"),
      )
]
