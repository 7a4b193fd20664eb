-- ===== src/Split/Tests.antt =====
-- Runs of 007, as its main has them.
use auxiliary_tool.Common.{
  ◌≡◌, refl, Option, true, none, some, List, [], ◌∷◌, ◌++◌, Bytes, codes, pos, arith, Lacks, All,
}
use auxiliary_tool.ConfigFile.{span, c_string}
use auxiliary_tool.Split.{
  after_token, token_at, strtok_r, subtokens, below_token, tokens, split, behind, strsep, fields,
  split_with_empty, main,
}
use auxiliary_tool.Split.Strtok.{Tokens, Below, firsts, split-Tokens}
use auxiliary_tool.Split.Strsep.{Parts, split_with_empty-Parts}

abbrev lucky : Bytes
lucky = 0 ∷ []

abbrev unlucky : Bytes
unlucky = codes "x" ++ lucky

ranges :
    split 20 true lucky (some (codes "1-90,22")) (some (codes ",")) (some (codes "-"))
    ≡ some (pos 0, (codes "1-90", codes "1" ∷ codes "90" ∷ []) ∷ (codes "22", codes "22" ∷ []) ∷ [])
unfolding split tokens subtokens below_token strtok_r token_at after_token span c_string
ranges = refl

reads_on :
    split 20 true unlucky (some (codes "1,2")) (some (codes ",")) none
    ≡ some (pos 0, (codes "1", []) ∷ (codes "2x", []) ∷ [])
unfolding split tokens subtokens below_token strtok_r token_at after_token span c_string
reads_on = refl

empties :
    split_with_empty 20 true lucky (codes ";a") (codes ";")
    ≡ some (none, ([], some (codes "a")) ∷ (codes "a", none) ∷ [])
unfolding split_with_empty fields behind strsep span c_string
empties = refl

no_zero : Lacks 0 (codes ";a")
no_zero = ((λ e. ground arith), ((λ e. ground arith), tt))

split-Tokens_example :
    (printed : List (Bytes × List Bytes)) × (split 20 true unlucky
        (some (codes ";a"))
        (some (codes ";"))
        none
      ≡ some (pos 0, printed))
    × Tokens (codes ";") (firsts printed) (codes ";a" ++ c_string unlucky)
    × All (Below none) printed
unfolding c_string
split-Tokens_example = split-Tokens 20 unlucky (codes ";a") (codes ";") none no_zero (omega arith)

split_with_empty-Parts_example :
    (printed : List (Bytes × Option Bytes)) × (split_with_empty 20 true unlucky
        (codes ";a")
        (codes ";")
      ≡ some (none, printed))
    × Parts (codes ";") printed (some (codes ";a" ++ c_string unlucky))
unfolding c_string
split_with_empty-Parts_example =
    split_with_empty-Parts 20 unlucky (codes ";a") (codes ";") no_zero (omega arith)

main_prints :
    main 20 true lucky
    ≡ some (
      pos 0,
      codes "before ;try;;;;0;0;0;0;\n",
      ([], some (codes "try;;;;0;0;0;0;"))
          ∷ (codes "try", some (codes ";;;0;0;0;0;"))
          ∷ ([], some (codes ";;0;0;0;0;"))
          ∷ ([], some (codes ";0;0;0;0;"))
          ∷ ([], some (codes "0;0;0;0;"))
          ∷ (codes "0", some (codes "0;0;0;"))
          ∷ (codes "0", some (codes "0;0;"))
          ∷ (codes "0", some (codes "0;"))
          ∷ (codes "0", some [])
          ∷ ([], none)
          ∷ [],
      codes "after ;try;;;;0;0;0;0;\n",
    )
unfolding main split_with_empty fields behind strsep span c_string
main_prints = refl
