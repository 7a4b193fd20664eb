-- ===== src/PathName/Total.antt =====
-- Neither function throws.
use auxiliary_tool.Common.{
  Bool, true, false, ℕ, ◌≤◌, ◌<◌, ◌≡◌, refl, Option, some, arith, Bytes, codes, length, size_add,
  if◌then◌else◌,
}
use auxiliary_tool.StdString.{npos, find_last_of, find_last_of_bound, substr_total}
use auxiliary_tool.PathName.{slash, dirname, basename}

-- One past a search result is a position of the text.
past_found :
    (s : Bytes) (upto : ℕ) → length s < npos → size_add (find_last_of s slash upto) 1 ≤ length s
past_found s upto fits = omega (arith, find_last_of_bound s slash upto)

-- A branch on a test returns if both sides do.
if_returns :
    {A : Type 0} (b : Bool) (x y : Option A)
    → (r : A) × (x ≡ some r)
    → (r : A) × (y ≡ some r)
    → (r : A) × ((if b then x else y) ≡ some r)
if_returns true x y hx hy = hx
if_returns false x y hx hy = hy

-- For every text shorter than npos both functions return: no call of substr throws.
pub dirname-basename_total :
    (path : Bytes)
    → length path < npos
    → ((r : Bytes) × (dirname path ≡ some r)) × ((r : Bytes) × (basename path ≡ some r))
unfolding dirname basename
dirname-basename_total path fits = (
  if_returns _ _ _ (substr_total path 0 _ (omega arith))
      (if_returns _ _ _ (codes ".", refl) (substr_total path 0 _ (omega arith))),
  if_returns _ _ _ (codes "/", refl)
      (if_returns _ _ _ (substr_total path _ _ (past_found path _ fits))
        (substr_total path _ _ (past_found path npos fits))),
)
