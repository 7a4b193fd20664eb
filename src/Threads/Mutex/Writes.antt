-- ===== src/Threads/Mutex/Writes.antt =====
-- The header and the message of a line are written one after the other, as one text.
use mathlib.Core.Path.{fun_ext}
use auxiliary_tool.Common.{
  ℕ, zero, suc, ◌+◌, ◌≡◌, refl, ap, ap₂, ◌∙◌, Bool, true, false, if◌then◌else◌, List, [], ◌∷◌, ◌++◌,
  append_assoc, Bytes, bytes_eq, bytes_eq_refl, arith, length, take, drop, min,
}
use auxiliary_tool.Log.{Logger, put, write_log}

-- A text of which `k` bytes are written out before the next text comes, and then `j` more.
take-drop {ℓ} :
    {A : Type ℓ} (k j : ℕ) (xs ys : List A)
    → take k xs ++ take j (drop k xs ++ ys) ≡ take (min k (length xs) + j) (xs ++ ys)
take-drop zero j xs ys =
    let e : j ≡ min 0 (length xs) + j = omega arith in ap (λ (n : ℕ). take n (xs ++ ys)) e
take-drop (suc k) j [] ys =
    let e : j ≡ min (suc k) 0 + j = omega arith in ap (λ (n : ℕ). take n ys) e
take-drop (suc k) j (x ∷ xs) ys =
    let e : suc (min k (length xs) + j) ≡ min (suc k) (suc (length xs)) + j = omega arith in
    ap (λ r. x ∷ r) (take-drop k j xs ys) ∙ ap (λ (n : ℕ). take n (x ∷ (xs ++ ys))) e

drop-drop {ℓ} :
    {A : Type ℓ} (k j : ℕ) (xs ys : List A)
    → drop j (drop k xs ++ ys) ≡ drop (min k (length xs) + j) (xs ++ ys)
drop-drop zero j xs ys =
    let e : j ≡ min 0 (length xs) + j = omega arith in ap (λ (n : ℕ). drop n (xs ++ ys)) e
drop-drop (suc k) j [] ys =
    let e : j ≡ min (suc k) 0 + j = omega arith in ap (λ (n : ℕ). drop n ys) e
drop-drop (suc k) j (x ∷ xs) ys =
    let e : suc (min k (length xs) + j) ≡ min (suc k) (suc (length xs)) + j = omega arith in
    drop-drop k j xs ys ∙ ap (λ (n : ℕ). drop n (x ∷ (xs ++ ys))) e

put-put : (disk : Bytes → Bytes) (name a b : Bytes) → put (put disk name a) name b ≡ put disk name b
put-put disk name a b = fun_ext (λ other. same (bytes_eq name other) (disk other))
  where
    same : (t : Bool) (c : Bytes) → (if t then b else (if t then a else c)) ≡ (if t then b else c)
    same true c = refl
    same false c = refl

-- What is written out of two texts is written out of both together.
pub write_log-write_log :
    (j k : ℕ) (a b : Bytes) (s : Logger)
    → write_log j b (write_log k a s) ≡ write_log (min k (length (s.pending ++ a)) + j) (a ++ b) s
unfolding write_log
write_log-write_log j k a b s = ap₂ (λ d p. record s { disk = d; pending = p }) disk pending
  where
    held : Bytes
    held = s.pending ++ a

    both : held ++ b ≡ s.pending ++ (a ++ b)
    both = append_assoc s.pending a b

    old : Bytes
    old = s.disk s.log_file

    content :
        put s.disk s.log_file (old ++ take k held) s.log_file ++ take j (drop k held ++ b)
        ≡ old ++ take (min k (length held) + j) (s.pending ++ (a ++ b))
    content = rw (bytes_eq_refl s.log_file) (
        append_assoc old (take k held) (take j (drop k held ++ b))
        ∙ ap (λ r. old ++ r) (take-drop k j held b)
        ∙ ap (λ r. old ++ take (min k (length held) + j) r) both)

    disk :
        put
          (put s.disk s.log_file (old ++ take k held))
          s.log_file
          (put s.disk s.log_file (old ++ take k held) s.log_file ++ take j (drop k held ++ b))
        ≡ put s.disk s.log_file (old ++ take (min k (length held) + j) (s.pending ++ (a ++ b)))
    disk =
        put-put s.disk s.log_file (old ++ take k held) _ ∙ ap (λ c. put s.disk s.log_file c) content

    pending : drop j (drop k held ++ b) ≡ drop (min k (length held) + j) (s.pending ++ (a ++ b))
    pending = drop-drop k j held b ∙ ap (λ r. drop (min k (length held) + j) r) both
