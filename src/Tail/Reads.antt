-- ===== src/Tail/Reads.antt =====
-- The inner loop of tail_f.
use auxiliary_tool.Common.{
  ℕ, zero, suc, ◌-◌, ◌≤◌, ◌<◌, ◌≡◌, refl, sym, ap, ◌∙◌, some, List, [], ◌∷◌, ◌++◌, append_assoc,
  Bytes, arith, Lacks, length, length-drop, take, drop, take-append-drop,
}
use auxiliary_tool.ConfigFile.{c_string}
use auxiliary_tool.Tail.{
  Line, access_error, init_error, add_watch_error, create_error, ctl_error, stat_error, open_error,
  descriptors, size_is, copied, events_are, wait_error, taken, end_loop, room, and_copied, drain,
}

-- What is printed of the file.
unfoldable pub copied_text : List Line → Bytes
copied_text [] = []
copied_text (copied s ∷ lines) = s ++ copied_text lines
copied_text (_ ∷ lines) = copied_text lines

pub copied_text-append :
    (xs ys : List Line) → copied_text (xs ++ ys) ≡ copied_text xs ++ copied_text ys
unfolding copied_text
copied_text-append [] ys = refl
copied_text-append (copied s ∷ xs) ys =
    ap (λ t. s ++ t) (copied_text-append xs ys)
    ∙ sym (append_assoc s (copied_text xs) (copied_text ys))
copied_text-append (access_error ∷ xs) ys = copied_text-append xs ys
copied_text-append (init_error ∷ xs) ys = copied_text-append xs ys
copied_text-append (add_watch_error ∷ xs) ys = copied_text-append xs ys
copied_text-append (create_error ∷ xs) ys = copied_text-append xs ys
copied_text-append (ctl_error ∷ xs) ys = copied_text-append xs ys
copied_text-append (stat_error ∷ xs) ys = copied_text-append xs ys
copied_text-append (open_error ∷ xs) ys = copied_text-append xs ys
copied_text-append (descriptors ∷ xs) ys = copied_text-append xs ys
copied_text-append ((size_is n) ∷ xs) ys = copied_text-append xs ys
copied_text-append ((events_are e) ∷ xs) ys = copied_text-append xs ys
copied_text-append (wait_error ∷ xs) ys = copied_text-append xs ys
copied_text-append ((taken e) ∷ xs) ys = copied_text-append xs ys
copied_text-append (end_loop ∷ xs) ys = copied_text-append xs ys

Lacks-take : (n : ℕ) (s : Bytes) → Lacks 0 s → Lacks 0 (take n s)
Lacks-take zero s h = tt
Lacks-take (suc n) [] h = tt
Lacks-take (suc n) (c ∷ s) (hc, h) = (hc, Lacks-take n s h)

Lacks-drop : (n : ℕ) (s : Bytes) → Lacks 0 s → Lacks 0 (drop n s)
Lacks-drop zero s h = h
Lacks-drop (suc n) [] h = tt
Lacks-drop (suc n) (c ∷ s) (hc, h) = Lacks-drop n s h

c_string-Lacks : (s : Bytes) → Lacks 0 s → c_string s ≡ s
unfolding c_string
c_string-Lacks [] h = refl
c_string-Lacks (c ∷ s) (hc, h) = ground (arith, c_string-Lacks s h)

pub Lacks-left : (xs ys : Bytes) → Lacks 0 (xs ++ ys) → Lacks 0 xs
Lacks-left [] ys h = tt
Lacks-left (x ∷ xs) ys (hx, h) = (hx, Lacks-left xs ys h)

pub Lacks-right : (xs ys : Bytes) → Lacks 0 (xs ++ ys) → Lacks 0 ys
Lacks-right [] ys h = h
Lacks-right (x ∷ xs) ys (hx, h) = Lacks-right xs ys h

pub drain_lem :
    (fuel good : ℕ) (s : Bytes)
    → Lacks 0 s
    → length s < fuel
    → (lines : List Line) × (left : Bytes) × (drain fuel good s ≡ some (lines, left))
      × (copied_text lines ++ left ≡ s)
      × (length left ≤ length s - good)
unfolding drain copied_text
drain_lem zero good s h f = absurd (omega arith)
drain_lem (suc fuel) good [] h f = ([], [], refl, refl, omega arith)
drain_lem (suc fuel) zero (c ∷ s) h f = ([], c ∷ s, refl, refl, omega arith)
drain_lem (suc fuel) (suc good) (c ∷ s) h f =
    let shorter = length-drop room (c ∷ s) in
    let (lines, left, done, whole, fewer) =
      drain_lem fuel good (drop room (c ∷ s)) (Lacks-drop room (c ∷ s) h)
        (ground (arith, length-drop room (c ∷ s))) in
    let got = c_string-Lacks (take room (c ∷ s)) (Lacks-take room (c ∷ s) h) in
    (
      copied (c_string (take room (c ∷ s))) ∷ lines,
      left,
      ap (and_copied (take room (c ∷ s))) done,
      append_assoc (c_string (take room (c ∷ s))) (copied_text lines) left
          ∙ ap (λ t. c_string (take room (c ∷ s)) ++ t) whole
          ∙ ap (λ t. t ++ drop room (c ∷ s)) got
          ∙ take-append-drop room (c ∷ s),
      omega (arith, shorter),
    )
