-- ===== src/ConfigFile/Scanner.antt =====
-- Which lines sscanf takes apart, and into what.
use auxiliary_tool.Common.{
  ℕ, ◌≡◌, ◌≢◌, refl, ap₂, subst, ◌∙◌, sym, Bool, false, inl, inr, none, some, [], ◌∷◌, ◌++◌, Bytes,
  arith, Passes, Lacks, Option-cases,
}
use auxiliary_tool.ConfigFile.{
  is_word, is_gap, span, c_string, matched, scan_set, scan_fields, both_stored, scan_entry,
}

-- No further byte passes.
abbrev pub Stops : (ℕ → Bool) → Bytes → Type 0
Stops p [] = Unit
Stops p (c ∷ s) = p c ≡ false

span_exact :
    (p : ℕ → Bool) (run rest : Bytes)
    → Passes p run
    → Stops p rest
    → span p (run ++ rest) ≡ (run, rest)
unfolding span
span_exact p [] [] h stop = refl
span_exact p [] (c ∷ rest) h stop = rw stop
span_exact p (c ∷ run) rest (hc, h) stop = rw (hc, span_exact p run rest h stop)

pub span_sound :
    (p : ℕ → Bool) (s : Bytes)
    → ((span p s).0 ++ (span p s).1 ≡ s) × Passes p (span p s).0 × Stops p (span p s).1
unfolding span
span_sound p [] = (refl, tt, tt)
span_sound p (c ∷ s) = ground (arith, span_sound p s)

scan_set_exact :
    (p : ℕ → Bool) (run rest : Bytes)
    → run ≢ []
    → Passes p run
    → Stops p rest
    → scan_set p (run ++ rest) ≡ some (run, rest)
unfolding matched scan_set
scan_set_exact p [] rest ne h stop = absurd (ne refl)
scan_set_exact p (c ∷ run) rest ne h stop = rw (span_exact p (c ∷ run) rest h stop)

matched_sound :
    (q : Bytes × Bytes) (run rest : Bytes)
    → matched q ≡ some (run, rest)
    → (q.0 ≡ run) × (q.1 ≡ rest) × (run ≢ [])
unfolding matched
matched_sound ([], t) run rest h = absurd (ground arith)
matched_sound (c ∷ r, t) run rest h = ground arith

scan_set_sound :
    (p : ℕ → Bool) (s run rest : Bytes)
    → scan_set p s ≡ some (run, rest)
    → (s ≡ run ++ rest) × (run ≢ []) × Passes p run × Stops p rest
unfolding scan_set
scan_set_sound p s run rest h =
    let (e, e', ne) = matched_sound (span p s) run rest h in
    let (whole, pass, stop) = span_sound p s in
    (sym whole ∙ ap₂ (λ a b. a ++ b) e e', ne, subst (Passes p) e pass, subst (Stops p) e' stop)

pub c_string-append : (s t : Bytes) → Lacks 0 s → c_string (s ++ t) ≡ s ++ c_string t
unfolding c_string
c_string-append [] t h = refl
c_string-append (c ∷ s) t (hc, h) = ground (arith, c_string-append s t h)

gap-Lacks_zero : (s : Bytes) → Passes is_gap s → Lacks 0 s
gap-Lacks_zero [] h = tt
gap-Lacks_zero (c ∷ s) (hc, h) = ((λ e. ground arith), gap-Lacks_zero s h)

-- What may stand behind a value: nothing, a byte that is no word, or the end of the C string.
abbrev pub Ends : Bytes → Type 0
Ends s = Stops is_word (c_string s)

-- A gap stops a word, and a word stops a gap.
gap-Stops : (gap t : Bytes) → gap ≢ [] → Passes is_gap gap → Stops is_word (gap ++ t)
gap-Stops [] t ne h = absurd (ne refl)
gap-Stops (c ∷ gap) t ne (hc, h) = ground arith

word-Stops : (word t : Bytes) → word ≢ [] → Passes is_word word → Stops is_gap (word ++ t)
word-Stops [] t ne h = absurd (ne refl)
word-Stops (c ∷ word) t ne (hc, h) = ground arith

-- A line that begins with a word, a gap and a second word yields the two words, whatever
-- follows, if the second word ends there and the words hold no zero byte.
pub scan_entry_complete :
    (name gap value rest : Bytes)
    → name ≢ []
    → gap ≢ []
    → value ≢ []
    → Passes is_word name × Lacks 0 name
    → Passes is_gap gap
    → Passes is_word value × Lacks 0 value
    → Ends rest
    → scan_entry (name ++ (gap ++ (value ++ rest))) ≡ some (name, value)
unfolding scan_entry scan_fields both_stored
scan_entry_complete name gap value rest nn ng nv (hn, zn) hg (hv, zv) ends =
    rw
      (
        c_string-append name _ zn,
        c_string-append gap _ (gap-Lacks_zero gap hg),
        c_string-append value _ zv,
        scan_set_exact is_word name _ nn hn (gap-Stops gap _ ng hg),
        scan_fields,
      )
      (rw (scan_set_exact is_gap gap _ ng hg (word-Stops value _ nv hv), scan_fields)
        (rw (scan_set_exact is_word value _ nv hv ends, scan_fields)))

-- An entry comes only from such a line.
pub scan_entry_sound :
    (line name value : Bytes)
    → scan_entry line ≡ some (name, value)
    → (gap : Bytes) × (rest : Bytes) × (c_string line ≡ name ++ (gap ++ (value ++ rest)))
      × (name ≢ [])
      × (gap ≢ [])
      × (value ≢ [])
      × Passes is_word name
      × Passes is_gap gap
      × Passes is_word value
      × Stops is_word rest
unfolding scan_entry scan_fields both_stored
scan_entry_sound line name value h = elim (Option-cases (scan_set is_word (c_string line))) [
  | inl e ↦ absurd (ground arith)
  | inr ((w, r), e) ↦ elim (Option-cases (scan_set is_gap r)) [
    | inl e' ↦ absurd (ground arith)
    | inr ((g, r'), e') ↦ elim (Option-cases (scan_set is_word r')) [
      | inl e'' ↦ absurd (ground arith)
      | inr ((v, r''), e'') ↦
          let same : (w ≡ name) × (v ≡ value) = ground arith in
          let (whole, nw, hw, _) = scan_set_sound is_word _ w r e in
          let (whole', ng, hg, _) = scan_set_sound is_gap r g r' e' in
          let (whole'', nv, hv, stop) = scan_set_sound is_word r' v r'' e'' in
          rw (sym same.0, sym same.1)
            (g, r'', rw (whole, whole', whole''), nw, ng, nv, hw, hg, hv, stop)
    ]
  ]
]

-- A line whose first byte is no word byte, such as an indented line, a comment or one that begins
-- with "=", yields nothing.
pub scan_entry_skips : (c : ℕ) (line : Bytes) → is_word c ≡ false → scan_entry (c ∷ line) ≡ none
unfolding scan_entry scan_fields both_stored scan_set c_string
scan_entry_skips c line h = ground arith
