-- ===== src/Log/Loss.antt =====
-- What a failing or a short call of check_file_size costs.
use auxiliary_tool.Common.{
  ℕ, zero, suc, ◌-◌, ◌/◌, ◌≤◌, ◌≡◌, ◌⊎◌, refl, ap, ◌∙◌, Bool, true, false, not, Option, none, some,
  List, [], ◌∷◌, ◌++◌, Bytes, bytes_eq_refl, ℤ, pos, minus_one, if◌then◌else◌, arith, length,
  length-drop, take, drop, take_all, inl, inr, Bool-cases,
}
use auxiliary_tool.Log.{
  Logger, Calls, Level, rank, close_log, rotate, send_back, send_out, the_limit, shorten,
  check_file_size, log_with, header,
}
use auxiliary_tool.Log.Rotate.{logged, closed, closed-disk, check-shorten, shorten-reopened}
use auxiliary_tool.Log.Write.{log_with_stdout}

-- What may be left of a file: all of it, or a part of its second half, from that half's start on.
abbrev pub Remains : Bytes → Bytes → Type 0
Remains content left =
    (left ≡ content) ⊎ ((n : ℕ) × (left ≡ take n (drop (length content / 2) content)))

take_twice : {A : Type 0} (m n : ℕ) (xs : List A) → (k : ℕ) × (take m (take n xs) ≡ take k xs)
take_twice zero n xs = (0, refl)
take_twice (suc m) zero xs = (0, refl)
take_twice (suc m) (suc n) [] = (0, refl)
take_twice (suc m) (suc n) (x ∷ xs) = let (k, e) = take_twice m n xs in (suc k, ap (λ t. x ∷ t) e)

send_back-Remains :
    (o : Option ℕ) (len n : ℕ) (content : Bytes)
    → Remains content (send_back o len (take n (take len (drop (length content / 2) content)))).1
unfolding send_back
send_back-Remains none len n content = inr (0, refl)
send_back-Remains (some m) len n content =
    let back = drop (length content / 2) content in
    let (k, e) = take_twice m len (take n (take len back)) in
    let (k', e') = take_twice k n (take len back) in
    let (k'', e'') = take_twice k' len back in inr (k'', e ∙ e' ∙ e'')

if_Remains :
    (content : Bytes) (b : Bool) (x y : ℤ × Bytes)
    → Remains content x.1
    → Remains content y.1
    → Remains content (if b then x else y).1
if_Remains content true x y hx hy = hx
if_Remains content false x y hx hy = hy

send_out-Remains :
    (o : Option ℕ) (c : Calls) (content : Bytes) → Remains content (send_out o c content).1
unfolding send_out
send_out-Remains none c content = inl refl
send_out-Remains (some n) c content =
    if_Remains content _ _ _ (inl refl) (send_back-Remains c.sent_back _ n content)

rotate-Remains : (c : Calls) (content : Bytes) → Remains content (rotate c content).1
unfolding rotate
rotate-Remains c content =
    if_Remains content (not c.open_ok) (minus_one, content)
      (if not c.mkstemp_ok then (minus_one, content) else send_out c.sent_out c content) (inl refl)
      (if_Remains content (not c.mkstemp_ok) (minus_one, content) (send_out c.sent_out c content)
        (inl refl) (send_out-Remains c.sent_out c content))

rotate_short :
    (c : Calls) (content : Bytes) (m : ℕ)
    → c.open_ok ≡ true
    → c.mkstemp_ok ≡ true
    → c.sent_out ≡ some (length content - length content / 2)
    → c.ftruncate_ok ≡ true
    → c.sent_back ≡ some m
    → rotate c content ≡ (pos 0, take m (drop (length content / 2) content))
unfolding rotate
rotate_short c content m opens makes out truncates back =
    let len = length content - length content / 2 in
    let half = drop (length content / 2) content in
    let whole : take len half ≡ half =
      take_all len half (omega (arith, length-drop (length content / 2) content)) in
    rw (opens, makes, out, truncates, back) (rw (whole) (rw whole (rw whole)))

module _ (c : Calls) (s : Logger) (stats : c.stat_ok ≡ true)
    (large : the_limit s ≤ length (s.disk s.log_file)) where
  -- A file that has reached the limit is closed. If the second stat fails it holds all that was
  -- logged, -1 is returned, and it is not opened again: the next message that passes goes to
  -- stdout.
  pub check_file_size-stays_closed :
      c.stat_again_ok ≡ false
      → let r = check_file_size c s in
        (r.0 ≡ minus_one)
        × (r.1.disk s.log_file ≡ logged s)
        × (r.1.is_open ≡ false)
        × ((after : Logger → Logger) (k : ℕ) (stamp : Bytes) (level : Level) (message : Bytes)
            → rank level ≤ rank r.1.log_level
            → log_with after k stamp level message r.1
              ≡ record r.1 { stdout = r.1.stdout ++ (header stamp level ++ message) })
  unfolding shorten close_log
  check_file_size-stays_closed gone =
      let e : check_file_size c s ≡ (minus_one, closed s) =
        check-shorten c s stats large ∙ ground arith in
      rw e (
        refl,
        closed-disk s,
        refl,
        λ after k stamp level message passes.
            log_with_stdout after k stamp level message (closed s) passes refl,
      )

  -- Whichever later call fails and however little a transfer moves, what is on disk afterwards is
  -- all that was logged, or a part of its second half from that half's start on.
  pub check_file_size-Remains : Remains (logged s) ((check_file_size c s).1.disk s.log_file)
  unfolding shorten close_log
  check_file_size-Remains = elim (Bool-cases c.stat_again_ok) [
    | inl ok ↦
        rw
          (
            check-shorten c s stats large,
            shorten-reopened c (closed s) refl ok,
            bytes_eq_refl s.log_file,
          )
          (rotate-Remains c (logged s))
    | inr gone ↦ rw (check_file_size-stays_closed gone).1 (inl refl)
  ]

  -- The count that sendfile returns is not looked at: where the second transfer moves only m of the
  -- bytes and nothing else fails, 0 is returned and the file holds m bytes.
  pub check_file_size-short :
      (m : ℕ)
      → m ≤ length (logged s) - length (logged s) / 2
      → c.stat_again_ok ≡ true
      → c.open_ok ≡ true
      → c.mkstemp_ok ≡ true
      → c.sent_out ≡ some (length (logged s) - length (logged s) / 2)
      → c.ftruncate_ok ≡ true
      → c.sent_back ≡ some m
      → c.fopen_ok ≡ true
      → let r = check_file_size c s in
        (r.0 ≡ pos 0) × (r.1.disk s.log_file ≡ take m (drop (length (logged s) / 2) (logged s)))
  unfolding close_log
  check_file_size-short m le again opens makes out truncates back reopens =
      rw
        (
          check-shorten c s stats large,
          shorten-reopened c (closed s) refl again,
          bytes_eq_refl s.log_file,
          rotate_short c (logged s) m opens makes out truncates back,
        )
        (ground arith, refl)
