-- ===== src/Threads/Merge.antt =====
-- What the log holds, whatever the order of the steps.
use auxiliary_tool.Common.{
  ℕ, zero, suc, ◌+◌, ◌*◌, ◌/◌, ◌%◌, ◌^◌, ◌≤◌, ◌≡◌, refl, ap, ◌∙◌, sym, subst, true, [], ◌∷◌, ◌++◌,
  append_assoc, Bytes, codes, arith, length, length-append,
}
use auxiliary_tool.Printf.{padded, fixed, width_of, digit}
use auxiliary_tool.Log.{rank, error, header, log_init, the_limit, size_limit}
use auxiliary_tool.Log.Rotate.{logged}
use auxiliary_tool.Log.Write.{header_fits}
use auxiliary_tool.Log.Appends.{Keeps, log_002-Keeps}
use auxiliary_tool.Log.Macro.{Outcome, place, log}
use auxiliary_tool.Threads.{
  Thread, thread1, thread2, name, line, rule, message, log_message, rounds, System, Step, first,
  second, start, Reach, begin, later,
}

-- The line of message `i` of a thread.
unfoldable pub written : Bytes → Thread → ℕ → Bytes
written stamp t i =
    header stamp error ++ (place (codes "main.cpp") (line t) (name t) ++ message t i)

-- A text made of the first `n` messages of one thread and the first `m` of the other, the messages
-- of each in order and none torn apart.
pub data Merge : ℕ → ℕ → Bytes → Type 0 where
  nothing : (s : Bytes) → s ≡ [] → Merge zero zero s
  one :
      (stamp : Bytes) {n m : ℕ} {s t : Bytes}
      → length stamp ≤ 15
      → Merge n m s
      → t ≡ s ++ written stamp thread1 n
      → Merge (suc n) m t
  two :
      (stamp : Bytes) {n m : ℕ} {s t : Bytes}
      → length stamp ≤ 15
      → Merge n m s
      → t ≡ s ++ written stamp thread2 m
      → Merge n (suc m) t

length-fixed : (base width n : ℕ) → length (fixed base width n) ≡ width
unfolding fixed
length-fixed base zero n = refl
length-fixed base (suc width) n = omega (
  arith,
  length-append {0} (fixed base width (n / base)) (digit (n % base) ∷ []),
  length-fixed base width (n / base),
)

width_of-le : (fuel base n : ℕ) → width_of fuel base n ≤ fuel + 1
unfolding width_of
width_of-le zero base n = omega arith
width_of-le (suc fuel) base n = ground (arith, width_of-le fuel base (n / base))

length-padded : (base n : ℕ) → length (padded base 1 n) ≤ 65
unfolding padded
length-padded base n =
    ground (
      arith,
      width_of-le 64 base n,
      length-fixed base (width_of 64 base n) n,
      length-fixed base 1 n,
    )

length-name : (t : Thread) → length (name t) ≡ 7
length-name thread1 = refl
length-name thread2 = refl

length-rule : (t : Thread) → length (rule t) ≡ 20
length-rule thread1 = refl
length-rule thread2 = refl

length-written :
    (stamp : Bytes) (t : Thread) (i : ℕ) → length stamp ≤ 15 → length (written stamp t i) ≤ 250
unfolding written place message
length-written stamp t i h =
    let number = length-padded 10 i in
    let l = length-padded 10 (line t) in
    omega (
      arith,
      number,
      l,
      header_fits stamp error h,
      length-name t,
      length-rule t,
      length-append {0} (header stamp error)
          (place (codes "main.cpp") (line t) (name t) ++ message t i),
      length-append {0} (place (codes "main.cpp") (line t) (name t)) (message t i),
      length-append {0} (codes "main.cpp")
          (codes ":" ++ (padded 10 1 (line t) ++ (codes "(" ++ (name t ++ codes "): ")))),
      length-append {0} (padded 10 1 (line t)) (codes "(" ++ (name t ++ codes "): ")),
      length-append {0} (name t) (codes "): "),
      length-append {0} (rule t) (padded 10 1 i ++ codes "\n"),
      length-append {0} (padded 10 1 i) (codes "\n"),
    )

Merge-length : {n m : ℕ} {s : Bytes} → Merge n m s → length s ≤ (n + m) * 250
Merge-length (nothing s e) = omega (arith, ap length e)
Merge-length (one stamp h g e) = omega (
  arith,
  Merge-length g,
  ap length e,
  length-append {0} _ (written stamp thread1 _),
  length-written stamp thread1 _ h,
)
Merge-length (two stamp h g e) = omega (
  arith,
  Merge-length g,
  ap length e,
  length-append {0} _ (written stamp thread2 _),
  length-written stamp thread2 _ h,
)

-- The log is open, with the level and the limit that main has given it, and holds what it held at
-- the start and then the messages that have been sent.
record Inv (old : Bytes) (s : System) : Type 0 where
  opened : s.logger.is_open ≡ true
  passes : rank error ≤ rank s.logger.log_level
  limit : the_limit s.logger ≡ 2 ^ 21
  few1 : s.next1 ≤ rounds
  few2 : s.next2 ≤ rounds
  text : Bytes
  holds : logged s.logger ≡ old ++ text
  merged : Merge s.next1 s.next2 text

module _ (old : Bytes) (small : length old ≤ 1500000) where
  -- A message of either thread is appended whole.
  log_message-appends :
      (s : System) (t : Thread) (i : ℕ) (o : Outcome)
      → length o.stamp ≤ 15
      → (inv : Inv old s)
      → Keeps s.logger (log_message t i o s.logger)
        × (logged (log_message t i o s.logger) ≡ old ++ (inv.text ++ written o.stamp t i))
  unfolding log_message log written
  log_message-appends s t i o h inv =
      let body = place (codes "main.cpp") (line t) (name t) ++ message t i in
      let (kept, same) =
        log_002-Keeps o.calls o.flushed o.stamp error body s.logger inv.passes inv.opened (
          omega (
            arith,
            ap length inv.holds,
            length-append {0} old inv.text,
            Merge-length inv.merged,
            length-written o.stamp t i h,
            inv.limit,
            inv.few1,
            inv.few2,
          )) in
      (
        kept,
        same
            ∙ ap (λ u. u ++ (header o.stamp error ++ body)) inv.holds
            ∙ append_assoc old inv.text (header o.stamp error ++ body),
      )

  Step-Inv : {s t : System} → Step s t → Inv old s → Inv old t
  Step-Inv {s} (first o lt h) inv =
      let (kept, same) = log_message-appends s thread1 s.next1 o h inv in
      record {
        opened = kept.is_open ∙ inv.opened;
        passes = subst (λ l. rank error ≤ rank l) (sym kept.level) inv.passes;
        limit = kept.limit ∙ inv.limit;
        few1 = omega (arith, lt);
        few2 = inv.few2;
        text = inv.text ++ written o.stamp thread1 s.next1;
        holds = same;
        merged = one o.stamp h inv.merged refl;
      }
  Step-Inv {s} (second o lt h) inv =
      let (kept, same) = log_message-appends s thread2 s.next2 o h inv in
      record {
        opened = kept.is_open ∙ inv.opened;
        passes = subst (λ l. rank error ≤ rank l) (sym kept.level) inv.passes;
        limit = kept.limit ∙ inv.limit;
        few1 = inv.few1;
        few2 = omega (arith, lt);
        text = inv.text ++ written o.stamp thread2 s.next2;
        holds = same;
        merged = two o.stamp h inv.merged refl;
      }

start-Inv : (disk : Bytes → Bytes) → Inv (disk (codes "main.log")) (start disk)
unfolding start log_init the_limit size_limit
start-Inv disk = record {
  opened = refl;
  passes = omega arith;
  limit = refl;
  few1 = omega arith;
  few2 = omega arith;
  text = [];
  holds = refl;
  merged = nothing [] refl;
}

Reach-Inv :
    (disk : Bytes → Bytes) {s : System}
    → length (disk (codes "main.log")) ≤ 1500000
    → Reach disk s
    → Inv (disk (codes "main.log")) s
Reach-Inv disk small begin = start-Inv disk
Reach-Inv disk small (later r st) =
    Step-Inv (disk (codes "main.log")) small st (Reach-Inv disk small r)

-- However the steps of the two threads are mixed, however much stdio holds back, and whether checks
-- of the size are due: if the file held at most 1500000 bytes, the log holds what it held before
-- and then the messages sent so far, each whole and those of each thread in order, and nothing else.
pub Reach-Merge :
    (disk : Bytes → Bytes) (s : System)
    → length (disk (codes "main.log")) ≤ 1500000
    → Reach disk s
    → (text : Bytes) × (logged s.logger ≡ disk (codes "main.log") ++ text)
      × Merge s.next1 s.next2 text
Reach-Merge disk s small r = let inv = Reach-Inv disk small r in (inv.text, inv.holds, inv.merged)
