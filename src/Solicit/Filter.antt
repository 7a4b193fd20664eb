-- ===== src/Solicit/Filter.antt =====
-- What the socket lets through.
use auxiliary_tool.Common.{
  ℕ, zero, suc, ◌+◌, ◌*◌, ◌-◌, ◌/◌, ◌%◌, ◌^◌, ◌<◌, ◌≡◌, refl, Bool, true, false, not, ◌&&◌, [], ◌∷◌,
  Bytes, arith, ◌==◌, Bool-cases, ltb, ltb→lt, inl, inr, subst,
}
use auxiliary_tool.Solicit.{filled, set_at, icmp}

-- The byte at an index, 0 behind the end.
unfoldable pub byte_at : Bytes → ℕ → ℕ
byte_at [] i = 0
byte_at (c ∷ s) zero = c
byte_at (c ∷ s) (suc i) = byte_at s i

-- RFC 3542: a type is let through if its bit is 0. The filter is eight words of 32 bits, whose bytes
-- a little-endian machine stores from the lowest, a big-endian one from the highest.
unfoldable pub passes_little : Bytes → ℕ → Bool
passes_little filter type = byte_at filter (type / 8) / 2 ^ (type % 8) % 2 == 0

unfoldable pub passes_big : Bytes → ℕ → Bool
passes_big filter type =
    byte_at filter (type / 32 * 4 + (3 - type % 32 / 8)) / 2 ^ (type % 8) % 2 == 0

same : Bool → Bool → Bool
same true b = b
same false b = not b

same_sound : (a b : Bool) → same a b ≡ true → a ≡ b
unfolding same
same_sound true true h = refl
same_sound true false h = cc
same_sound false true h = cc
same_sound false false h = refl

-- Over a small range, every value is checked.
agree : (ℕ → Bool) → (ℕ → Bool) → ℕ → Bool
agree f g zero = true
agree f g (suc n) = same (f n) (g n) && agree f g n

both : (a b : Bool) → (a && b) ≡ true → (a ≡ true) × (b ≡ true)
both true b h = (refl, h)
both false b h = cc

agree_sound : (f g : ℕ → Bool) (n i : ℕ) → agree f g n ≡ true → i < n → f i ≡ g i
unfolding agree
agree_sound f g zero i h lt = absurd (omega arith)
agree_sound f g (suc n) i h lt =
    let (now, before) = both (same (f n) (g n)) (agree f g n) h in
    elim (Bool-cases (ltb i n)) [
      | inl below ↦ agree_sound f g n i before (ltb→lt i n below)
      | inr last ↦
          let e : n ≡ i = ground arith in
          subst (λ (k : ℕ). f k ≡ g k) e (same_sound (f n) (g n) now)
    ]

little_table : agree (passes_little icmp) (λ type. type == 134) 256 ≡ true
unfolding agree same passes_little byte_at filled set_at
little_table = refl

big_table : agree (passes_big icmp) (λ type. type == 158) 256 ≡ true
unfolding agree same passes_big byte_at filled set_at
big_table = refl

-- On a little-endian machine the socket is given the advertisements of routers, type 134, and no
-- other type of message.
pub passes_little-icmp : (type : ℕ) → type < 256 → passes_little icmp type ≡ (type == 134)
passes_little-icmp type h =
    agree_sound (passes_little icmp) (λ type. type == 134) 256 type little_table h

-- On a big-endian machine the same bytes let through type 158, and so no advertisement.
pub passes_big-icmp : (type : ℕ) → type < 256 → passes_big icmp type ≡ (type == 158)
passes_big-icmp type h = agree_sound (passes_big icmp) (λ type. type == 158) 256 type big_table h

-- RFC 4861: type 133, code 0, a checksum that the kernel fills in, four reserved bytes of 0.
abbrev pub IsSolicitation : Bytes → Type 0
IsSolicitation packet = packet ≡ 133 ∷ 0 ∷ 0 ∷ 0 ∷ 0 ∷ 0 ∷ 0 ∷ 0 ∷ []
