-- ===== src/Prelude/Int.antt =====
-- Signed integers over the native numbers; sums go through the two parts, which `omega` reads.
use Prim.Native.Nat.{ℕ, suc, ◌+◌, ◌-◌, ◌%◌, ◌^◌, ◌≤◌, ◌<◌}
use mathlib.Core.Path.{◌≡◌}
use mathlib.Core.Bool.{Bool}
use native.Mathlib.Omega.{arith}
use g_rpeakec_go.Prelude.Tests.{ltb, leb, if◌then◌else◌}

-- `negsuc n` is -(n + 1).
pub data ℤ : Type 0 where
  pos : ℕ → ℤ
  negsuc : ℕ → ℤ

abbrev pub pos_part : ℤ → ℕ
pos_part (pos n) = n
pos_part (negsuc n) = 0

abbrev pub neg_part : ℤ → ℕ
neg_part (pos n) = 0
neg_part (negsuc n) = suc n

-- a - b, as an integer.
abbrev pub sub_ℕ : ℕ → ℕ → ℤ
sub_ℕ a b = if leb b a then pos (a - b) else negsuc (b - a - 1)

infixl 65 ◌+ℤ◌
infix 50 ◌≤ℤ◌
unfoldable pub ◌+ℤ◌ : ℤ → ℤ → ℤ
a +ℤ b = sub_ℕ (pos_part a + pos_part b) (neg_part a + neg_part b)

abbrev pub ◌≤ℤ◌ : ℤ → ℤ → Type 0
a ≤ℤ b = pos_part a + neg_part b ≤ pos_part b + neg_part a

abbrev pub ltb_ℤ : ℤ → ℤ → Bool
ltb_ℤ a b = ltb (pos_part a + neg_part b) (pos_part b + neg_part a)

pub +ℤ_parts :
    (a b : ℤ)
    → pos_part (a +ℤ b) + neg_part a + neg_part b ≡ neg_part (a +ℤ b) + pos_part a + pos_part b
unfolding ◌+ℤ◌
+ℤ_parts a b = ground arith

pub eq_of_parts : (a b : ℤ) → pos_part a + neg_part b ≡ pos_part b + neg_part a → a ≡ b
eq_of_parts a b h = ground arith

abbrev pub leb_ℤ : ℤ → ℤ → Bool
leb_ℤ a b = leb (pos_part a + neg_part b) (pos_part b + neg_part a)

-- The residue of an integer modulo 2 ^ 64, and the int64 with a residue.
unfoldable pub residue : ℤ → ℕ
residue (pos n) = n % 2 ^ 64
residue (negsuc n) = 2 ^ 64 - 1 - n % 2 ^ 64

abbrev pub of_residue : ℕ → ℤ
of_residue r = if ltb r (2 ^ 63) then pos r else negsuc (2 ^ 64 - 1 - r)

-- An int64, wrapped around.
unfoldable pub wrap_int : ℤ → ℤ
unfolding residue
wrap_int a = of_residue (residue a)

residue_lt : (a : ℤ) → residue a < 2 ^ 64
unfolding residue
residue_lt (pos n) = omega arith
residue_lt (negsuc n) = omega arith

residue-of_residue : (r : ℕ) → r < 2 ^ 64 → residue (of_residue r) ≡ r
unfolding residue
residue-of_residue r h = ground (arith, h)

pub residue-wrap_int : (a : ℤ) → residue (wrap_int a) ≡ residue a
unfolding wrap_int
residue-wrap_int a = residue-of_residue (residue a) (residue_lt a)

pub residue-+ℤ : (a b : ℤ) → residue (a +ℤ b) ≡ (residue a + residue b) % 2 ^ 64
unfolding residue ◌+ℤ◌
residue-+ℤ (pos a) (pos b) = ground arith
residue-+ℤ (pos a) (negsuc b) = ground arith
residue-+ℤ (negsuc a) (pos b) = ground arith
residue-+ℤ (negsuc a) (negsuc b) = ground arith
