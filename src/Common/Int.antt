-- ===== src/Common/Int.antt =====
-- Go's `int` (64 bits): signed integers, and the wrap-around of their products and sums.
use Prim.Native.Nat.{ℕ, suc, ◌+◌, ◌-◌, ◌*◌, ◌%◌, ◌^◌, ◌≤◌, ◌<◌}
use mathlib.Core.Path.{◌≡◌, refl}
use mathlib.Core.Bool.{Bool}
use native.Mathlib.Omega.{arith}
use cc_core_server.Common.Tests.{ltb, leb, if◌then◌else◌}

-- `negsuc n` is -(n + 1).
pub data ℤ : Type 0 where
  pos : ℕ → ℤ
  negsuc : ℕ → ℤ

abbrev pub pos_part : ℤ → ℕ
pos_part (pos n) = n
pos_part (negsuc n) = 0

abbrev pub neg_part : ℤ → ℕ
neg_part (pos n) = 0
neg_part (negsuc n) = suc n

-- a - b, as an integer.
abbrev pub sub_ℕ : ℕ → ℕ → ℤ
sub_ℕ a b = if leb b a then pos (a - b) else negsuc (b - a - 1)

abbrev pub half_mod : ℕ
half_mod = 2 ^ 63

abbrev pub int_mod : ℕ
int_mod = 2 ^ 64

-- The integer with the bit pattern `n % 2 ^ 64`.
abbrev pub of_bits : ℕ → ℤ
of_bits n =
    if ltb (n % int_mod) half_mod then pos (n % int_mod) else negsuc (int_mod - n % int_mod - 1)

-- The bit pattern of an integer.
abbrev pub to_bits : ℤ → ℕ
to_bits (pos n) = n % int_mod
to_bits (negsuc n) = int_mod - 1 - n % int_mod

infixl 65 ◌+ℤ◌ ◌-ℤ◌
infixl 70 ◌*ℤ◌
unfoldable pub ◌+ℤ◌ : ℤ → ℤ → ℤ
a +ℤ b = of_bits (to_bits a + to_bits b)

unfoldable pub ◌-ℤ◌ : ℤ → ℤ → ℤ
a -ℤ b = of_bits (to_bits a + int_mod - to_bits b)

unfoldable pub ◌*ℤ◌ : ℤ → ℤ → ℤ
a *ℤ b = of_bits (to_bits a * to_bits b)

abbrev pub leb_ℤ : ℤ → ℤ → Bool
leb_ℤ a b = leb (pos_part a + neg_part b) (pos_part b + neg_part a)

abbrev pub ltb_ℤ : ℤ → ℤ → Bool
ltb_ℤ a b = ltb (pos_part a + neg_part b) (pos_part b + neg_part a)

pub +ℤ-pos : (a b : ℕ) → a + b < 2 ^ 63 → pos a +ℤ pos b ≡ pos (a + b)
unfolding ◌+ℤ◌
+ℤ-pos a b h = ground arith

pub -ℤ-pos : (a b : ℕ) → b ≤ a → a < 2 ^ 63 → pos a -ℤ pos b ≡ pos (a - b)
unfolding ◌-ℤ◌
-ℤ-pos a b h k = ground arith

small_mod : (n : ℕ) → n < 2 ^ 63 → n % int_mod ≡ n
small_mod n h = omega arith

of_bits-small : (n : ℕ) → n < 2 ^ 63 → of_bits n ≡ pos n
of_bits-small n h = ground arith

pub *ℤ-pos : (a b : ℕ) → a < 2 ^ 63 → b < 2 ^ 63 → a * b < 2 ^ 63 → pos a *ℤ pos b ≡ pos (a * b)
unfolding ◌*ℤ◌
*ℤ-pos a b h k m = rw (small_mod a h, small_mod b k) (of_bits-small (a * b) m)

wraps : pos (2 ^ 62) *ℤ pos 2 ≡ negsuc (2 ^ 63 - 1)
unfolding ◌*ℤ◌
wraps = refl
