-- ===== src/Prelude/Int.antt =====
-- Signed integers over the native numbers, under the library's names.
use Prim.Native.Nat.{ℕ, suc, ◌+◌, ◌-◌, ◌*◌, ◌/◌, ◌%◌, ◌^◌, ◌≤◌}
use mathlib.Core.Path.{◌≡◌, refl}
use native.Mathlib.Nat.{div-add-mod'}
use mathlib.Core.Bool.{Bool}
use native.Mathlib.Omega.{arith}
use risc_v_cpu_emulator.Prelude.Tests.{ltb, leb, if◌then◌else◌}

-- `negsuc n` is -(n + 1).
pub data ℤ : Type 0 where
  pos : ℕ → ℤ
  negsuc : ℕ → ℤ

abbrev pub pos_part : ℤ → ℕ
pos_part (pos n) = n
pos_part (negsuc n) = 0

abbrev pub neg_part : ℤ → ℕ
neg_part (pos n) = 0
neg_part (negsuc n) = suc n

-- a - b, as an integer.
abbrev pub sub_ℕ : ℕ → ℕ → ℤ
sub_ℕ a b = if leb b a then pos (a - b) else negsuc (b - a - 1)

infixl 65 ◌+ℤ◌ ◌-ℤ◌
infixl 70 ◌*ℤ◌
infix 50 ◌≤ℤ◌
unfoldable pub ◌+ℤ◌ : ℤ → ℤ → ℤ
a +ℤ b = sub_ℕ (pos_part a + pos_part b) (neg_part a + neg_part b)

unfoldable pub ◌-ℤ◌ : ℤ → ℤ → ℤ
a -ℤ b = sub_ℕ (pos_part a + neg_part b) (neg_part a + pos_part b)

unfoldable pub ◌*ℤ◌ : ℤ → ℤ → ℤ
a *ℤ b =
    sub_ℕ (pos_part a * pos_part b + neg_part a * neg_part b)
      (pos_part a * neg_part b + neg_part a * pos_part b)

abbrev pub ◌≤ℤ◌ : ℤ → ℤ → Type 0
a ≤ℤ b = pos_part a + neg_part b ≤ pos_part b + neg_part a

abbrev pub ltb_ℤ : ℤ → ℤ → Bool
ltb_ℤ a b = ltb (pos_part a + neg_part b) (pos_part b + neg_part a)

-- The absolute value, and the integer of a given absolute value below zero.
abbrev pub abs : ℤ → ℕ
abs (pos n) = n
abs (negsuc n) = suc n

abbrev pub neg : ℕ → ℤ
neg n = sub_ℕ 0 n

-- Division and remainder of C++: the quotient is cut off towards zero.
unfoldable pub tdiv : ℤ → ℤ → ℤ
tdiv (pos a) (pos b) = pos (a / b)
tdiv (pos a) (negsuc b) = neg (a / suc b)
tdiv (negsuc a) (pos b) = neg (suc a / b)
tdiv (negsuc a) (negsuc b) = pos (suc a / suc b)

unfoldable pub tmod : ℤ → ℤ → ℤ
tmod (pos a) b = pos (a % abs b)
tmod (negsuc a) b = neg (suc a % abs b)

-- The shift of a negative number to the right rounds down.
unfoldable pub shift_right : ℤ → ℕ → ℤ
shift_right (pos n) k = pos (n / 2 ^ k)
shift_right (negsuc n) k = negsuc (n / 2 ^ k)

-- Products and sums of the two signs.
neg-mul-neg : (n b : ℕ) → neg n *ℤ negsuc b ≡ pos (n * suc b)
unfolding ◌*ℤ◌
neg-mul-neg n b = ground arith

neg-mul-pos : (n b : ℕ) → neg n *ℤ pos b ≡ neg (n * b)
unfolding ◌*ℤ◌
neg-mul-pos n b = ground arith

pos-mul-pos : (n b : ℕ) → pos n *ℤ pos b ≡ pos (n * b)
unfolding ◌*ℤ◌
pos-mul-pos n b = ground arith

pos-mul-neg : (n b : ℕ) → pos n *ℤ negsuc b ≡ neg (n * suc b)
unfolding ◌*ℤ◌
pos-mul-neg n b = ground arith

neg-add-neg : (m n : ℕ) → neg m +ℤ neg n ≡ neg (m + n)
unfolding ◌+ℤ◌
neg-add-neg m n = ground arith

pos-add-pos : (m n : ℕ) → pos m +ℤ pos n ≡ pos (m + n)
unfolding ◌+ℤ◌
pos-add-pos m n = ground arith

-- The quotient, times the divisor, plus the remainder is the dividend.
pub tdiv-tmod : (a b : ℤ) → tdiv a b *ℤ b +ℤ tmod a b ≡ a
unfolding tdiv tmod
tdiv-tmod (pos a) (pos b) = rw (pos-mul-pos (a / b) b, pos-add-pos, div-add-mod' a b) refl
tdiv-tmod (pos a) (negsuc b) =
    rw (neg-mul-neg (a / suc b) b, pos-add-pos, div-add-mod' a (suc b)) refl
tdiv-tmod (negsuc a) (pos b) =
    rw (neg-mul-pos (suc a / b) b, neg-add-neg, div-add-mod' (suc a) b) (ground arith)
tdiv-tmod (negsuc a) (negsuc b) =
    rw (pos-mul-neg (suc a / suc b) b, neg-add-neg, div-add-mod' (suc a) (suc b)) (ground arith)
