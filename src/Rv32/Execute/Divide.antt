-- ===== src/Rv32/Execute/Divide.antt =====
-- DIV and REM against the division of the integers that the operands stand for.
use native.Mathlib.Nat.{div-le_self, mod-lt, div-add-mod', mod-le, div-one, mul-le-mul_left}
use risc_v_cpu_emulator.Prelude.{
  ℕ, zero, suc, ◌-◌, ◌*◌, ◌/◌, ◌^◌, ◌≤◌, ◌<◌, ◌≡◌, ◌≢◌, refl, ◌⊎◌, inl, inr, Bool, false, ◌==◌,
  ◌&&◌, arith, if◌then◌else◌,
}
use risc_v_cpu_emulator.Prelude.Int.{
  ℤ, pos, negsuc, ◌*ℤ◌, ◌+ℤ◌, abs, tdiv, tmod, tdiv-tmod, pos_part, neg_part,
}
use risc_v_cpu_emulator.Rv32.Execute.Signed.{as_int32, to_unsigned, divide_signed, remainder_signed}
use risc_v_cpu_emulator.Rv32.Execute.Multiply.{as_signed_word-eq}

-- An integer in the range of `int32_t` survives the cast to `uint32_t` and back.
abbrev pub InRange : ℤ → Type 0
InRange z = (pos_part z < 2 ^ 31) × (neg_part z ≤ 2 ^ 31)

as_int32-to_unsigned : (z : ℤ) → InRange z → as_int32 (to_unsigned 32 z) ≡ z
as_int32-to_unsigned (pos n) h = ground arith
as_int32-to_unsigned (negsuc n) h = ground arith

as_int32-InRange : (value : ℕ) → value < 2 ^ 32 → InRange (as_int32 value)
as_int32-InRange value h = ground arith

tmod-InRange : (a b : ℤ) → InRange a → InRange (tmod a b)
unfolding tmod
tmod-InRange (pos a) b h = omega (arith, mod-le a (abs b))
tmod-InRange (negsuc a) b h = ground (arith, mod-le (suc a) (abs b))

-- The one quotient that does not fit is that of the least integer by -1.
tdiv-InRange : (a b : ℤ) → InRange a → (neg_part a ≢ 2 ^ 31) ⊎ (neg_part b ≢ 1) → InRange (tdiv a b)
unfolding tdiv
tdiv-InRange (pos a) (pos b) h k = ground (arith, div-le_self a b)
tdiv-InRange (pos a) (negsuc b) h k = ground (arith, div-le_self a (suc b))
tdiv-InRange (negsuc a) (pos b) h k = ground (arith, div-le_self (suc a) b)
tdiv-InRange (negsuc a) (negsuc zero) h k = ground (arith, div-one (suc a))
tdiv-InRange (negsuc a) (negsuc (suc b)) h k =
    let quotient : ℕ = suc a / suc (suc b) in
    let twice : quotient * 2 ≤ quotient * suc (suc b) = mul-le-mul_left quotient (omega arith) in
    omega (arith, twice, div-add-mod' (suc a) (suc (suc b)))

-- The remainder is smaller than the divisor and has the sign of the dividend.
abbrev pub IsRemainder : (dividend divisor remainder : ℤ) → Type 0
IsRemainder dividend divisor remainder =
    (abs remainder < abs divisor)
    × (pos_part remainder ≤ pos_part dividend)
    × (neg_part remainder ≤ neg_part dividend)

tmod-IsRemainder : (a b : ℤ) → abs b ≢ 0 → IsRemainder a b (tmod a b)
unfolding tmod
tmod-IsRemainder (pos a) b h = omega (arith, mod-le a (abs b), mod-lt a {m = abs b} (omega arith))
tmod-IsRemainder (negsuc a) b h =
    ground (arith, mod-le (suc a) (abs b), mod-lt (suc a) {m = abs b} (omega arith))

-- The two cases that the ISA fixes: a divisor of zero, and the quotient that overflows.
pub divide_by_zero : (a : ℕ) → (divide_signed a 0 ≡ 2 ^ 32 - 1) × (remainder_signed a 0 ≡ a)
unfolding divide_signed remainder_signed
divide_by_zero a = (refl, refl)

module _ (a b : ℕ) (in_a : a < 2 ^ 32) (in_b : b < 2 ^ 32) (nonzero : b ≢ 0)
    (fits : (a ≢ 2 ^ 31) ⊎ (b ≢ 2 ^ 32 - 1)) where
  no_overflow : (neg_part (as_int32 a) ≢ 2 ^ 31) ⊎ (neg_part (as_int32 b) ≢ 1)
  no_overflow = elim fits [ inl ne ↦ inl (ground arith) | inr ne ↦ inr (ground arith) ]

  -- Neither early return is taken.
  general_case :
      (divide_signed a b ≡ to_unsigned 32 (tdiv (as_int32 a) (as_int32 b)))
      × (remainder_signed a b ≡ to_unsigned 32 (tmod (as_int32 a) (as_int32 b)))
  unfolding divide_signed remainder_signed
  general_case =
      rw (as_signed_word-eq a in_a, as_signed_word-eq b in_b)
        (general _ _ _ _ _ _ zero_test overflow_test)
    where
      zero_test : (b == 0) ≡ false
      zero_test = ground arith

      overflow_test : (a == 0x80000000 && b == 0xFFFFFFFF) ≡ false
      overflow_test = ground arith

      general :
          (s t x y z w : ℕ) {c d : Bool}
          → c ≡ false
          → d ≡ false
          → ((if c then s else if d then x else y) ≡ y)
            × ((if c then t else if d then z else w) ≡ w)
      general s t x y z w p q = rw (p, q) (refl, refl)

  quotient_eq : as_int32 (divide_signed a b) ≡ tdiv (as_int32 a) (as_int32 b)
  quotient_eq = rw general_case.0 (
      as_int32-to_unsigned _
        (tdiv-InRange (as_int32 a) (as_int32 b) (as_int32-InRange a in_a) no_overflow))

  remainder_eq : as_int32 (remainder_signed a b) ≡ tmod (as_int32 a) (as_int32 b)
  remainder_eq =
      rw general_case.1
        (as_int32-to_unsigned _ (tmod-InRange (as_int32 a) (as_int32 b) (as_int32-InRange a in_a)))

  -- DIV and REM of words, where the divisor is not zero and the quotient does not overflow, divide the signed operands towards zero: the
  -- quotient times the divisor, plus the remainder, is the dividend, and the remainder is smaller
  -- than the divisor, is not past the dividend and has its sign.
  pub divide_signed-remainder_signed :
      (as_int32 (divide_signed a b) *ℤ as_int32 b +ℤ as_int32 (remainder_signed a b) ≡ as_int32 a)
      × IsRemainder (as_int32 a) (as_int32 b) (as_int32 (remainder_signed a b))
  divide_signed-remainder_signed =
      rw (quotient_eq, remainder_eq)
        (
          tdiv-tmod (as_int32 a) (as_int32 b),
          tmod-IsRemainder (as_int32 a) (as_int32 b) (ground arith),
        )
