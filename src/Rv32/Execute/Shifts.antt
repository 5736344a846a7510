-- ===== src/Rv32/Execute/Shifts.antt =====
-- The arithmetic shift, digit by digit.
use native.Mathlib.Nat.{div-div-eq-div-mul, div-le_self}
use risc_v_cpu_emulator.Prelude.{
  ℕ, ◌+◌, ◌-◌, ◌/◌, ◌%◌, ◌^◌, ◌<◌, ◌≡◌, refl, arith, ltb, if◌then◌else◌, inl, inr,
}
use risc_v_cpu_emulator.Prelude.Int.{shift_right}
use risc_v_cpu_emulator.Words.Bits.{bit_of, bit_of_high, bit_of-lt}
use risc_v_cpu_emulator.Words.Fields.{not32-bit_of, two_pow-add, bit_of_top}
use risc_v_cpu_emulator.Rv32.Execute.Signed.{shift_right_arithmetic}
use risc_v_cpu_emulator.Rv32.Execute.Multiply.{as_int32-cases}

shr-bit_of : (x k i : ℕ) → bit_of (x / 2 ^ k) i ≡ bit_of x (i + k)
unfolding bit_of
shr-bit_of x k i =
    let order : i + k ≡ k + i = omega arith in
    rw (div-div-eq-div-mul x (2 ^ k) (2 ^ i), order, two_pow-add k i) refl

-- Digit `i` of an arithmetic right shift by `k` is digit `i + k` of the operand, and its sign digit
-- where there is none.
pub shift_right_arithmetic-bit_of :
    (value k i : ℕ)
    → value < 2 ^ 32
    → i < 32
    → bit_of (shift_right_arithmetic value k) i
      ≡ (if ltb (i + k) 32 then bit_of value (i + k) else bit_of value 31)
unfolding shift_right_arithmetic shift_right
shift_right_arithmetic-bit_of value k i small in_word = elim (as_int32-cases value) [
  | inl (below, e) ↦
      let quotient : value / 2 ^ k % 2 ^ 32 ≡ value / 2 ^ k =
        omega (arith, div-le_self value (2 ^ k)) in
      rw (e, quotient, shr-bit_of value k i)
        (ground (arith, bit_of_high value 32 (i + k) small, bit_of_top 31 value small))
  | inr (above, e) ↦
      let complement : ℕ = 2 ^ 32 - 1 - value in
      let quotient : complement / 2 ^ k % 2 ^ 32 ≡ complement / 2 ^ k =
        omega (arith, div-le_self complement (2 ^ k)) in
      rw (e, quotient)
        (ground (
          arith,
          not32-bit_of (complement / 2 ^ k) i (omega (arith, div-le_self complement (2 ^ k)))
              in_word,
          shr-bit_of complement k i,
          bit_of_high complement 32 (i + k),
          not32-bit_of value (i + k) small,
          bit_of_top 31 value small,
          bit_of-lt value (i + k),
        ))
]
