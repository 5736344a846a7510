-- ===== src/Rv32/Execute/Signed.antt =====
-- core32/src/execute.cpp: the signed helpers. An `int64_t` is an integer of ℤ; the operands are
-- 32-bit words, so no product leaves its range.
use risc_v_cpu_emulator.Prelude.{ℕ, ◌-◌, ◌/◌, ◌%◌, ◌^◌, Bool, ltb, ◌==◌, ◌&&◌, if◌then◌else◌}
use risc_v_cpu_emulator.Prelude.Int.{ℤ, pos, negsuc, ◌*ℤ◌, sub_ℕ, tdiv, tmod, shift_right, ltb_ℤ}
use risc_v_cpu_emulator.Words.{has_bits}

unfoldable pub as_signed_word : ℕ → ℤ
as_signed_word value = if has_bits value 0x80000000 then sub_ℕ value (2 ^ 32) else pos value

-- The conversions of an integer to `uint32_t` and `uint64_t`.
abbrev pub to_unsigned : ℕ → ℤ → ℕ
to_unsigned width (pos n) = n % 2 ^ width
to_unsigned width (negsuc n) = 2 ^ width - 1 - n % 2 ^ width

-- `static_cast<std::int32_t>(value)`.
abbrev pub as_int32 : ℕ → ℤ
as_int32 value = if ltb value (2 ^ 31) then pos value else negsuc (2 ^ 32 - 1 - value)

-- `static_cast<std::uint32_t>(value >> 32U)`.
unfoldable pub high_word : ℕ → ℕ
high_word value = value / 2 ^ 32 % 2 ^ 32

unfoldable pub multiply_high_signed : ℕ → ℕ → ℕ
multiply_high_signed lhs rhs = high_word (to_unsigned 64 (as_signed_word lhs *ℤ as_signed_word rhs))

unfoldable pub multiply_high_signed_unsigned : ℕ → ℕ → ℕ
multiply_high_signed_unsigned lhs rhs = high_word (to_unsigned 64 (as_signed_word lhs *ℤ pos rhs))

unfoldable pub divide_signed : ℕ → ℕ → ℕ
divide_signed dividend divisor =
    if divisor == 0
    then 0xFFFFFFFF
    else if dividend == 0x80000000 && divisor == 0xFFFFFFFF
    then dividend
    else to_unsigned 32 (tdiv (as_signed_word dividend) (as_signed_word divisor))

unfoldable pub remainder_signed : ℕ → ℕ → ℕ
remainder_signed dividend divisor =
    if divisor == 0
    then dividend
    else if dividend == 0x80000000 && divisor == 0xFFFFFFFF
    then 0
    else to_unsigned 32 (tmod (as_signed_word dividend) (as_signed_word divisor))

-- `static_cast<std::uint32_t>(static_cast<std::int32_t>(value) >> amount)`.
unfoldable pub shift_right_arithmetic : ℕ → ℕ → ℕ
shift_right_arithmetic value amount = to_unsigned 32 (shift_right (as_int32 value) amount)

-- `static_cast<std::int32_t>(lhs) < static_cast<std::int32_t>(rhs)`.
unfoldable pub less_signed : ℕ → ℕ → Bool
less_signed lhs rhs = ltb_ℤ (as_int32 lhs) (as_int32 rhs)
