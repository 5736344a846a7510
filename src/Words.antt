-- ===== src/Words.antt =====
-- `uint32_t` values as native numbers below 2 ^ 32, with the operators of the source.
pub mod Bits
pub mod Fields
pub mod Masks
use risc_v_cpu_emulator.Prelude.{ℕ, ◌+◌, ◌-◌, ◌*◌, ◌/◌, ◌%◌, ◌^◌, bit_and, Bool, not, ◌==◌}

abbrev pub word_modulus : ℕ
word_modulus = 2 ^ 32

-- Unsigned arithmetic wraps; `-` on ℕ stops at 0, so the modulus is added first.
abbrev pub add32 : ℕ → ℕ → ℕ
add32 a b = (a + b) % 2 ^ 32

abbrev pub sub32 : ℕ → ℕ → ℕ
sub32 a b = (a + 2 ^ 32 - b) % 2 ^ 32

abbrev pub shl32 : ℕ → ℕ → ℕ
shl32 a k = a * 2 ^ k % 2 ^ 32

abbrev pub shr : ℕ → ℕ → ℕ
shr a k = a / 2 ^ k

-- `~a`.
abbrev pub not32 : ℕ → ℕ
not32 a = 2 ^ 32 - 1 - a

-- `(a & mask) != 0U`.
abbrev pub has_bits : ℕ → ℕ → Bool
has_bits a mask = not (bit_and a mask == 0)
