-- ===== src/Rv32/Execute/Results.antt =====
-- core32/src/execute.cpp: the ranges of what `execute_decoded` and `execute_control_flow` return.
use native.Mathlib.Nat.{div-le_self, mod-le}
use risc_v_cpu_emulator.Prelude.{ℕ, ◌*◌, ◌^◌, ◌<◌, ◌≡◌, refl, bit_and, Option, none, some, arith}
use risc_v_cpu_emulator.Prelude.Int.{ℤ, pos, negsuc, tdiv, tmod}
use risc_v_cpu_emulator.Words.{add32, not32}
use risc_v_cpu_emulator.Words.Bits.{bit_and-le, bit_or-lt, bit_xor-lt}
use risc_v_cpu_emulator.Rv32.Types.{InstructionKind as Kind, DecodedInstruction, PendingCommit}
use risc_v_cpu_emulator.Rv32.Decode.Ranges.{IsDecoded}
use risc_v_cpu_emulator.Rv32.Execute.Signed.{
  as_signed_word, to_unsigned, high_word, multiply_high_signed, multiply_high_signed_unsigned,
  divide_signed, remainder_signed, shift_right_arithmetic,
}
use risc_v_cpu_emulator.Rv32.Execute.ControlFlow.{
  refuse, continue_at, finish_target, branch_on, control_flow_kind, execute_control_flow,
}
use risc_v_cpu_emulator.Rv32.Execute.Integer.{
  integer_value, execute_kind, execute_decoded, ready_commit, not_ready,
}

-- What the register write and the next PC of a result must satisfy.
pub record IsWordCommit (pending : PendingCommit) : Type 0 where
  pub in_index : pending.register_write.index < 32
  pub in_value : pending.register_write.value < 2 ^ 32
  pub in_next_pc : pending.next_pc < 2 ^ 32

to_unsigned-lt : (z : ℤ) → to_unsigned 32 z < 2 ^ 32
to_unsigned-lt (pos n) = omega arith
to_unsigned-lt (negsuc n) = omega arith

high_word-lt : (value : ℕ) → high_word value < 2 ^ 32
unfolding high_word
high_word-lt value = omega arith

signed_results :
    (a b : ℕ)
    → a < 2 ^ 32
    → (multiply_high_signed a b < 2 ^ 32)
      × (multiply_high_signed_unsigned a b < 2 ^ 32)
      × (divide_signed a b < 2 ^ 32)
      × (remainder_signed a b < 2 ^ 32)
      × (shift_right_arithmetic a b < 2 ^ 32)
unfolding multiply_high_signed multiply_high_signed_unsigned divide_signed remainder_signed
    shift_right_arithmetic
signed_results a b h = (
  high_word-lt _,
  high_word-lt _,
  ground (arith, to_unsigned-lt (tdiv (as_signed_word a) (as_signed_word b))),
  ground (arith, to_unsigned-lt (tmod (as_signed_word a) (as_signed_word b))),
  to_unsigned-lt _,
)

integer_value-lt :
    (kind : Kind) (immediate a b : ℕ)
    → immediate < 2 ^ 32
    → a < 2 ^ 32
    → b < 2 ^ 32
    → {value : ℕ} → integer_value kind immediate a b ≡ some value
    → value < 2 ^ 32
unfolding integer_value
integer_value-lt Kind.lui immediate a b p q r h = ground arith
integer_value-lt _ immediate a b p q r h = ground (
  arith,
  bit_and-le a immediate,
  bit_and-le a b,
  bit_or-lt 32 a immediate,
  bit_or-lt 32 a b,
  bit_xor-lt 32 a immediate,
  bit_xor-lt 32 a b,
  signed_results a b,
  signed_results a (bit_and immediate 0x1F),
  signed_results a (bit_and b 0x1F),
  high_word-lt (a * b),
  div-le_self a (2 ^ bit_and immediate 0x1F),
  div-le_self a (2 ^ bit_and b 0x1F),
  div-le_self a b,
  mod-le a b,
)

execute_kind-IsWordCommit :
    (kind : Kind) (decoded : DecodedInstruction) (pc raw length : ℕ) (value : Option ℕ)
    → IsDecoded raw length decoded
    → pc < 2 ^ 32
    → ((v : ℕ) → value ≡ some v → v < 2 ^ 32)
    → IsWordCommit (execute_kind kind decoded pc value)
unfolding execute_kind ready_commit not_ready
execute_kind-IsWordCommit Kind.fence decoded pc raw length value d p h = ground arith
execute_kind-IsWordCommit _ decoded pc raw length none d p h = ground arith
execute_kind-IsWordCommit _ decoded pc raw length (some v) d p h = ground (arith, h v refl)

-- Whatever a decoder returns, `execute_decoded` on word operands at a word PC names a register below 32, a word
-- to write there, and a word as the next PC.
pub execute_decoded-IsWordCommit :
    (decoded : DecodedInstruction) (pc a b raw length : ℕ)
    → IsDecoded raw length decoded
    → pc < 2 ^ 32
    → a < 2 ^ 32
    → b < 2 ^ 32
    → IsWordCommit (execute_decoded decoded pc a b)
unfolding execute_decoded
execute_decoded-IsWordCommit decoded pc a b raw length d p q r =
    execute_kind-IsWordCommit decoded.kind decoded pc raw length _ d p
      λ v h. integer_value-lt decoded.kind decoded.immediate a b d.in_immediate q r h

control_flow_kind-IsWordCommit :
    (decoded : DecodedInstruction) (pc : ℕ) (kind : Kind) (a b raw length : ℕ)
    → IsDecoded raw length decoded
    → pc < 2 ^ 32
    → IsWordCommit (control_flow_kind decoded pc kind a b).pending
unfolding control_flow_kind branch_on finish_target continue_at refuse ready_commit not_ready
control_flow_kind-IsWordCommit decoded pc Kind.auipc a b raw length d p = ground arith
control_flow_kind-IsWordCommit decoded pc _ a b raw length d p =
    ground (arith, bit_and-le (add32 a decoded.immediate) (not32 1))

-- Whatever a decoder returns, `execute_control_flow` at a word PC names a register below 32, a word to
-- write there, and a word as the next PC.
pub execute_control_flow-IsWordCommit :
    (decoded : DecodedInstruction) (pc a b raw length : ℕ)
    → IsDecoded raw length decoded
    → pc < 2 ^ 32
    → IsWordCommit (execute_control_flow decoded pc a b).pending
unfolding execute_control_flow
execute_control_flow-IsWordCommit decoded pc a b raw length d p =
    control_flow_kind-IsWordCommit decoded pc decoded.kind a b raw length d p
