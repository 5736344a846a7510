-- ===== src/Rv32/Examples/Execution.antt =====
-- The theorems on the execution units at sample operands.
use risc_v_cpu_emulator.Prelude.{
  false, ◌+◌, ◌^◌, ◌%◌, ◌*◌, ◌≡◌, refl, arith, inl, if◌then◌else◌, ltb,
}
use risc_v_cpu_emulator.Prelude.Int.{pos, ◌*ℤ◌, ◌+ℤ◌}
use risc_v_cpu_emulator.Words.Bits.{bit_of}
use risc_v_cpu_emulator.Rv32.Types.{InstructionKind as Kind, DecodedInstruction}
use risc_v_cpu_emulator.Rv32.Decode.Fields.{make_decoded}
use risc_v_cpu_emulator.Rv32.Execute.Integer.{execute_decoded}
use risc_v_cpu_emulator.Rv32.Execute.Arithmetic.{
  Operation, Source, Means, IsComputed, execute_decoded-IsComputed,
}
use risc_v_cpu_emulator.Rv32.Execute.Targets.{
  Transfer, goes, target_of, IsTransferred, execute_control_flow-IsTransferred,
}
use risc_v_cpu_emulator.Rv32.Execute.Signed.{
  as_int32, multiply_high_signed, multiply_high_signed_unsigned, divide_signed, remainder_signed,
  shift_right_arithmetic,
}
use risc_v_cpu_emulator.Rv32.Execute.ControlFlow.{execute_control_flow}
use risc_v_cpu_emulator.Rv32.Execute.Multiply.{
  multiply_high_signed-mul, multiply_high_signed_unsigned-mul,
}
use risc_v_cpu_emulator.Rv32.Execute.Divide.{IsRemainder, divide_signed-remainder_signed}
use risc_v_cpu_emulator.Rv32.Execute.Shifts.{shift_right_arithmetic-bit_of}
use risc_v_cpu_emulator.Rv32.Execute.Alignment.{IsAligned, execute_control_flow-IsAligned}

-- -7 divided by 2.
divide_minus_seven :
    (as_int32 (divide_signed 0xFFFFFFF9 2) *ℤ as_int32 2 +ℤ as_int32 (remainder_signed 0xFFFFFFF9 2)
      ≡ as_int32 0xFFFFFFF9)
    × IsRemainder (as_int32 0xFFFFFFF9) (as_int32 2) (as_int32 (remainder_signed 0xFFFFFFF9 2))
divide_minus_seven =
    divide_signed-remainder_signed 0xFFFFFFF9 2 (omega arith) (omega arith) (omega arith)
      (inl (omega arith))

multiply_minus_seven :
    as_int32 (multiply_high_signed 0xFFFFFFF9 2) *ℤ pos (2 ^ 32) +ℤ pos (0xFFFFFFF9 * 2 % 2 ^ 32)
    ≡ as_int32 0xFFFFFFF9 *ℤ as_int32 2
multiply_minus_seven = multiply_high_signed-mul 0xFFFFFFF9 2 (omega arith) (omega arith)

multiply_minus_seven_unsigned :
    as_int32 (multiply_high_signed_unsigned 0xFFFFFFF9 2) *ℤ pos (2 ^ 32)
      +ℤ pos (0xFFFFFFF9 * 2 % 2 ^ 32)
    ≡ as_int32 0xFFFFFFF9 *ℤ pos 2
multiply_minus_seven_unsigned =
    multiply_high_signed_unsigned-mul 0xFFFFFFF9 2 (omega arith) (omega arith)

shift_minus_seven :
    bit_of (shift_right_arithmetic 0xFFFFFFF9 1) 31
    ≡ (if ltb (31 + 1) 32 then bit_of 0xFFFFFFF9 (31 + 1) else bit_of 0xFFFFFFF9 31)
shift_minus_seven = shift_right_arithmetic-bit_of 0xFFFFFFF9 1 31 (omega arith) (omega arith)

-- `jalr x1, 3(x2)` and `beq x1, x2, 6`.
abbrev jump_back : DecodedInstruction
jump_back = record (make_decoded 0 Kind.jalr 1 2 0 3) { raw = 0x003100E7 }

abbrev branch_odd : DecodedInstruction
branch_odd = make_decoded 0x00208363 Kind.beq 0 1 2 6

branch_odd-IsAligned : IsAligned 0x1000 (execute_control_flow branch_odd 0x1000 7 7)
unfolding make_decoded
branch_odd-IsAligned = execute_control_flow-IsAligned branch_odd 0x1000 7 7 refl refl

-- `blt x1, x2, 8`, with -1 and 1.
abbrev branch_less : DecodedInstruction
branch_less = make_decoded 0x0020C463 Kind.blt 0 1 2 8

branch_less-IsTransferred :
    IsTransferred branch_less 0x1000 false
      (goes Transfer.blt 0xFFFFFFFF 1)
      (target_of branch_less 0x1000 Transfer.blt 0xFFFFFFFF)
      (execute_control_flow branch_less 0x1000 0xFFFFFFFF 1)
unfolding make_decoded
branch_less-IsTransferred =
    execute_control_flow-IsTransferred branch_less 0x1000 0xFFFFFFFF 1 Transfer.blt refl
      (omega arith) (omega arith)

-- `srai x1, x2, 4`, of -16.
abbrev shift_four : DecodedInstruction
shift_four = make_decoded 0x40415093 Kind.srai 1 2 0 4

shift_four-IsComputed :
    IsComputed shift_four 0x1000
      (Means Operation.sra 0xFFFFFFF0 4)
      (execute_decoded shift_four 0x1000 0xFFFFFFF0 0)
unfolding make_decoded
shift_four-IsComputed =
    execute_decoded-IsComputed shift_four 0x1000 0xFFFFFFF0 0 (omega arith) (omega arith)
      (omega arith) Operation.sra Source.from_immediate refl
