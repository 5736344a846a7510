-- ===== src/Rv32/Execute/Integer.antt =====
-- core32/src/execute.cpp, `execute_decoded`: the integer operations that touch no memory.
use risc_v_cpu_emulator.Prelude.{
  ℕ, ◌*◌, ◌/◌, ◌%◌, ◌^◌, bit_and, bit_or, bit_xor, Bool, true, false, Option, none, some, ltb, ◌==◌,
  if◌then◌else◌,
}
use risc_v_cpu_emulator.Words.{add32, sub32, shl32, shr}
use risc_v_cpu_emulator.Rv32.Types.{
  InstructionKind as Kind, DecodedInstruction, PrivilegeMode, ExecuteStatus, RegisterWrite,
  CsrWrite, PrivilegeWrite, PendingCommit,
}
use risc_v_cpu_emulator.Rv32.Execute.Signed.{
  high_word, multiply_high_signed, multiply_high_signed_unsigned, divide_signed, remainder_signed,
  shift_right_arithmetic, less_signed,
}

-- The defaults of the members of a `PendingCommit`.
abbrev pub no_register_write : RegisterWrite
no_register_write = record { enabled = false; index = 0; value = 0 }

abbrev pub no_csr_write : CsrWrite
no_csr_write = record { enabled = false; address = 0; value = 0 }

abbrev pub no_privilege_write : PrivilegeWrite
no_privilege_write = record { enabled = false; value = PrivilegeMode.machine }

unfoldable pub not_ready : ExecuteStatus → ℕ → ℕ → PendingCommit
not_ready status pc instruction = record {
  status = status;
  pc = pc;
  instruction = instruction;
  next_pc = pc;
  register_write = no_register_write;
  csr_write = no_csr_write;
  privilege_write = no_privilege_write;
  wait_for_interrupt = false;
}

unfoldable pub ready_commit : ℕ → ℕ → ℕ → RegisterWrite → PendingCommit
ready_commit pc instruction next_pc register_write = record {
  status = ExecuteStatus.ready;
  pc = pc;
  instruction = instruction;
  next_pc = next_pc;
  register_write = register_write;
  csr_write = no_csr_write;
  privilege_write = no_privilege_write;
  wait_for_interrupt = false;
}

abbrev flag : Bool → ℕ
flag b = if b then 1 else 0

-- The value that an operation writes to `rd`; `none` for the kinds that write none here.
unfoldable pub integer_value : Kind → ℕ → ℕ → ℕ → Option ℕ
integer_value Kind.lui immediate a b = some immediate
integer_value Kind.addi immediate a b = some (add32 a immediate)
integer_value Kind.slti immediate a b = some (flag (less_signed a immediate))
integer_value Kind.sltiu immediate a b = some (flag (ltb a immediate))
integer_value Kind.xori immediate a b = some (bit_xor a immediate)
integer_value Kind.ori immediate a b = some (bit_or a immediate)
integer_value Kind.andi immediate a b = some (bit_and a immediate)
integer_value Kind.slli immediate a b = some (shl32 a (bit_and immediate 0x1F))
integer_value Kind.srli immediate a b = some (shr a (bit_and immediate 0x1F))
integer_value Kind.srai immediate a b = some (shift_right_arithmetic a (bit_and immediate 0x1F))
integer_value Kind.add immediate a b = some (add32 a b)
integer_value Kind.sub immediate a b = some (sub32 a b)
integer_value Kind.sll immediate a b = some (shl32 a (bit_and b 0x1F))
integer_value Kind.slt immediate a b = some (flag (less_signed a b))
integer_value Kind.sltu immediate a b = some (flag (ltb a b))
integer_value Kind.xor immediate a b = some (bit_xor a b)
integer_value Kind.srl immediate a b = some (shr a (bit_and b 0x1F))
integer_value Kind.sra immediate a b = some (shift_right_arithmetic a (bit_and b 0x1F))
integer_value Kind.or immediate a b = some (bit_or a b)
integer_value Kind.and immediate a b = some (bit_and a b)
integer_value Kind.mul immediate a b = some (a * b % 2 ^ 32)
integer_value Kind.mulh immediate a b = some (multiply_high_signed a b)
integer_value Kind.mulhsu immediate a b = some (multiply_high_signed_unsigned a b)
integer_value Kind.mulhu immediate a b = some (high_word (a * b))
integer_value Kind.div immediate a b = some (divide_signed a b)
integer_value Kind.divu immediate a b = some (if b == 0 then 0xFFFFFFFF else a / b)
integer_value Kind.rem immediate a b = some (remainder_signed a b)
integer_value Kind.remu immediate a b = some (if b == 0 then a else a % b)
integer_value _ immediate a b = none

-- The switch; the default, and an invalid instruction, are unsupported.
unfoldable pub execute_kind : Kind → DecodedInstruction → ℕ → Option ℕ → PendingCommit
execute_kind Kind.fence decoded pc value =
    ready_commit pc decoded.raw (add32 pc decoded.length) no_register_write
execute_kind Kind.fence_i decoded pc value =
    ready_commit pc decoded.raw (add32 pc decoded.length) no_register_write
execute_kind Kind.ecall decoded pc value = not_ready ExecuteStatus.environment_call pc decoded.raw
execute_kind Kind.ebreak decoded pc value = not_ready ExecuteStatus.breakpoint pc decoded.raw
execute_kind _ decoded pc (some value) =
    ready_commit pc decoded.raw (add32 pc decoded.length)
      (record { enabled = true; index = decoded.rd; value = value })
execute_kind _ decoded pc none = not_ready ExecuteStatus.unsupported_instruction pc decoded.raw

unfoldable pub execute_decoded : DecodedInstruction → ℕ → ℕ → ℕ → PendingCommit
execute_decoded decoded pc rs1_value rs2_value =
    execute_kind decoded.kind decoded pc
      (integer_value decoded.kind decoded.immediate rs1_value rs2_value)
