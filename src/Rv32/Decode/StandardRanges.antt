-- ===== src/Rv32/Decode/StandardRanges.antt =====
-- core32/src/decode.cpp: the ranges of the operands that `decode_instruction` returns.
use risc_v_cpu_emulator.Prelude.{ℕ, ◌^◌, ◌<◌, arith, Bool}
use risc_v_cpu_emulator.Rv32.Types.{InstructionKind as Kind}
use risc_v_cpu_emulator.Rv32.Decode.Fields.{InstructionFields, extract_fields, make_decoded}
use risc_v_cpu_emulator.Rv32.Decode.Standard.{
  decode_opcode, decode_op, by_funct7, by_funct7_alternate, make_r, make_i, make_s, make_b, make_a,
  make_csr, decode_op_imm, decode_shift_left, decode_shift_right, decode_load, decode_store,
  decode_branch, decode_jalr, decode_amo, decode_system, decode_csr, decode_misc_mem, illegal_of,
  decode_instruction,
}
use risc_v_cpu_emulator.Rv32.Decode.Ranges.{
  IsDecoded, if-IsDecoded, made, bits-lt, decode_i_imm-lt, decode_s_imm-lt, decode_b_imm-lt,
  decode_j_imm-lt, decode_u_imm-lt,
}

-- What the closures and the opcodes make of fields in range.
module _ (raw : ℕ) (small : raw < 2 ^ 32) (fields : InstructionFields) (in_rd : fields.rd < 32)
    (in_rs1 : fields.rs1 < 32) (in_rs2 : fields.rs2 < 32) where
  illegal_of-IsDecoded : IsDecoded raw 4 (illegal_of raw)
  unfolding illegal_of
  illegal_of-IsDecoded =
      made raw small Kind.illegal 0 0 0 0 (omega arith) (omega arith) (omega arith) (omega arith)

  make_r-IsDecoded : (kind : Kind) → IsDecoded raw 4 (make_r raw fields kind)
  unfolding make_r
  make_r-IsDecoded kind = made raw small _ _ _ _ _ in_rd in_rs1 in_rs2 (omega arith)

  make_i-IsDecoded :
      (kind : Kind) (immediate : ℕ)
      → immediate < 2 ^ 32
      → IsDecoded raw 4 (make_i raw fields kind immediate)
  unfolding make_i
  make_i-IsDecoded kind immediate h = made raw small _ _ _ _ _ in_rd in_rs1 (omega arith) h

  make_s-IsDecoded : (kind : Kind) → IsDecoded raw 4 (make_s raw fields kind)
  unfolding make_s
  make_s-IsDecoded kind =
      made raw small _ _ _ _ _ (omega arith) in_rs1 in_rs2 (decode_s_imm-lt raw small)

  make_b-IsDecoded : (kind : Kind) → IsDecoded raw 4 (make_b raw fields kind)
  unfolding make_b
  make_b-IsDecoded kind =
      made raw small _ _ _ _ _ (omega arith) in_rs1 in_rs2 (decode_b_imm-lt raw small)

  make_a-IsDecoded : (kind : Kind) → IsDecoded raw 4 (make_a raw fields kind)
  unfolding make_a make_decoded
  make_a-IsDecoded kind = ground arith

  make_csr-IsDecoded :
      (kind : Kind) (immediate_form : Bool)
      → IsDecoded raw 4 (make_csr raw fields kind immediate_form)
  unfolding make_csr make_decoded
  make_csr-IsDecoded kind immediate_form =
      ground (arith, bits-lt raw small 31 20 (omega arith) (omega arith))

  shift_amount-lt : fields.rs2 < 2 ^ 32
  shift_amount-lt = omega arith

  small_made :
      (kind : Kind) (rd rs1 rs2 immediate : ℕ)
      → rd < 32
      → rs1 < 32
      → rs2 < 32
      → immediate < 2 ^ 32
      → IsDecoded raw 4 (make_decoded raw kind rd rs1 rs2 immediate)
  small_made = made raw small

  decode_branch-IsDecoded : IsDecoded raw 4 (decode_branch raw fields)
  unfolding decode_branch
  decode_branch-IsDecoded = search (if-IsDecoded, illegal_of-IsDecoded, make_b-IsDecoded) depth 16

  decode_load-IsDecoded : IsDecoded raw 4 (decode_load raw fields)
  unfolding decode_load
  decode_load-IsDecoded =
      search (if-IsDecoded, illegal_of-IsDecoded, make_i-IsDecoded, decode_i_imm-lt raw small) depth
        16

  decode_store-IsDecoded : IsDecoded raw 4 (decode_store raw fields)
  unfolding decode_store
  decode_store-IsDecoded = search (if-IsDecoded, illegal_of-IsDecoded, make_s-IsDecoded) depth 16

  decode_op_imm-IsDecoded : IsDecoded raw 4 (decode_op_imm raw fields)
  unfolding decode_op_imm decode_shift_left decode_shift_right
  decode_op_imm-IsDecoded =
      search
        (
          if-IsDecoded,
          illegal_of-IsDecoded,
          make_i-IsDecoded,
          decode_i_imm-lt raw small,
          shift_amount-lt,
        )
        depth 16

  decode_op-IsDecoded : IsDecoded raw 4 (decode_op raw fields)
  unfolding decode_op by_funct7 by_funct7_alternate
  decode_op-IsDecoded = search (if-IsDecoded, illegal_of-IsDecoded, make_r-IsDecoded) depth 16

  decode_amo-IsDecoded : IsDecoded raw 4 (decode_amo raw fields)
  unfolding decode_amo
  decode_amo-IsDecoded = search (if-IsDecoded, illegal_of-IsDecoded, make_a-IsDecoded) depth 16

  plain : (kind : Kind) → IsDecoded raw 4 (make_decoded raw kind 0 0 0 0)
  plain kind = small_made kind 0 0 0 0 (omega arith) (omega arith) (omega arith) (omega arith)

  fence-IsDecoded : IsDecoded raw 4 (make_decoded raw Kind.sfence_vma 0 fields.rs1 fields.rs2 0)
  fence-IsDecoded = small_made _ _ _ _ _ (omega arith) in_rs1 in_rs2 (omega arith)

  upper-IsDecoded :
      (kind : Kind) (immediate : ℕ)
      → immediate < 2 ^ 32
      → IsDecoded raw 4 (make_decoded raw kind fields.rd 0 0 immediate)
  upper-IsDecoded kind immediate h = small_made _ _ _ _ _ in_rd (omega arith) (omega arith) h

  decode_misc_mem-IsDecoded : IsDecoded raw 4 (decode_misc_mem raw fields)
  unfolding decode_misc_mem
  decode_misc_mem-IsDecoded = search (if-IsDecoded, illegal_of-IsDecoded, plain) depth 16

  decode_csr-IsDecoded : IsDecoded raw 4 (decode_csr raw fields)
  unfolding decode_csr
  decode_csr-IsDecoded = search (if-IsDecoded, illegal_of-IsDecoded, make_csr-IsDecoded) depth 16

  decode_system-IsDecoded : IsDecoded raw 4 (decode_system raw fields)
  unfolding decode_system
  decode_system-IsDecoded =
      search (if-IsDecoded, plain, fence-IsDecoded, decode_csr-IsDecoded) depth 16

  decode_jalr-IsDecoded : IsDecoded raw 4 (decode_jalr raw fields)
  unfolding decode_jalr
  decode_jalr-IsDecoded =
      search (if-IsDecoded, illegal_of-IsDecoded, make_i-IsDecoded, decode_i_imm-lt raw small) depth
        16

  decode_opcode-IsDecoded : IsDecoded raw 4 (decode_opcode raw fields)
  unfolding decode_opcode
  decode_opcode-IsDecoded =
      search
        (
          if-IsDecoded,
          illegal_of-IsDecoded,
          upper-IsDecoded,
          decode_u_imm-lt raw small,
          decode_j_imm-lt raw small,
          decode_jalr-IsDecoded,
          decode_branch-IsDecoded,
          decode_load-IsDecoded,
          decode_store-IsDecoded,
          decode_op_imm-IsDecoded,
          decode_op-IsDecoded,
          decode_amo-IsDecoded,
          decode_misc_mem-IsDecoded,
          decode_system-IsDecoded,
        )
        depth 16

-- Whatever the word, legal or not, `decode_instruction` keeps it, reports four bytes, and yields
-- register numbers below 32, a 32-bit immediate and a 12-bit CSR address.
pub decode_instruction-IsDecoded :
    (raw : ℕ) → raw < 2 ^ 32 → IsDecoded raw 4 (decode_instruction raw)
unfolding decode_instruction extract_fields
decode_instruction-IsDecoded raw small =
    decode_opcode-IsDecoded raw small (extract_fields raw)
      (bits-lt raw small 11 7 (omega arith) (omega arith))
      (bits-lt raw small 19 15 (omega arith) (omega arith))
      (bits-lt raw small 24 20 (omega arith) (omega arith))
