-- ===== src/Rv32/Decode/Standard.antt =====
-- core32/src/decode.cpp, `decode_instruction`: one function for each opcode of the switch.
use risc_v_cpu_emulator.Prelude.{ℕ, bit_and, Bool, true, false, not, ◌==◌, if◌then◌else◌}
use risc_v_cpu_emulator.Rv32.Types.{InstructionKind as Kind, DecodedInstruction}
use risc_v_cpu_emulator.Rv32.Decode.Fields.{
  InstructionFields, get_bits, extract_fields, make_decoded, decode_i_imm, decode_s_imm,
  decode_b_imm, decode_u_imm, decode_j_imm,
}

unfoldable pub illegal_of : ℕ → DecodedInstruction
illegal_of instruction = make_decoded instruction Kind.illegal 0 0 0 0

-- The `make_…` closures of `decode_instruction`, and its switch by opcode.
module _ (instruction : ℕ) (fields : InstructionFields) where
  unfoldable pub make_r : Kind → DecodedInstruction
  make_r kind = make_decoded instruction kind fields.rd fields.rs1 fields.rs2 0

  unfoldable pub make_i : Kind → ℕ → DecodedInstruction
  make_i kind immediate = make_decoded instruction kind fields.rd fields.rs1 0 immediate

  unfoldable pub make_s : Kind → DecodedInstruction
  make_s kind = make_decoded instruction kind 0 fields.rs1 fields.rs2 (decode_s_imm instruction)

  unfoldable pub make_b : Kind → DecodedInstruction
  make_b kind = make_decoded instruction kind 0 fields.rs1 fields.rs2 (decode_b_imm instruction)

  unfoldable pub make_a : Kind → DecodedInstruction
  unfolding make_decoded
  make_a kind = record (make_decoded instruction kind fields.rd fields.rs1 fields.rs2 0) {
    acquire = not (get_bits instruction 26 26 == 0);
    release = not (get_bits instruction 25 25 == 0);
  }

  unfoldable pub make_csr : Kind → Bool → DecodedInstruction
  unfolding make_decoded
  make_csr kind immediate_form =
      record (make_decoded instruction kind fields.rd (if immediate_form then 0 else fields.rs1) 0
        (if immediate_form then fields.rs1 else 0)) { csr = get_bits instruction 31 20 }

  unfoldable pub decode_branch : DecodedInstruction
  decode_branch =
      if fields.funct3 == 0
      then make_b Kind.beq
      else if fields.funct3 == 1
      then make_b Kind.bne
      else if fields.funct3 == 4
      then make_b Kind.blt
      else if fields.funct3 == 5
      then make_b Kind.bge
      else if fields.funct3 == 6
      then make_b Kind.bltu
      else if fields.funct3 == 7
      then make_b Kind.bgeu
      else illegal_of instruction

  unfoldable pub decode_load : DecodedInstruction
  decode_load =
      if fields.funct3 == 0
      then make_i Kind.lb (decode_i_imm instruction)
      else if fields.funct3 == 1
      then make_i Kind.lh (decode_i_imm instruction)
      else if fields.funct3 == 2
      then make_i Kind.lw (decode_i_imm instruction)
      else if fields.funct3 == 4
      then make_i Kind.lbu (decode_i_imm instruction)
      else if fields.funct3 == 5
      then make_i Kind.lhu (decode_i_imm instruction)
      else illegal_of instruction

  unfoldable pub decode_store : DecodedInstruction
  decode_store =
      if fields.funct3 == 0
      then make_s Kind.sb
      else if fields.funct3 == 1
      then make_s Kind.sh
      else if fields.funct3 == 2
      then make_s Kind.sw
      else illegal_of instruction

  -- The shifts by an immediate: `case 0x1U` and `case 0x5U` of the immediate operations.
  unfoldable pub decode_shift_left : DecodedInstruction
  decode_shift_left =
      if fields.funct7 == 0 then make_i Kind.slli fields.rs2 else illegal_of instruction

  unfoldable pub decode_shift_right : DecodedInstruction
  decode_shift_right =
      if fields.funct7 == 0
      then make_i Kind.srli fields.rs2
      else if fields.funct7 == 0x20
      then make_i Kind.srai fields.rs2
      else illegal_of instruction

  unfoldable pub decode_op_imm : DecodedInstruction
  decode_op_imm =
      if fields.funct3 == 0
      then make_i Kind.addi (decode_i_imm instruction)
      else if fields.funct3 == 2
      then make_i Kind.slti (decode_i_imm instruction)
      else if fields.funct3 == 3
      then make_i Kind.sltiu (decode_i_imm instruction)
      else if fields.funct3 == 4
      then make_i Kind.xori (decode_i_imm instruction)
      else if fields.funct3 == 6
      then make_i Kind.ori (decode_i_imm instruction)
      else if fields.funct3 == 7
      then make_i Kind.andi (decode_i_imm instruction)
      else if fields.funct3 == 1
      then decode_shift_left
      else if fields.funct3 == 5
      then decode_shift_right
      else illegal_of instruction

  -- The choice by funct7 inside each case of the register operations: base, multiply or divide, and
  -- alternate where there is one.
  unfoldable pub by_funct7 : Kind → Kind → DecodedInstruction
  by_funct7 base multiply_divide =
      if fields.funct7 == 0
      then make_r base
      else if fields.funct7 == 1
      then make_r multiply_divide
      else illegal_of instruction

  unfoldable pub by_funct7_alternate : Kind → Kind → Kind → DecodedInstruction
  by_funct7_alternate base multiply_divide alternate =
      if fields.funct7 == 0
      then make_r base
      else if fields.funct7 == 1
      then make_r multiply_divide
      else if fields.funct7 == 0x20
      then make_r alternate
      else illegal_of instruction

  unfoldable pub decode_op : DecodedInstruction
  decode_op =
      if fields.funct3 == 0
      then by_funct7_alternate Kind.add Kind.mul Kind.sub
      else if fields.funct3 == 1
      then by_funct7 Kind.sll Kind.mulh
      else if fields.funct3 == 2
      then by_funct7 Kind.slt Kind.mulhsu
      else if fields.funct3 == 3
      then by_funct7 Kind.sltu Kind.mulhu
      else if fields.funct3 == 4
      then by_funct7 Kind.xor Kind.div
      else if fields.funct3 == 5
      then by_funct7_alternate Kind.srl Kind.divu Kind.sra
      else if fields.funct3 == 6
      then by_funct7 Kind.or Kind.rem
      else if fields.funct3 == 7
      then by_funct7 Kind.and Kind.remu
      else illegal_of instruction

  unfoldable pub decode_amo : DecodedInstruction
  decode_amo =
      let funct5 = get_bits instruction 31 27 in
      if not (fields.funct3 == 2)
      then illegal_of instruction
      else if funct5 == 0
      then make_a Kind.amo_add_w
      else if funct5 == 1
      then make_a Kind.amo_swap_w
      else if funct5 == 2
      then (if fields.rs2 == 0 then make_a Kind.lr_w else illegal_of instruction)
      else if funct5 == 3
      then make_a Kind.sc_w
      else if funct5 == 4
      then make_a Kind.amo_xor_w
      else if funct5 == 8
      then make_a Kind.amo_or_w
      else if funct5 == 0x0C
      then make_a Kind.amo_and_w
      else if funct5 == 0x10
      then make_a Kind.amo_min_w
      else if funct5 == 0x14
      then make_a Kind.amo_max_w
      else if funct5 == 0x18
      then make_a Kind.amo_minu_w
      else if funct5 == 0x1C
      then make_a Kind.amo_maxu_w
      else illegal_of instruction

  unfoldable pub decode_misc_mem : DecodedInstruction
  decode_misc_mem =
      if fields.funct3 == 0
      then make_decoded instruction Kind.fence 0 0 0 0
      else if fields.funct3 == 1
      then make_decoded instruction Kind.fence_i 0 0 0 0
      else illegal_of instruction

  unfoldable pub decode_csr : DecodedInstruction
  decode_csr =
      if fields.funct3 == 1
      then make_csr Kind.csrrw false
      else if fields.funct3 == 2
      then make_csr Kind.csrrs false
      else if fields.funct3 == 3
      then make_csr Kind.csrrc false
      else if fields.funct3 == 5
      then make_csr Kind.csrrwi true
      else if fields.funct3 == 6
      then make_csr Kind.csrrsi true
      else if fields.funct3 == 7
      then make_csr Kind.csrrci true
      else illegal_of instruction

  unfoldable pub decode_system : DecodedInstruction
  decode_system =
      if instruction == 0x00000073
      then make_decoded instruction Kind.ecall 0 0 0 0
      else if instruction == 0x00100073
      then make_decoded instruction Kind.ebreak 0 0 0 0
      else if instruction == 0x30200073
      then make_decoded instruction Kind.mret 0 0 0 0
      else if instruction == 0x10200073
      then make_decoded instruction Kind.sret 0 0 0 0
      else if instruction == 0x10500073
      then make_decoded instruction Kind.wfi 0 0 0 0
      else if bit_and instruction 0xFE007FFF == 0x12000073
      then make_decoded instruction Kind.sfence_vma 0 fields.rs1 fields.rs2 0
      else decode_csr

  unfoldable pub decode_jalr : DecodedInstruction
  decode_jalr =
      if fields.funct3 == 0
      then make_i Kind.jalr (decode_i_imm instruction)
      else illegal_of instruction

  -- The switch on the opcode.
  unfoldable pub decode_opcode : DecodedInstruction
  decode_opcode =
      if fields.opcode == 0x37
      then make_decoded instruction Kind.lui fields.rd 0 0 (decode_u_imm instruction)
      else if fields.opcode == 0x17
      then make_decoded instruction Kind.auipc fields.rd 0 0 (decode_u_imm instruction)
      else if fields.opcode == 0x6F
      then make_decoded instruction Kind.jal fields.rd 0 0 (decode_j_imm instruction)
      else if fields.opcode == 0x67
      then decode_jalr
      else if fields.opcode == 0x63
      then decode_branch
      else if fields.opcode == 0x03
      then decode_load
      else if fields.opcode == 0x23
      then decode_store
      else if fields.opcode == 0x13
      then decode_op_imm
      else if fields.opcode == 0x33
      then decode_op
      else if fields.opcode == 0x2F
      then decode_amo
      else if fields.opcode == 0x0F
      then decode_misc_mem
      else if fields.opcode == 0x73
      then decode_system
      else illegal_of instruction

unfoldable pub decode_instruction : ℕ → DecodedInstruction
decode_instruction instruction = decode_opcode instruction (extract_fields instruction)
