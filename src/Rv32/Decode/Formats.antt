-- ===== src/Rv32/Decode/Formats.antt =====
-- What the switch of `decode_instruction` makes of the fields of each format.
use risc_v_cpu_emulator.Prelude.{ℕ, ◌≡◌, refl, ◌==◌, if◌then◌else◌, not}
use risc_v_cpu_emulator.Rv32.Types.{InstructionKind as Kind, DecodedInstruction}
use risc_v_cpu_emulator.Rv32.Decode.Fields.{
  get_bits, make_decoded, decode_i_imm, decode_s_imm, decode_b_imm, decode_u_imm, decode_j_imm,
}
use risc_v_cpu_emulator.Rv32.Decode.Standard.{
  decode_opcode, decode_op, by_funct7, by_funct7_alternate, make_r, make_i, make_s, make_b, make_a,
  make_csr, decode_op_imm, decode_shift_left, decode_shift_right, decode_load, decode_store,
  decode_branch, decode_jalr, decode_amo, decode_csr,
}
use risc_v_cpu_emulator.Rv32.Decode.Assembly

module _ (raw rd rs1 rs2 : ℕ) where
  pub decode-register :
      (op : Assembly.RegisterOp)
      → decode_opcode raw (record {
        opcode = 0x33;
        rd = rd;
        funct3 = Assembly.register_funct3 op;
        rs1 = rs1;
        rs2 = rs2;
        funct7 = Assembly.register_funct7 op;
      })
        ≡ make_decoded raw (Assembly.register_kind op) rd rs1 rs2 0
  unfolding decode_opcode decode_op by_funct7 by_funct7_alternate make_r
  decode-register Assembly.RegisterOp.add = refl
  decode-register _ = refl

  pub decode-immediate :
      (op : Assembly.ImmediateOp) (funct7 : ℕ)
      → decode_opcode raw (record {
        opcode = 0x13;
        rd = rd;
        funct3 = Assembly.immediate_funct3 op;
        rs1 = rs1;
        rs2 = rs2;
        funct7 = funct7;
      })
        ≡ make_decoded raw (Assembly.immediate_kind op) rd rs1 0 (decode_i_imm raw)
  unfolding decode_opcode decode_op_imm make_i
  decode-immediate Assembly.ImmediateOp.addi funct7 = refl
  decode-immediate _ funct7 = refl

  pub decode-shift :
      (op : Assembly.ShiftOp)
      → decode_opcode raw (record {
        opcode = 0x13;
        rd = rd;
        funct3 = Assembly.shift_funct3 op;
        rs1 = rs1;
        rs2 = rs2;
        funct7 = Assembly.shift_funct7 op;
      })
        ≡ make_decoded raw (Assembly.shift_kind op) rd rs1 0 rs2
  unfolding decode_opcode decode_op_imm decode_shift_left decode_shift_right make_i
  decode-shift Assembly.ShiftOp.slli = refl
  decode-shift _ = refl

  pub decode-load :
      (op : Assembly.LoadOp) (funct7 : ℕ)
      → decode_opcode raw (record {
        opcode = 0x03;
        rd = rd;
        funct3 = Assembly.load_funct3 op;
        rs1 = rs1;
        rs2 = rs2;
        funct7 = funct7;
      })
        ≡ make_decoded raw (Assembly.load_kind op) rd rs1 0 (decode_i_imm raw)
  unfolding decode_opcode decode_load make_i
  decode-load Assembly.LoadOp.lb funct7 = refl
  decode-load _ funct7 = refl

  pub decode-store :
      (op : Assembly.StoreOp) (funct7 : ℕ)
      → decode_opcode raw (record {
        opcode = 0x23;
        rd = rd;
        funct3 = Assembly.store_funct3 op;
        rs1 = rs1;
        rs2 = rs2;
        funct7 = funct7;
      })
        ≡ make_decoded raw (Assembly.store_kind op) 0 rs1 rs2 (decode_s_imm raw)
  unfolding decode_opcode decode_store make_s
  decode-store Assembly.StoreOp.sb funct7 = refl
  decode-store _ funct7 = refl

  pub decode-branch :
      (op : Assembly.BranchOp) (funct7 : ℕ)
      → decode_opcode raw (record {
        opcode = 0x63;
        rd = rd;
        funct3 = Assembly.branch_funct3 op;
        rs1 = rs1;
        rs2 = rs2;
        funct7 = funct7;
      })
        ≡ make_decoded raw (Assembly.branch_kind op) 0 rs1 rs2 (decode_b_imm raw)
  unfolding decode_opcode decode_branch make_b
  decode-branch Assembly.BranchOp.beq funct7 = refl
  decode-branch _ funct7 = refl

  pub decode-lui :
      (funct3 funct7 : ℕ)
      → decode_opcode raw (record {
        opcode = 0x37;
        rd = rd;
        funct3 = funct3;
        rs1 = rs1;
        rs2 = rs2;
        funct7 = funct7;
      })
        ≡ make_decoded raw Kind.lui rd 0 0 (decode_u_imm raw)
  unfolding decode_opcode
  decode-lui funct3 funct7 = refl

  pub decode-auipc :
      (funct3 funct7 : ℕ)
      → decode_opcode raw (record {
        opcode = 0x17;
        rd = rd;
        funct3 = funct3;
        rs1 = rs1;
        rs2 = rs2;
        funct7 = funct7;
      })
        ≡ make_decoded raw Kind.auipc rd 0 0 (decode_u_imm raw)
  unfolding decode_opcode
  decode-auipc funct3 funct7 = refl

  pub decode-jal :
      (funct3 funct7 : ℕ)
      → decode_opcode raw (record {
        opcode = 0x6F;
        rd = rd;
        funct3 = funct3;
        rs1 = rs1;
        rs2 = rs2;
        funct7 = funct7;
      })
        ≡ make_decoded raw Kind.jal rd 0 0 (decode_j_imm raw)
  unfolding decode_opcode
  decode-jal funct3 funct7 = refl

  pub decode-jalr :
      (funct7 : ℕ)
      → decode_opcode raw
          (record { opcode = 0x67; rd = rd; funct3 = 0; rs1 = rs1; rs2 = rs2; funct7 = funct7 })
        ≡ make_decoded raw Kind.jalr rd rs1 0 (decode_i_imm raw)
  unfolding decode_opcode decode_jalr make_i
  decode-jalr funct7 = refl

  -- The ordering bits, bits 26 and 25.
  abbrev pub ordered : DecodedInstruction → DecodedInstruction
  ordered decoded = record decoded {
    acquire = not (get_bits raw 26 26 == 0);
    release = not (get_bits raw 25 25 == 0);
  }

  pub decode-atomic :
      (op : Assembly.AtomicOp) (funct7 : ℕ)
      → get_bits raw 31 27 ≡ Assembly.atomic_funct5 op
      → decode_opcode raw
          (record { opcode = 0x2F; rd = rd; funct3 = 2; rs1 = rs1; rs2 = rs2; funct7 = funct7 })
        ≡ ordered (make_decoded raw (Assembly.atomic_kind op) rd rs1 rs2 0)
  unfolding decode_opcode decode_amo make_a make_decoded
  decode-atomic Assembly.AtomicOp.sc funct7 found = rw (found) refl
  decode-atomic _ funct7 found = rw (found) refl

  pub decode-load_reserved :
      (funct7 : ℕ)
      → get_bits raw 31 27 ≡ 2
      → decode_opcode raw
          (record { opcode = 0x2F; rd = rd; funct3 = 2; rs1 = rs1; rs2 = 0; funct7 = funct7 })
        ≡ ordered (make_decoded raw Kind.lr_w rd rs1 0 0)
  unfolding decode_opcode decode_amo make_a make_decoded
  decode-load_reserved funct7 found = rw found refl

  abbrev pub csr_operands : Assembly.CsrOp → DecodedInstruction
  csr_operands op =
      record (if Assembly.takes_immediate op
        then make_decoded raw (Assembly.csr_kind op) rd 0 0 rs1
        else make_decoded raw (Assembly.csr_kind op) rd rs1 0 0) { csr = get_bits raw 31 20 }

  pub decode_csr-fields :
      (op : Assembly.CsrOp) (funct7 : ℕ)
      → decode_csr raw (record {
        opcode = 0x73;
        rd = rd;
        funct3 = Assembly.csr_funct3 op;
        rs1 = rs1;
        rs2 = rs2;
        funct7 = funct7;
      })
        ≡ csr_operands op
  unfolding decode_csr make_csr make_decoded
  decode_csr-fields Assembly.CsrOp.csrrw funct7 = refl
  decode_csr-fields _ funct7 = refl
