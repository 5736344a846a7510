-- ===== src/Rv32/Decode/Coding.antt =====
-- What the proofs of the round trip share: ranges of the codes, and decoding by fields.
use risc_v_cpu_emulator.Prelude.{ℕ, ◌+◌, ◌*◌, ◌/◌, ◌%◌, ◌<◌, ◌≡◌, refl, arith}
use risc_v_cpu_emulator.Rv32.Decode.Immediates.{Fits, extract_fields-assemble}
use risc_v_cpu_emulator.Rv32.Decode.Standard.{decode_instruction, decode_opcode}
use risc_v_cpu_emulator.Rv32.Decode.Assembly
use risc_v_cpu_emulator.Rv32.Decode.Assembly.{Assembly, encode, operands, IsEncodable, assemble}

-- The codes fit their fields.
pub register_range :
    (op : Assembly.RegisterOp)
    → (Assembly.register_funct3 op < 8) × (Assembly.register_funct7 op < 128)
register_range Assembly.RegisterOp.add = omega arith
register_range _ = omega arith

pub immediate_range : (op : Assembly.ImmediateOp) → Assembly.immediate_funct3 op < 8
immediate_range Assembly.ImmediateOp.addi = omega arith
immediate_range _ = omega arith

pub shift_range :
    (op : Assembly.ShiftOp) → (Assembly.shift_funct3 op < 8) × (Assembly.shift_funct7 op < 128)
shift_range Assembly.ShiftOp.slli = omega arith
shift_range _ = omega arith

pub load_range : (op : Assembly.LoadOp) → Assembly.load_funct3 op < 8
load_range Assembly.LoadOp.lb = omega arith
load_range _ = omega arith

pub store_range : (op : Assembly.StoreOp) → Assembly.store_funct3 op < 8
store_range Assembly.StoreOp.sb = omega arith
store_range _ = omega arith

pub branch_range : (op : Assembly.BranchOp) → Assembly.branch_funct3 op < 8
branch_range Assembly.BranchOp.beq = omega arith
branch_range _ = omega arith

pub csr_range : (op : Assembly.CsrOp) → (0 < Assembly.csr_funct3 op) × (Assembly.csr_funct3 op < 8)
csr_range Assembly.CsrOp.csrrw = omega arith
csr_range _ = omega arith

pub atomic_range : (op : Assembly.AtomicOp) → Assembly.atomic_funct5 op < 32
atomic_range Assembly.AtomicOp.sc = omega arith
atomic_range _ = omega arith

-- Decoding an assembled word goes by its fields.
module _ (opcode rd funct3 rs1 rs2 funct7 : ℕ) (fits : Fits opcode rd funct3 rs1 rs2 funct7) where
  abbrev pub assembled : ℕ
  assembled = assemble opcode rd funct3 rs1 rs2 funct7

  pub decode-assemble :
      decode_instruction assembled
      ≡ decode_opcode assembled (record {
        opcode = opcode;
        rd = rd;
        funct3 = funct3;
        rs1 = rs1;
        rs2 = rs2;
        funct7 = funct7;
      })
  unfolding decode_instruction
  decode-assemble = rw (extract_fields-assemble opcode rd funct3 rs1 rs2 funct7 fits) refl

pub halves : (value : ℕ) → value % 32 + value / 32 * 32 ≡ value
halves value = omega arith

abbrev pub Decodes : Assembly → Type 0
Decodes a = decode_instruction (encode a) ≡ operands a (encode a)
