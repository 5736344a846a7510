-- ===== src/Rv32/Decode/Extensions.antt =====
-- Round trip of the atomic and CSR formats through `decode_instruction`.
use risc_v_cpu_emulator.Prelude.{
  ℕ, ◌+◌, ◌*◌, ◌/◌, ◌%◌, ◌<◌, ◌≡◌, refl, ◌∙◌, arith, ◌==◌, not, bit_and, false,
}
use risc_v_cpu_emulator.Words.Bits.{bit_of, bit_and-bit_of}
use risc_v_cpu_emulator.Rv32.Decode.Fields.{InstructionFields, get_bits}
use risc_v_cpu_emulator.Rv32.Decode.Immediates.{Fits, field}
use risc_v_cpu_emulator.Rv32.Decode.Standard.{decode_opcode, decode_system, decode_csr}
use risc_v_cpu_emulator.Rv32.Decode.Assembly
use risc_v_cpu_emulator.Rv32.Decode.Assembly.{Assembly, encode, operands, IsEncodable, assemble}
use risc_v_cpu_emulator.Rv32.Decode.Formats
use risc_v_cpu_emulator.Rv32.Decode.Coding.{Decodes, decode-assemble, csr_range, atomic_range}

-- The ordering bits stand below `funct5`.
module _ (rd rs1 rs2 funct5 aq rl : ℕ) (in_funct5 : funct5 < 32) (in_aq : aq < 2) (in_rl : rl < 2)
    (in_rd : rd < 32) (in_rs1 : rs1 < 32) (in_rs2 : rs2 < 32) where
  abbrev atomic_word : ℕ
  atomic_word = assemble 0x2F rd 2 rs1 rs2 (funct5 * 4 + aq * 2 + rl)

  atomic_operands : Fits 0x2F rd 2 rs1 rs2 (funct5 * 4 + aq * 2 + rl)
  atomic_operands = omega arith

  ordering_bits :
      (get_bits atomic_word 31 27 ≡ funct5)
      × (get_bits atomic_word 26 26 ≡ aq)
      × (get_bits atomic_word 25 25 ≡ rl)
  unfolding assemble
  ordering_bits = (
    field _ _ _ _ _ _ atomic_operands 31 27 funct5 (omega arith) (omega arith) (omega arith),
    field _ _ _ _ _ _ atomic_operands 26 26 aq (omega arith) (omega arith) (omega arith),
    field _ _ _ _ _ _ atomic_operands 25 25 rl (omega arith) (omega arith) (omega arith),
  )

pub flag_test : (value : ℕ) → not (value == 0) ≡ Assembly.flag value
flag_test value = ground arith

pub decode-atomic :
    (op : Assembly.AtomicOp) (aq rl rd rs1 rs2 : ℕ)
    → IsEncodable (Assembly.atomic op aq rl rd rs1 rs2)
    → Decodes (Assembly.atomic op aq rl rd rs1 rs2)
unfolding encode operands
decode-atomic op aq rl rd rs1 rs2 h =
    let bits =
      ordering_bits rd rs1 rs2 (Assembly.atomic_funct5 op) aq rl (atomic_range op) h.0 h.1 h.2 h.3
        h.4 in
    let fits =
      atomic_operands rd rs1 rs2 (Assembly.atomic_funct5 op) aq rl (atomic_range op) h.0 h.1 h.2 h.3
        h.4 in
    decode-assemble _ _ _ _ _ _ fits
    ∙ Formats.decode-atomic _ rd rs1 rs2 op _ bits.0
    ∙ rw (bits.1, bits.2, flag_test aq, flag_test rl) refl

pub decode-load_reserved :
    (aq rl rd rs1 : ℕ)
    → IsEncodable (Assembly.load_reserved aq rl rd rs1)
    → Decodes (Assembly.load_reserved aq rl rd rs1)
unfolding encode operands
decode-load_reserved aq rl rd rs1 h =
    let bits = ordering_bits rd rs1 0 2 aq rl (omega arith) h.0 h.1 h.2 h.3 (omega arith) in
    let fits = atomic_operands rd rs1 0 2 aq rl (omega arith) h.0 h.1 h.2 h.3 (omega arith) in
    decode-assemble _ _ _ _ _ _ fits
    ∙ Formats.decode-load_reserved _ rd rs1 0 _ bits.0
    ∙ rw (bits.1, bits.2, flag_test aq, flag_test rl) refl

-- A CSR instruction is none of the words that the system opcode tests for first.
module _ (rd funct3 rs1 rs2 funct7 : ℕ) (fits : Fits 0x73 rd funct3 rs1 rs2 funct7)
    (some_code : 0 < funct3) where
  abbrev system_word : ℕ
  system_word = assemble 0x73 rd funct3 rs1 rs2 funct7

  not_fence : (bit_and system_word 0xFE007FFF == 0x12000073) ≡ false
  unfolding assemble bit_of
  not_fence = ground (
    arith,
    bit_and-bit_of system_word 0xFE007FFF 12,
    bit_and-bit_of system_word 0xFE007FFF 13,
    bit_and-bit_of system_word 0xFE007FFF 14,
  )

  decode_system-csr :
      (fields : InstructionFields)
      → decode_system system_word fields ≡ decode_csr system_word fields
  unfolding decode_system assemble
  decode_system-csr fields = ground (arith, not_fence)

csr_address :
    (rd : ℕ) (op : Assembly.CsrOp) (source address : ℕ)
    → (fits : Fits 0x73 rd (Assembly.csr_funct3 op) source (address % 32) (address / 32))
    → get_bits
        (assemble 0x73 rd (Assembly.csr_funct3 op) source (address % 32) (address / 32))
        31
        20
      ≡ address
unfolding assemble
csr_address rd op source address fits =
    field _ _ _ _ _ _ fits 31 20 address (omega arith) (omega arith) (omega arith)

opcode_system :
    (raw : ℕ) (rd funct3 rs1 rs2 funct7 : ℕ)
    → decode_opcode raw
        (record { opcode = 0x73; rd = rd; funct3 = funct3; rs1 = rs1; rs2 = rs2; funct7 = funct7 })
      ≡ decode_system raw (record {
        opcode = 0x73;
        rd = rd;
        funct3 = funct3;
        rs1 = rs1;
        rs2 = rs2;
        funct7 = funct7;
      })
unfolding decode_opcode
opcode_system raw rd funct3 rs1 rs2 funct7 = refl

pub decode-csr :
    (op : Assembly.CsrOp) (rd source address : ℕ)
    → IsEncodable (Assembly.csr op rd source address)
    → Decodes (Assembly.csr op rd source address)
unfolding encode operands
decode-csr op rd source address h =
    let fits : Fits 0x73 rd (Assembly.csr_funct3 op) source (address % 32) (address / 32) =
      omega (arith, csr_range op) in
    decode-assemble _ _ _ _ _ _ fits
    ∙ opcode_system _ _ _ _ _ _
    ∙ decode_system-csr _ _ _ _ _ fits (csr_range op).0 _
    ∙ Formats.decode_csr-fields _ rd source _ op _
    ∙ rw (csr_address rd op source address fits) refl
