-- ===== src/Rv32/Decode/Immediates.antt =====
-- The fields and immediates that `decode_instruction` reads from an assembled word.
use risc_v_cpu_emulator.Prelude.{ℕ, ◌+◌, ◌-◌, ◌*◌, ◌/◌, ◌%◌, ◌^◌, ◌≤◌, ◌<◌, ◌≡◌, ◌∙◌, arith, bit_or}
use risc_v_cpu_emulator.Words.{shl32}
use risc_v_cpu_emulator.Words.Fields.{bit_or-eq-add, bit_and_shifted, bit_and-mask}
use risc_v_cpu_emulator.Rv32.Decode.Fields.{
  get_bits, extract_fields, decode_i_imm, decode_s_imm, decode_b_imm, decode_u_imm, decode_j_imm,
}
use risc_v_cpu_emulator.Rv32.Decode.Extraction.{get_bits_lem, sign_extend_lem}
use risc_v_cpu_emulator.Rv32.Decode.Assembly.{assemble, signed_bits}

-- Six values fit their fields.
pub record Fits (opcode rd funct3 rs1 rs2 funct7 : ℕ) : Type 0 where
  pub in_opcode : opcode < 128
  pub in_rd : rd < 32
  pub in_funct3 : funct3 < 8
  pub in_rs1 : rs1 < 32
  pub in_rs2 : rs2 < 32
  pub in_funct7 : funct7 < 128

module _ (opcode rd funct3 rs1 rs2 funct7 : ℕ) (fits : Fits opcode rd funct3 rs1 rs2 funct7) where
  abbrev pub word : ℕ
  word = assemble opcode rd funct3 rs1 rs2 funct7

  pub assemble-lt : word < 2 ^ 32
  unfolding assemble
  assemble-lt = omega arith

  pub field :
      (high low value : ℕ)
      → high < 32
      → low ≤ high
      → word / 2 ^ low % 2 ^ (high - low + 1) ≡ value
      → get_bits word high low ≡ value
  field high low value in_word ordered found =
      get_bits_lem word high low assemble-lt in_word ordered ∙ found

  pub extract_fields-assemble :
      extract_fields word
      ≡ record { opcode = opcode; rd = rd; funct3 = funct3; rs1 = rs1; rs2 = rs2; funct7 = funct7 }
  unfolding extract_fields assemble
  extract_fields-assemble = ground (
    arith,
    field 6 0 opcode (omega arith) (omega arith) (omega arith),
    field 11 7 rd (omega arith) (omega arith) (omega arith),
    field 14 12 funct3 (omega arith) (omega arith) (omega arith),
    field 19 15 rs1 (omega arith) (omega arith) (omega arith),
    field 24 20 rs2 (omega arith) (omega arith) (omega arith),
    field 31 25 funct7 (omega arith) (omega arith) (omega arith),
  )

  pub decode_i_imm-assemble : decode_i_imm word ≡ signed_bits 11 (rs2 + funct7 * 32)
  unfolding decode_i_imm assemble
  decode_i_imm-assemble =
      rw (field 31 20 (rs2 + funct7 * 32) (omega arith) (omega arith) (omega arith))
        (sign_extend_lem (rs2 + funct7 * 32) 11 (omega arith) (omega arith))

  pub decode_s_imm-assemble : decode_s_imm word ≡ signed_bits 11 (rd + funct7 * 32)
  unfolding decode_s_imm assemble
  decode_s_imm-assemble =
      let joined : bit_or (shl32 funct7 5) rd ≡ rd + funct7 * 32 =
        omega (arith, bit_or-eq-add 5 (shl32 funct7 5) rd (omega arith) fits.in_rd) in
      rw
        (
          field 11 7 rd (omega arith) (omega arith) (omega arith),
          field 31 25 funct7 (omega arith) (omega arith) (omega arith),
          joined,
        )
        (sign_extend_lem (rd + funct7 * 32) 11 (omega arith) (omega arith))

  abbrev pub branch_bits : ℕ
  branch_bits = funct7 / 64 * 4096 + rd % 2 * 2048 + funct7 % 64 * 32 + rd / 2 * 2

  pub decode_b_imm-assemble : decode_b_imm word ≡ signed_bits 12 branch_bits
  unfolding decode_b_imm assemble
  decode_b_imm-assemble =
      let joined : bit_or
            (bit_or (bit_or (shl32 (funct7 / 64) 12) (shl32 (rd % 2) 11)) (shl32 (funct7 % 64) 5))
            (shl32 (rd / 2) 1)
          ≡ branch_bits =
        rw
          (
            bit_or-eq-add 12 (shl32 (funct7 / 64) 12) (shl32 (rd % 2) 11) (omega arith)
                (omega arith),
            bit_or-eq-add 11 (shl32 (funct7 / 64) 12 + shl32 (rd % 2) 11) (shl32 (funct7 % 64) 5)
                (omega arith) (omega arith),
            bit_or-eq-add 5 (shl32 (funct7 / 64) 12 + shl32 (rd % 2) 11 + shl32 (funct7 % 64) 5)
                (shl32 (rd / 2) 1) (omega arith) (omega arith),
          )
          (omega arith) in
      rw
        (
          field 31 31 (funct7 / 64) (omega arith) (omega arith) (omega arith),
          field 7 7 (rd % 2) (omega arith) (omega arith) (omega arith),
          field 30 25 (funct7 % 64) (omega arith) (omega arith) (omega arith),
          field 11 8 (rd / 2) (omega arith) (omega arith) (omega arith),
          joined,
        )
        (sign_extend_lem branch_bits 12 (omega arith) (omega arith))

  pub decode_u_imm-assemble :
      decode_u_imm word ≡ funct3 * 2 ^ 12 + rs1 * 2 ^ 15 + rs2 * 2 ^ 20 + funct7 * 2 ^ 25
  unfolding decode_u_imm assemble
  decode_u_imm-assemble =
      omega (arith, bit_and_shifted 12 word (2 ^ 20 - 1), bit_and-mask 20 (word / 2 ^ 12))

  abbrev pub jump_bits : ℕ
  jump_bits =
      funct7 / 64 * 2 ^ 20
      + (funct3 + rs1 * 8) * 2 ^ 12
      + rs2 % 2 * 2 ^ 11
      + (rs2 / 2 + funct7 % 64 * 16) * 2

  pub decode_j_imm-assemble : decode_j_imm word ≡ signed_bits 20 jump_bits
  unfolding decode_j_imm assemble
  decode_j_imm-assemble =
      let sign = shl32 (funct7 / 64) 20 in
      let middle = shl32 (funct3 + rs1 * 8) 12 in
      let single = shl32 (rs2 % 2) 11 in
      let low = shl32 (rs2 / 2 + funct7 % 64 * 16) 1 in
      let joined : bit_or (bit_or (bit_or sign middle) single) low ≡ jump_bits =
        rw
          (
            bit_or-eq-add 20 sign middle (omega arith) (omega arith),
            bit_or-eq-add 12 (sign + middle) single (omega arith) (omega arith),
            bit_or-eq-add 11 (sign + middle + single) low (omega arith) (omega arith),
          )
          (omega arith) in
      rw
        (
          field 31 31 (funct7 / 64) (omega arith) (omega arith) (omega arith),
          field 19 12 (funct3 + rs1 * 8) (omega arith) (omega arith) (omega arith),
          field 20 20 (rs2 % 2) (omega arith) (omega arith) (omega arith),
          field 30 21 (rs2 / 2 + funct7 % 64 * 16) (omega arith) (omega arith) (omega arith),
          joined,
        )
        (sign_extend_lem jump_bits 20 (omega arith) (omega arith))
