-- ===== src/Rv32/Decode/Integer.antt =====
-- Round trip of the base integer and multiply formats through `decode_instruction`.
use risc_v_cpu_emulator.Prelude.{ℕ, ◌+◌, ◌*◌, ◌/◌, ◌%◌, ◌^◌, ◌<◌, ◌≡◌, refl, ◌∙◌, arith}
use risc_v_cpu_emulator.Rv32.Decode.Immediates.{
  Fits, decode_i_imm-assemble, decode_s_imm-assemble, decode_b_imm-assemble, decode_u_imm-assemble,
  decode_j_imm-assemble,
}
use risc_v_cpu_emulator.Rv32.Decode.Assembly
use risc_v_cpu_emulator.Rv32.Decode.Assembly.{Assembly, encode, operands, IsEncodable, assemble}
use risc_v_cpu_emulator.Rv32.Decode.Formats
use risc_v_cpu_emulator.Rv32.Decode.Coding.{
  Decodes, decode-assemble, halves, register_range, immediate_range, shift_range, load_range,
  store_range, branch_range,
}

branch_halves :
    (half : ℕ)
    → (half / 2048 * 64 + half / 16 % 64) / 64 * 4096
        + (half % 16 * 2 + half / 1024 % 2) % 2 * 2048
        + (half / 2048 * 64 + half / 16 % 64) % 64 * 32
        + (half % 16 * 2 + half / 1024 % 2) / 2 * 2
      ≡ 2 * half
branch_halves half = omega arith

upper_fields :
    (upper : ℕ)
    → upper < 2 ^ 20
    → upper % 8 * 2 ^ 12
        + upper / 8 % 32 * 2 ^ 15
        + upper / 256 % 32 * 2 ^ 20
        + upper / 8192 * 2 ^ 25
      ≡ upper * 4096
upper_fields upper h = omega arith

-- One format at a time.
pub decode-register :
    (op : Assembly.RegisterOp) (rd rs1 rs2 : ℕ)
    → IsEncodable (Assembly.register op rd rs1 rs2)
    → Decodes (Assembly.register op rd rs1 rs2)
unfolding encode operands
decode-register op rd rs1 rs2 h =
    let fits : Fits 0x33 rd (Assembly.register_funct3 op) rs1 rs2 (Assembly.register_funct7 op) =
      omega (arith, register_range op) in
    decode-assemble _ _ _ _ _ _ fits ∙ Formats.decode-register _ rd rs1 rs2 op

pub decode-immediate :
    (op : Assembly.ImmediateOp) (rd rs1 value : ℕ)
    → IsEncodable (Assembly.immediate op rd rs1 value)
    → Decodes (Assembly.immediate op rd rs1 value)
unfolding encode operands
decode-immediate op rd rs1 value h =
    let fits : Fits 0x13 rd (Assembly.immediate_funct3 op) rs1 (value % 32) (value / 32) =
      omega (arith, immediate_range op) in
    decode-assemble _ _ _ _ _ _ fits
    ∙ Formats.decode-immediate _ rd rs1 _ op _
    ∙ rw (decode_i_imm-assemble _ _ _ _ _ _ fits, halves value) refl

pub decode-shift :
    (op : Assembly.ShiftOp) (rd rs1 amount : ℕ)
    → IsEncodable (Assembly.shift op rd rs1 amount)
    → Decodes (Assembly.shift op rd rs1 amount)
unfolding encode operands
decode-shift op rd rs1 amount h =
    let fits : Fits 0x13 rd (Assembly.shift_funct3 op) rs1 amount (Assembly.shift_funct7 op) =
      omega (arith, shift_range op) in
    decode-assemble _ _ _ _ _ _ fits ∙ Formats.decode-shift _ rd rs1 amount op

pub decode-load :
    (op : Assembly.LoadOp) (rd rs1 offset : ℕ)
    → IsEncodable (Assembly.load op rd rs1 offset)
    → Decodes (Assembly.load op rd rs1 offset)
unfolding encode operands
decode-load op rd rs1 offset h =
    let fits : Fits 0x03 rd (Assembly.load_funct3 op) rs1 (offset % 32) (offset / 32) =
      omega (arith, load_range op) in
    decode-assemble _ _ _ _ _ _ fits
    ∙ Formats.decode-load _ rd rs1 _ op _
    ∙ rw (decode_i_imm-assemble _ _ _ _ _ _ fits, halves offset) refl

pub decode-store :
    (op : Assembly.StoreOp) (rs1 rs2 offset : ℕ)
    → IsEncodable (Assembly.store op rs1 rs2 offset)
    → Decodes (Assembly.store op rs1 rs2 offset)
unfolding encode operands
decode-store op rs1 rs2 offset h =
    let fits : Fits 0x23 (offset % 32) (Assembly.store_funct3 op) rs1 rs2 (offset / 32) =
      omega (arith, store_range op) in
    decode-assemble _ _ _ _ _ _ fits
    ∙ Formats.decode-store _ _ rs1 rs2 op _
    ∙ rw (decode_s_imm-assemble _ _ _ _ _ _ fits, halves offset) refl

pub decode-branch :
    (op : Assembly.BranchOp) (rs1 rs2 half : ℕ)
    → IsEncodable (Assembly.branch op rs1 rs2 half)
    → Decodes (Assembly.branch op rs1 rs2 half)
unfolding encode operands
decode-branch op rs1 rs2 half h =
    let fits : Fits 0x63 (half % 16 * 2 + half / 1024 % 2) (Assembly.branch_funct3 op) rs1 rs2
        (half / 2048 * 64 + half / 16 % 64) =
      omega (arith, branch_range op) in
    decode-assemble _ _ _ _ _ _ fits
    ∙ Formats.decode-branch _ _ rs1 rs2 op _
    ∙ rw (decode_b_imm-assemble _ _ _ _ _ _ fits, branch_halves half) refl

pub decode-lui :
    (rd upper : ℕ) → IsEncodable (Assembly.lui rd upper) → Decodes (Assembly.lui rd upper)
unfolding encode operands
decode-lui rd upper h =
    let fits : Fits 0x37 rd (upper % 8) (upper / 8 % 32) (upper / 256 % 32) (upper / 8192) =
      omega (arith) in
    decode-assemble _ _ _ _ _ _ fits
    ∙ Formats.decode-lui _ rd _ _ _ _
    ∙ rw (decode_u_imm-assemble _ _ _ _ _ _ fits, upper_fields upper h.1) refl

pub decode-auipc :
    (rd upper : ℕ) → IsEncodable (Assembly.auipc rd upper) → Decodes (Assembly.auipc rd upper)
unfolding encode operands
decode-auipc rd upper h =
    let fits : Fits 0x17 rd (upper % 8) (upper / 8 % 32) (upper / 256 % 32) (upper / 8192) =
      omega (arith) in
    decode-assemble _ _ _ _ _ _ fits
    ∙ Formats.decode-auipc _ rd _ _ _ _
    ∙ rw (decode_u_imm-assemble _ _ _ _ _ _ fits, upper_fields upper h.1) refl

abbrev jump_upper : ℕ → ℕ
jump_upper half =
    half / 2048 % 256 + half / 1024 % 2 * 2 ^ 8 + half % 1024 * 2 ^ 9 + half / 2 ^ 19 * 2 ^ 19

jump_halves :
    (half : ℕ)
    → half < 2 ^ 20
    → jump_upper half / 8192 / 64 * 2 ^ 20
        + (jump_upper half % 8 + jump_upper half / 8 % 32 * 8) * 2 ^ 12
        + jump_upper half / 256 % 32 % 2 * 2 ^ 11
        + (jump_upper half / 256 % 32 / 2 + jump_upper half / 8192 % 64 * 16) * 2
      ≡ 2 * half
jump_halves half h = omega arith

pub decode-jal : (rd half : ℕ) → IsEncodable (Assembly.jal rd half) → Decodes (Assembly.jal rd half)
unfolding encode operands
decode-jal rd half h =
    let fits : Fits 0x6F rd (jump_upper half % 8) (jump_upper half / 8 % 32)
        (jump_upper half / 256 % 32) (jump_upper half / 8192) =
      omega (arith) in
    decode-assemble _ _ _ _ _ _ fits
    ∙ Formats.decode-jal _ rd _ _ _ _
    ∙ rw (decode_j_imm-assemble _ _ _ _ _ _ fits, jump_halves half h.1) refl

pub decode-jalr :
    (rd rs1 offset : ℕ)
    → IsEncodable (Assembly.jalr rd rs1 offset)
    → Decodes (Assembly.jalr rd rs1 offset)
unfolding encode operands
decode-jalr rd rs1 offset h =
    let fits : Fits 0x67 rd 0 rs1 (offset % 32) (offset / 32) = omega (arith) in
    decode-assemble _ _ _ _ _ _ fits
    ∙ Formats.decode-jalr _ rd rs1 _ _
    ∙ rw (decode_i_imm-assemble _ _ _ _ _ _ fits, halves offset) refl
