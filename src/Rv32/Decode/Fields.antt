-- ===== src/Rv32/Decode/Fields.antt =====
-- core32/src/decode.cpp: bit fields, sign extension and the immediates of the five formats.
use risc_v_cpu_emulator.Prelude.{
  ℕ, ◌+◌, ◌-◌, bit_and, bit_or, false, not, ◌&&◌, ltb, leb, ◌==◌, if◌then◌else◌,
}
use risc_v_cpu_emulator.Words.{shl32, shr, not32, has_bits}
use risc_v_cpu_emulator.Rv32.Types.{InstructionKind, DecodedInstruction}

-- Out of range the source asserts, and returns 0 where assertions are off.
unfoldable pub get_bits : ℕ → ℕ → ℕ → ℕ
get_bits value high low =
    let width : ℕ = high - low + 1 in
    if not (ltb high 32 && leb low high)
    then 0
    else if width == 32
    then value
    else bit_and (shr value low) (shl32 1 width - 1)

unfoldable pub sign_extend : ℕ → ℕ → ℕ
sign_extend value width =
    let value_mask : ℕ = shl32 1 width - 1 in
    let masked_value : ℕ = bit_and value value_mask in
    let sign_bit : ℕ = shl32 1 (width - 1) in
    if not (ltb 0 width && leb width 32)
    then 0
    else if width == 32
    then value
    else if has_bits masked_value sign_bit
    then bit_or masked_value (not32 value_mask)
    else masked_value

unfoldable pub decode_i_imm : ℕ → ℕ
decode_i_imm instruction = sign_extend (get_bits instruction 31 20) 12

unfoldable pub decode_s_imm : ℕ → ℕ
decode_s_imm instruction =
    sign_extend (bit_or (shl32 (get_bits instruction 31 25) 5) (get_bits instruction 11 7)) 12

unfoldable pub decode_b_imm : ℕ → ℕ
decode_b_imm instruction =
    sign_extend
      (bit_or
        (bit_or
          (bit_or (shl32 (get_bits instruction 31 31) 12) (shl32 (get_bits instruction 7 7) 11))
          (shl32 (get_bits instruction 30 25) 5))
        (shl32 (get_bits instruction 11 8) 1))
      13

unfoldable pub decode_u_imm : ℕ → ℕ
decode_u_imm instruction = bit_and instruction 0xFFFFF000

unfoldable pub decode_j_imm : ℕ → ℕ
decode_j_imm instruction =
    sign_extend
      (bit_or
        (bit_or
          (bit_or (shl32 (get_bits instruction 31 31) 20) (shl32 (get_bits instruction 19 12) 12))
          (shl32 (get_bits instruction 20 20) 11))
        (shl32 (get_bits instruction 30 21) 1))
      21

pub record InstructionFields : Type 0 where
  pub opcode : ℕ
  pub rd : ℕ
  pub funct3 : ℕ
  pub rs1 : ℕ
  pub rs2 : ℕ
  pub funct7 : ℕ

unfoldable pub extract_fields : ℕ → InstructionFields
extract_fields instruction = record {
  opcode = get_bits instruction 6 0;
  rd = get_bits instruction 11 7;
  funct3 = get_bits instruction 14 12;
  rs1 = get_bits instruction 19 15;
  rs2 = get_bits instruction 24 20;
  funct7 = get_bits instruction 31 25;
}

-- The source's default arguments are no acquire, no release, CSR 0 and the standard length.
unfoldable pub make_decoded : ℕ → InstructionKind → ℕ → ℕ → ℕ → ℕ → DecodedInstruction
make_decoded raw kind rd rs1 rs2 immediate = record {
  kind = kind;
  raw = raw;
  rd = rd;
  rs1 = rs1;
  rs2 = rs2;
  immediate = immediate;
  acquire = false;
  release = false;
  csr = 0;
  length = 4;
}

unfoldable pub compressed_register : ℕ → ℕ
compressed_register value = 8 + value

unfoldable pub make_compressed : ℕ → InstructionKind → ℕ → ℕ → ℕ → ℕ → DecodedInstruction
unfolding make_decoded
make_compressed raw kind rd rs1 rs2 immediate =
    record (make_decoded raw kind rd rs1 rs2 immediate) { length = 2 }
