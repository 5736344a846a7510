-- ===== src/Rv32/Examples/Decoding.antt =====
-- The theorems on the decoders at sample words.
use risc_v_cpu_emulator.Prelude.{◌^◌, ◌%◌, ◌≡◌, ◌≢◌, refl, arith}
use risc_v_cpu_emulator.Rv32.Types.{InstructionKind as Kind}
use risc_v_cpu_emulator.Rv32.Decode.Assembly.{Assembly, BranchOp, encode, operands}
use risc_v_cpu_emulator.Rv32.Decode.Fields.{make_decoded, get_bits, sign_extend, extract_fields}
use risc_v_cpu_emulator.Rv32.Decode.Standard.{
  decode_instruction, decode_opcode, decode_op_imm, make_i,
}
use risc_v_cpu_emulator.Rv32.Decode.Compressed.{decode_compressed_instruction}
use risc_v_cpu_emulator.Rv32.Decode.RoundTrip.{decode_instruction-encode}
use risc_v_cpu_emulator.Rv32.Decode.Ranges.{IsDecoded}
use risc_v_cpu_emulator.Rv32.Decode.StandardRanges.{decode_instruction-IsDecoded}
use risc_v_cpu_emulator.Rv32.Decode.CompressedRanges.{decode_compressed_instruction-IsDecoded}
use risc_v_cpu_emulator.Rv32.Decode.Lengths.{decoders_disjoint}
use risc_v_cpu_emulator.Rv32.Decode.Extraction.{sign_extend_lem}

-- `bgeu x1, x2, -4`.
abbrev branch_back : Assembly
branch_back = Assembly.branch BranchOp.bgeu 1 2 0xFFE

decode_branch_back :
    decode_instruction (encode branch_back) ≡ operands branch_back (encode branch_back)
decode_branch_back = decode_instruction-encode branch_back (omega arith)

-- `addi x1, x0, 5`.
decode_add : IsDecoded 0x00500093 4 (decode_instruction 0x00500093)
decode_add = decode_instruction-IsDecoded 0x00500093 (omega arith)

-- `c.jr x1`.
decode_return : IsDecoded 0x8082 2 (decode_compressed_instruction 0x8082)
decode_return = decode_compressed_instruction-IsDecoded 0x8082 (omega arith)

add_is_addi : (decode_instruction 0x00500093).kind ≡ Kind.addi
unfolding decode_instruction extract_fields get_bits decode_opcode decode_op_imm make_i make_decoded
add_is_addi = refl

add_is_legal : (decode_instruction 0x00500093).kind ≢ Kind.illegal
add_is_legal h = cc (h, add_is_addi)

decode_add-disjoint : (decode_compressed_instruction (0x00500093 % 2 ^ 16)).kind ≡ Kind.illegal
decode_add-disjoint = decoders_disjoint 0x00500093 (omega arith) add_is_legal

minus_four : sign_extend 0xFFC 12 ≡ 0xFFFFFFFC
minus_four = sign_extend_lem 0xFFC 11 (omega arith) (omega arith)
