-- ===== src/Rv32/Decode/Lengths.antt =====
-- core32/src/decode.cpp: the two low bits of a parcel, and the decoder for its length.
use risc_v_cpu_emulator.Prelude.{ℕ, ◌%◌, ◌^◌, ◌<◌, ◌≡◌, ◌≢◌, arith}
use risc_v_cpu_emulator.Rv32.Types.{InstructionKind as Kind}
use risc_v_cpu_emulator.Rv32.Decode.Fields.{extract_fields, make_decoded, make_compressed}
use risc_v_cpu_emulator.Rv32.Decode.Extraction.{get_bits_lem}
use risc_v_cpu_emulator.Rv32.Decode.Standard.{decode_instruction, decode_opcode, illegal_of}
use risc_v_cpu_emulator.Rv32.Decode.Compressed.{decode_compressed_instruction, illegal_parcel}

-- A word that does not end in binary 11 is no 32-bit instruction.
standard_needs_three :
    (raw : ℕ) → raw < 2 ^ 32 → raw % 4 ≢ 3 → (decode_instruction raw).kind ≡ Kind.illegal
unfolding decode_instruction extract_fields decode_opcode illegal_of make_decoded
standard_needs_three raw small h =
    ground (arith, get_bits_lem raw 6 0 small (omega arith) (omega arith))

compressed_needs_less :
    (raw : ℕ) → raw < 2 ^ 16 → raw % 4 ≡ 3 → (decode_compressed_instruction raw).kind ≡ Kind.illegal
unfolding decode_compressed_instruction illegal_parcel make_compressed make_decoded
compressed_needs_less raw small h =
    ground (arith, get_bits_lem raw 1 0 (omega arith) (omega arith) (omega arith))

-- No parcel is accepted by both decoders: where a word is a legal 32-bit instruction, its low half
-- is an illegal compressed one.
pub decoders_disjoint :
    (raw : ℕ)
    → raw < 2 ^ 32
    → (decode_instruction raw).kind ≢ Kind.illegal
    → (decode_compressed_instruction (raw % 2 ^ 16)).kind ≡ Kind.illegal
decoders_disjoint raw small legal =
    compressed_needs_less (raw % 2 ^ 16) (omega arith)
      (ground (arith, standard_needs_three raw small))
