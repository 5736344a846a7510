-- ===== src/Rv32/Frontend/DecodeCache.antt =====
-- core32/src/frontend.cpp: `DecodeCache`, keyed by the instruction and its length.
use risc_v_cpu_emulator.Prelude.{ℕ, ◌%◌, ◌^◌, bit_xor, Bool, true, false, ◌&&◌, ◌==◌, if◌then◌else◌}
use risc_v_cpu_emulator.Words.{shr}
use risc_v_cpu_emulator.Rv32.Types.{InstructionKind as Kind, DecodedInstruction}
use risc_v_cpu_emulator.Rv32.Decode.Standard.{decode_instruction}
use risc_v_cpu_emulator.Rv32.Decode.Compressed.{decode_compressed_instruction}

-- The default members of a `DecodedInstruction`.
abbrev pub default_decoded : DecodedInstruction
default_decoded = record {
  kind = Kind.illegal;
  raw = 0;
  rd = 0;
  rs1 = 0;
  rs2 = 0;
  immediate = 0;
  acquire = false;
  release = false;
  csr = 0;
  length = 4;
}

pub record DecodeEntry : Type 0 where
  pub valid : Bool
  pub length : ℕ
  pub instruction : ℕ
  pub decoded : DecodedInstruction

abbrev pub empty_decode_entry : DecodeEntry
empty_decode_entry = record {
  valid = false;
  length = 0;
  instruction = 0;
  decoded = default_decoded;
}

-- The array of 1024 entries, as a function of the index.
abbrev pub DecodeCache : Type 0
DecodeCache = ℕ → DecodeEntry

unfoldable pub decode_index : ℕ → ℕ → ℕ
decode_index instruction length =
    bit_xor (bit_xor (bit_xor instruction (shr instruction 11)) (shr instruction 21)) length % 1024

unfoldable pub decode_of_length : ℕ → ℕ → DecodedInstruction
decode_of_length instruction length =
    if length == 2
    then decode_compressed_instruction (instruction % 2 ^ 16)
    else decode_instruction instruction

unfoldable pub holds : DecodeEntry → ℕ → ℕ → Bool
holds entry instruction length =
    entry.valid && entry.instruction == instruction && entry.length == length

unfoldable pub decode : DecodeCache → ℕ → ℕ → DecodeCache × DecodedInstruction
decode cache instruction length =
    let index = decode_index instruction length in
    let decoded = decode_of_length instruction length in
    let entry : DecodeEntry = record {
      valid = true;
      length = length;
      instruction = instruction;
      decoded = decoded;
    } in
    if holds (cache index) instruction length
    then (cache, (cache index).decoded)
    else ((λ i. if i == index then entry else cache i), decoded)

unfoldable pub clear_decoded : DecodeCache
clear_decoded = λ _. empty_decode_entry
