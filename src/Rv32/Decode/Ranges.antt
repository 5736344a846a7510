-- ===== src/Rv32/Decode/Ranges.antt =====
-- The ranges of what the decoders return.
use native.Mathlib.Nat.{mod-lt, one-le-pow, div-le_self}
use risc_v_cpu_emulator.Prelude.{
  ℕ, ◌+◌, ◌-◌, ◌/◌, ◌^◌, ◌≤◌, ◌<◌, ◌≡◌, arith, bit_and, bit_or, Bool, true, false, if◌then◌else◌,
}
use risc_v_cpu_emulator.Words.{shl32, not32}
use risc_v_cpu_emulator.Words.Bits.{bit_and-le, bit_or-lt}
use risc_v_cpu_emulator.Rv32.Types.{InstructionKind as Kind, DecodedInstruction}
use risc_v_cpu_emulator.Rv32.Decode.Fields.{
  get_bits, sign_extend, make_decoded, decode_i_imm, decode_s_imm, decode_b_imm, decode_u_imm,
  decode_j_imm,
}
use risc_v_cpu_emulator.Rv32.Decode.Extraction.{get_bits_lem}

-- The decoder keeps the word and states its length; registers, immediate and CSR address are in
-- range.
pub record IsDecoded (raw length : ℕ) (decoded : DecodedInstruction) : Type 0 where
  pub same_raw : decoded.raw ≡ raw
  pub same_length : decoded.length ≡ length
  pub in_rd : decoded.rd < 32
  pub in_rs1 : decoded.rs1 < 32
  pub in_rs2 : decoded.rs2 < 32
  pub in_immediate : decoded.immediate < 2 ^ 32
  pub in_csr : decoded.csr < 2 ^ 12

pub if-IsDecoded :
    {raw length : ℕ} (b : Bool) {x y : DecodedInstruction}
    → IsDecoded raw length x
    → IsDecoded raw length y
    → IsDecoded raw length (if b then x else y)
if-IsDecoded true h k = h
if-IsDecoded false h k = k

pub get_bits-lt :
    (value high low : ℕ)
    → value < 2 ^ 32
    → high < 32
    → low ≤ high
    → get_bits value high low < 2 ^ (high - low + 1)
get_bits-lt value high low small in_word ordered =
    rw (get_bits_lem value high low small in_word ordered)
      (mod-lt _ (one-le-pow (high - low + 1) 2 (omega arith)))

-- Every field and every sign extension of a word is a word.
pub get_bits-word : (raw high low : ℕ) → raw < 2 ^ 32 → get_bits raw high low < 2 ^ 32
unfolding get_bits
get_bits-word raw high low small =
    ground
      (arith, bit_and-le (raw / 2 ^ low) (shl32 1 (high - low + 1) - 1), div-le_self raw (2 ^ low))

pub sign_extend-lt : (value width : ℕ) → value < 2 ^ 32 → sign_extend value width < 2 ^ 32
unfolding sign_extend
sign_extend-lt value width small =
    let mask : ℕ = shl32 1 width - 1 in
    let masked = bit_and-le value mask in
    ground (
      arith,
      masked,
      bit_or-lt 32 (bit_and value mask) (not32 mask) (omega (arith, masked)) (omega arith),
    )

pub shl32-lt : (value amount : ℕ) → shl32 value amount < 2 ^ 32
shl32-lt value amount = omega arith

pub or-lt : (a b : ℕ) → a < 2 ^ 32 → b < 2 ^ 32 → bit_or a b < 2 ^ 32
or-lt = bit_or-lt 32

pub ruleset word_bounds = (sign_extend-lt, or-lt, shl32-lt, get_bits-word)

module _ (raw : ℕ) (small : raw < 2 ^ 32) where
  pub bits-lt :
      (high low : ℕ) → high < 32 → low ≤ high → get_bits raw high low < 2 ^ (high - low + 1)
  bits-lt high low in_word ordered = get_bits-lt raw high low small in_word ordered

  pub decode_i_imm-lt : decode_i_imm raw < 2 ^ 32
  unfolding decode_i_imm
  decode_i_imm-lt = search word_bounds depth 8

  pub decode_s_imm-lt : decode_s_imm raw < 2 ^ 32
  unfolding decode_s_imm
  decode_s_imm-lt = search word_bounds depth 8

  pub decode_b_imm-lt : decode_b_imm raw < 2 ^ 32
  unfolding decode_b_imm
  decode_b_imm-lt = search word_bounds depth 8

  pub decode_j_imm-lt : decode_j_imm raw < 2 ^ 32
  unfolding decode_j_imm
  decode_j_imm-lt = search word_bounds depth 8

  pub decode_u_imm-lt : decode_u_imm raw < 2 ^ 32
  unfolding decode_u_imm
  decode_u_imm-lt = omega (arith, bit_and-le raw 0xFFFFF000)

  pub made :
      (kind : Kind) (rd rs1 rs2 immediate : ℕ)
      → rd < 32
      → rs1 < 32
      → rs2 < 32
      → immediate < 2 ^ 32
      → IsDecoded raw 4 (make_decoded raw kind rd rs1 rs2 immediate)
  unfolding make_decoded
  made kind rd rs1 rs2 immediate p q r s = ground arith
