-- ===== src/Rv32/Decode/CompressedRanges.antt =====
-- core32/src/decode.cpp: the ranges of the operands that `decode_compressed_instruction` returns.
use risc_v_cpu_emulator.Prelude.{ℕ, ◌*◌, ◌%◌, ◌^◌, ◌<◌, arith}
use risc_v_cpu_emulator.Rv32.Types.{InstructionKind as Kind}
use risc_v_cpu_emulator.Rv32.Decode.Fields.{
  get_bits, compressed_register, make_compressed, make_decoded,
}
use risc_v_cpu_emulator.Rv32.Decode.Ranges.{IsDecoded, if-IsDecoded, bits-lt, word_bounds}
use risc_v_cpu_emulator.Rv32.Decode.Compressed.{
  illegal_parcel, stack_offset, word_offset, immediate6, jump_offset, stack_adjustment,
  branch_offset, load_stack_offset, store_stack_offset, decode_quadrant0, decode_upper,
  decode_arithmetic, decode_quadrant1, decode_register_jump, decode_quadrant2,
  decode_compressed_instruction,
}

-- The immediates are words.
module _ (raw : ℕ) (small : raw < 2 ^ 32) where
  stack_offset-lt : stack_offset raw < 2 ^ 32
  unfolding stack_offset
  stack_offset-lt = search word_bounds depth 12

  word_offset-lt : word_offset raw < 2 ^ 32
  unfolding word_offset
  word_offset-lt = search word_bounds depth 12

  immediate6-lt : immediate6 raw < 2 ^ 32
  unfolding immediate6
  immediate6-lt = search word_bounds depth 12

  jump_offset-lt : jump_offset raw < 2 ^ 32
  unfolding jump_offset
  jump_offset-lt = search word_bounds depth 12

  stack_adjustment-lt : stack_adjustment raw < 2 ^ 32
  unfolding stack_adjustment
  stack_adjustment-lt = search word_bounds depth 12

  branch_offset-lt : branch_offset raw < 2 ^ 32
  unfolding branch_offset
  branch_offset-lt = search word_bounds depth 12

  load_stack_offset-lt : load_stack_offset raw < 2 ^ 32
  unfolding load_stack_offset
  load_stack_offset-lt = search word_bounds depth 12

  store_stack_offset-lt : store_stack_offset raw < 2 ^ 32
  unfolding store_stack_offset
  store_stack_offset-lt = search word_bounds depth 12

-- The quadrants.
module _ (raw : ℕ) (small : raw < 2 ^ 32) where
  register-lt : get_bits raw 11 7 < 32
  register-lt = bits-lt raw small 11 7 (omega arith) (omega arith)

  second_register-lt : get_bits raw 6 2 < 32
  second_register-lt = bits-lt raw small 6 2 (omega arith) (omega arith)

  low_register-lt : compressed_register (get_bits raw 4 2) < 32
  unfolding compressed_register
  low_register-lt = omega (arith, bits-lt raw small 4 2 (omega arith) (omega arith))

  high_register-lt : compressed_register (get_bits raw 9 7) < 32
  unfolding compressed_register
  high_register-lt = omega (arith, bits-lt raw small 9 7 (omega arith) (omega arith))

  shift_amount-lt : get_bits raw 6 2 < 2 ^ 32
  shift_amount-lt = omega (arith, second_register-lt)

  upper-lt : immediate6 raw * 2 ^ 12 % 2 ^ 32 < 2 ^ 32
  upper-lt = omega arith

  zero-lt : 0 < 32
  zero-lt = omega arith

  one-lt : 1 < 32
  one-lt = omega arith

  two-lt : 2 < 32
  two-lt = omega arith

  zero_immediate-lt : 0 < 2 ^ 32
  zero_immediate-lt = omega arith

  made_compressed :
      (kind : Kind) (rd rs1 rs2 immediate : ℕ)
      → rd < 32
      → rs1 < 32
      → rs2 < 32
      → immediate < 2 ^ 32
      → IsDecoded raw 2 (make_compressed raw kind rd rs1 rs2 immediate)
  unfolding make_compressed make_decoded
  made_compressed kind rd rs1 rs2 immediate p q r s = ground arith

  illegal_parcel-IsDecoded : IsDecoded raw 2 (illegal_parcel raw)
  unfolding illegal_parcel
  illegal_parcel-IsDecoded =
      made_compressed Kind.illegal 0 0 0 0 zero-lt zero-lt zero-lt zero_immediate-lt

  ruleset parcel_rules = (
    if-IsDecoded, illegal_parcel-IsDecoded, made_compressed, register-lt, second_register-lt,
    low_register-lt, high_register-lt, shift_amount-lt, upper-lt, zero-lt, one-lt, two-lt,
    zero_immediate-lt,
  )

  decode_quadrant0-IsDecoded : IsDecoded raw 2 (decode_quadrant0 raw)
  unfolding decode_quadrant0
  decode_quadrant0-IsDecoded =
      search (parcel_rules, stack_offset-lt raw small, word_offset-lt raw small) depth 16

  decode_upper-IsDecoded : IsDecoded raw 2 (decode_upper raw)
  unfolding decode_upper
  decode_upper-IsDecoded = search (parcel_rules, stack_adjustment-lt raw small) depth 16

  decode_arithmetic-IsDecoded : IsDecoded raw 2 (decode_arithmetic raw)
  unfolding decode_arithmetic
  decode_arithmetic-IsDecoded = search (parcel_rules, immediate6-lt raw small) depth 16

  decode_quadrant1-IsDecoded : IsDecoded raw 2 (decode_quadrant1 raw)
  unfolding decode_quadrant1
  decode_quadrant1-IsDecoded =
      search
        (
          parcel_rules,
          immediate6-lt raw small,
          jump_offset-lt raw small,
          branch_offset-lt raw small,
          decode_upper-IsDecoded,
          decode_arithmetic-IsDecoded,
        )
        depth 16

  decode_register_jump-IsDecoded : IsDecoded raw 2 (decode_register_jump raw)
  unfolding decode_register_jump
  decode_register_jump-IsDecoded = search parcel_rules depth 16

  decode_quadrant2-IsDecoded : IsDecoded raw 2 (decode_quadrant2 raw)
  unfolding decode_quadrant2
  decode_quadrant2-IsDecoded =
      search
        (
          parcel_rules,
          load_stack_offset-lt raw small,
          store_stack_offset-lt raw small,
          decode_register_jump-IsDecoded,
        )
        depth 16

  parcel-IsDecoded : IsDecoded raw 2 (decode_compressed_instruction raw)
  unfolding decode_compressed_instruction
  parcel-IsDecoded =
      search
        (
          if-IsDecoded, illegal_parcel-IsDecoded, decode_quadrant0-IsDecoded,
          decode_quadrant1-IsDecoded, decode_quadrant2-IsDecoded,
        )
        depth 8

-- Whatever the parcel, legal or not, `decode_compressed_instruction` keeps it, reports two bytes,
-- and yields register numbers below 32, a 32-bit immediate and a 12-bit CSR address.
pub decode_compressed_instruction-IsDecoded :
    (raw : ℕ) → raw < 2 ^ 16 → IsDecoded raw 2 (decode_compressed_instruction raw)
decode_compressed_instruction-IsDecoded raw parcel = parcel-IsDecoded raw (omega arith)
