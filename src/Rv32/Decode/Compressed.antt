-- ===== src/Rv32/Decode/Compressed.antt =====
-- core32/src/decode.cpp, `decode_compressed_instruction`: one function for each immediate and for
-- each quadrant.
use risc_v_cpu_emulator.Prelude.{ℕ, bit_or, not, ◌==◌, ◌||◌, if◌then◌else◌}
use risc_v_cpu_emulator.Words.{shl32}
use risc_v_cpu_emulator.Rv32.Types.{InstructionKind as Kind, DecodedInstruction}
use risc_v_cpu_emulator.Rv32.Decode.Fields.{
  get_bits, sign_extend, compressed_register, make_compressed,
}

unfoldable pub illegal_parcel : ℕ → DecodedInstruction
illegal_parcel raw = make_compressed raw Kind.illegal 0 0 0 0

-- The immediate of C.ADDI4SPN.
unfoldable pub stack_offset : ℕ → ℕ
stack_offset raw =
    bit_or
      (bit_or (bit_or (shl32 (get_bits raw 6 6) 2) (shl32 (get_bits raw 5 5) 3))
        (shl32 (get_bits raw 12 11) 4))
      (shl32 (get_bits raw 10 7) 6)

-- The immediate of C.LW and C.SW.
unfoldable pub word_offset : ℕ → ℕ
word_offset raw =
    bit_or (bit_or (shl32 (get_bits raw 6 6) 2) (shl32 (get_bits raw 12 10) 3))
      (shl32 (get_bits raw 5 5) 6)

unfoldable pub immediate6 : ℕ → ℕ
immediate6 raw = sign_extend (bit_or (shl32 (get_bits raw 12 12) 5) (get_bits raw 6 2)) 6

-- The target of C.JAL and C.J.
unfoldable pub jump_offset : ℕ → ℕ
jump_offset raw =
    sign_extend
      (bit_or
        (bit_or
          (bit_or
            (bit_or
              (bit_or
                (bit_or (bit_or (shl32 (get_bits raw 5 3) 1) (shl32 (get_bits raw 11 11) 4))
                  (shl32 (get_bits raw 2 2) 5))
                (shl32 (get_bits raw 7 7) 6))
              (shl32 (get_bits raw 6 6) 7))
            (shl32 (get_bits raw 10 9) 8))
          (shl32 (get_bits raw 8 8) 10))
        (shl32 (get_bits raw 12 12) 11))
      12

-- The immediate of C.ADDI16SP.
unfoldable pub stack_adjustment : ℕ → ℕ
stack_adjustment raw =
    sign_extend
      (bit_or
        (bit_or
          (bit_or (bit_or (shl32 (get_bits raw 6 6) 4) (shl32 (get_bits raw 2 2) 5))
            (shl32 (get_bits raw 5 5) 6))
          (shl32 (get_bits raw 4 3) 7))
        (shl32 (get_bits raw 12 12) 9))
      10

-- The target of C.BEQZ and C.BNEZ.
unfoldable pub branch_offset : ℕ → ℕ
branch_offset raw =
    sign_extend
      (bit_or
        (bit_or
          (bit_or (bit_or (shl32 (get_bits raw 4 3) 1) (shl32 (get_bits raw 11 10) 3))
            (shl32 (get_bits raw 2 2) 5))
          (shl32 (get_bits raw 6 5) 6))
        (shl32 (get_bits raw 12 12) 8))
      9

-- The immediate of C.LWSP.
unfoldable pub load_stack_offset : ℕ → ℕ
load_stack_offset raw =
    bit_or (bit_or (shl32 (get_bits raw 6 4) 2) (shl32 (get_bits raw 12 12) 5))
      (shl32 (get_bits raw 3 2) 6)

-- The immediate of C.SWSP.
unfoldable pub store_stack_offset : ℕ → ℕ
store_stack_offset raw = bit_or (shl32 (get_bits raw 12 9) 2) (shl32 (get_bits raw 8 7) 6)

-- Quadrant 0.
unfoldable pub decode_quadrant0 : ℕ → DecodedInstruction
decode_quadrant0 raw =
    let funct3 = get_bits raw 15 13 in
    let low_register = compressed_register (get_bits raw 4 2) in
    let high_register = compressed_register (get_bits raw 9 7) in
    if funct3 == 0
    then (if stack_offset raw == 0
        then illegal_parcel raw
        else make_compressed raw Kind.addi low_register 2 0 (stack_offset raw))
    else if funct3 == 2
    then make_compressed raw Kind.lw low_register high_register 0 (word_offset raw)
    else if funct3 == 6
    then make_compressed raw Kind.sw 0 high_register low_register (word_offset raw)
    else illegal_parcel raw

-- C.ADDI16SP and C.LUI.
unfoldable pub decode_upper : ℕ → DecodedInstruction
decode_upper raw =
    let rd = get_bits raw 11 7 in
    if rd == 2
    then (if stack_adjustment raw == 0
        then illegal_parcel raw
        else make_compressed raw Kind.addi 2 2 0 (stack_adjustment raw))
    else if immediate6 raw == 0
    then illegal_parcel raw
    else make_compressed raw Kind.lui rd 0 0 (shl32 (immediate6 raw) 12)

-- The register operations of quadrant 1.
unfoldable pub decode_arithmetic : ℕ → DecodedInstruction
decode_arithmetic raw =
    let operation = get_bits raw 11 10 in
    let rd = compressed_register (get_bits raw 9 7) in
    let rs2 = compressed_register (get_bits raw 4 2) in
    let funct2 = get_bits raw 6 5 in
    if operation == 0 || operation == 1
    then (if not (get_bits raw 12 12 == 0)
        then illegal_parcel raw
        else make_compressed raw (if operation == 0 then Kind.srli else Kind.srai) rd rd 0
            (get_bits raw 6 2))
    else if operation == 2
    then make_compressed raw Kind.andi rd rd 0 (immediate6 raw)
    else if not (get_bits raw 12 12 == 0)
    then illegal_parcel raw
    else if funct2 == 0
    then make_compressed raw Kind.sub rd rd rs2 0
    else if funct2 == 1
    then make_compressed raw Kind.xor rd rd rs2 0
    else if funct2 == 2
    then make_compressed raw Kind.or rd rd rs2 0
    else if funct2 == 3
    then make_compressed raw Kind.and rd rd rs2 0
    else illegal_parcel raw

-- Quadrant 1.
unfoldable pub decode_quadrant1 : ℕ → DecodedInstruction
decode_quadrant1 raw =
    let funct3 = get_bits raw 15 13 in
    let rd = get_bits raw 11 7 in
    let tested = compressed_register (get_bits raw 9 7) in
    if funct3 == 0
    then make_compressed raw Kind.addi rd rd 0 (immediate6 raw)
    else if funct3 == 1
    then make_compressed raw Kind.jal 1 0 0 (jump_offset raw)
    else if funct3 == 2
    then make_compressed raw Kind.addi rd 0 0 (immediate6 raw)
    else if funct3 == 3
    then decode_upper raw
    else if funct3 == 4
    then decode_arithmetic raw
    else if funct3 == 5
    then make_compressed raw Kind.jal 0 0 0 (jump_offset raw)
    else if funct3 == 6 || funct3 == 7
    then make_compressed raw (if funct3 == 6 then Kind.beq else Kind.bne) 0 tested 0
        (branch_offset raw)
    else illegal_parcel raw

-- C.JR, C.MV, C.EBREAK, C.JALR and C.ADD.
unfoldable pub decode_register_jump : ℕ → DecodedInstruction
decode_register_jump raw =
    let rd = get_bits raw 11 7 in
    let rs2 = get_bits raw 6 2 in
    let alternate = not (get_bits raw 12 12 == 0) in
    if not alternate
    then (if rs2 == 0
        then (if rd == 0 then illegal_parcel raw else make_compressed raw Kind.jalr 0 rd 0 0)
        else make_compressed raw Kind.add rd 0 rs2 0)
    else if rs2 == 0
    then (if rd == 0
        then make_compressed raw Kind.ebreak 0 0 0 0
        else make_compressed raw Kind.jalr 1 rd 0 0)
    else make_compressed raw Kind.add rd rd rs2 0

-- Quadrant 2.
unfoldable pub decode_quadrant2 : ℕ → DecodedInstruction
decode_quadrant2 raw =
    let funct3 = get_bits raw 15 13 in
    let rd = get_bits raw 11 7 in
    if funct3 == 0
    then (if not (get_bits raw 12 12 == 0)
        then illegal_parcel raw
        else make_compressed raw Kind.slli rd rd 0 (get_bits raw 6 2))
    else if funct3 == 2
    then (if rd == 0
        then illegal_parcel raw
        else make_compressed raw Kind.lw rd 2 0 (load_stack_offset raw))
    else if funct3 == 4
    then decode_register_jump raw
    else if funct3 == 6
    then make_compressed raw Kind.sw 0 2 (get_bits raw 6 2) (store_stack_offset raw)
    else illegal_parcel raw

unfoldable pub decode_compressed_instruction : ℕ → DecodedInstruction
decode_compressed_instruction raw =
    let quadrant = get_bits raw 1 0 in
    if quadrant == 3
    then illegal_parcel raw
    else if quadrant == 0
    then decode_quadrant0 raw
    else if quadrant == 1
    then decode_quadrant1 raw
    else decode_quadrant2 raw
