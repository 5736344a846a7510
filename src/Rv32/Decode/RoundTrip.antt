-- ===== src/Rv32/Decode/RoundTrip.antt =====
-- Round trip of the encodings of `Assembly` through `decode_instruction`.
use risc_v_cpu_emulator.Prelude.{◌≡◌}
use risc_v_cpu_emulator.Rv32.Decode.Assembly.{Assembly, encode, operands, IsEncodable}
use risc_v_cpu_emulator.Rv32.Decode.Standard.{decode_instruction}
use risc_v_cpu_emulator.Rv32.Decode.Integer
use risc_v_cpu_emulator.Rv32.Decode.Extensions

-- Every encodable instruction of `Assembly` decodes to its own operands: the kind, the register
-- numbers, the sign-extended immediate, the ordering bits and the CSR address of the manual.
pub decode_instruction-encode :
    (a : Assembly) → IsEncodable a → decode_instruction (encode a) ≡ operands a (encode a)
decode_instruction-encode (Assembly.register op rd rs1 rs2) h =
    Integer.decode-register op rd rs1 rs2 h
decode_instruction-encode (Assembly.immediate op rd rs1 value) h =
    Integer.decode-immediate op rd rs1 value h
decode_instruction-encode (Assembly.shift op rd rs1 amount) h =
    Integer.decode-shift op rd rs1 amount h
decode_instruction-encode (Assembly.load op rd rs1 offset) h =
    Integer.decode-load op rd rs1 offset h
decode_instruction-encode (Assembly.store op rs1 rs2 offset) h =
    Integer.decode-store op rs1 rs2 offset h
decode_instruction-encode (Assembly.branch op rs1 rs2 half_offset) h =
    Integer.decode-branch op rs1 rs2 half_offset h
decode_instruction-encode (Assembly.lui rd upper) h = Integer.decode-lui rd upper h
decode_instruction-encode (Assembly.auipc rd upper) h = Integer.decode-auipc rd upper h
decode_instruction-encode (Assembly.jal rd half_offset) h = Integer.decode-jal rd half_offset h
decode_instruction-encode (Assembly.jalr rd rs1 offset) h = Integer.decode-jalr rd rs1 offset h
decode_instruction-encode (Assembly.load_reserved aq rl rd rs1) h =
    Extensions.decode-load_reserved aq rl rd rs1 h
decode_instruction-encode (Assembly.atomic op aq rl rd rs1 rs2) h =
    Extensions.decode-atomic op aq rl rd rs1 rs2 h
decode_instruction-encode (Assembly.csr op rd source address) h =
    Extensions.decode-csr op rd source address h
