-- ===== src/Rv32/Decode/Assembly.antt =====
-- The instruction formats of the ISA manual, independent of the decoder: an assembly instruction,
-- its 32-bit encoding, and what a decoder has to make of it.
use risc_v_cpu_emulator.Prelude.{
  ℕ, ◌+◌, ◌-◌, ◌*◌, ◌/◌, ◌%◌, ◌^◌, ◌<◌, Bool, true, false, ltb, if◌then◌else◌,
}
use risc_v_cpu_emulator.Rv32.Types.{InstructionKind as Kind, DecodedInstruction}
use risc_v_cpu_emulator.Rv32.Decode.Fields.{make_decoded}

pub data RegisterOp : Type 0 where
  add sub sll slt sltu xor srl sra or and : RegisterOp
  mul mulh mulhsu mulhu div divu rem remu : RegisterOp

pub data ImmediateOp : Type 0 where
  addi slti sltiu xori ori andi : ImmediateOp

pub data ShiftOp : Type 0 where
  slli srli srai : ShiftOp

pub data LoadOp : Type 0 where
  lb lh lw lbu lhu : LoadOp

pub data StoreOp : Type 0 where
  sb sh sw : StoreOp

pub data BranchOp : Type 0 where
  beq bne blt bge bltu bgeu : BranchOp

pub data CsrOp : Type 0 where
  csrrw csrrs csrrc csrrwi csrrsi csrrci : CsrOp

pub data AtomicOp : Type 0 where
  sc swap fetch_add fetch_xor fetch_and fetch_or : AtomicOp
  fetch_min fetch_max fetch_minu fetch_maxu : AtomicOp

-- Registers are numbers, immediates and offsets the unsigned values of their bits.
pub data Assembly : Type 0 where
  register : RegisterOp → (rd rs1 rs2 : ℕ) → Assembly
  immediate : ImmediateOp → (rd rs1 value : ℕ) → Assembly
  shift : ShiftOp → (rd rs1 amount : ℕ) → Assembly
  load : LoadOp → (rd rs1 offset : ℕ) → Assembly
  store : StoreOp → (rs1 rs2 offset : ℕ) → Assembly
  branch : BranchOp → (rs1 rs2 half_offset : ℕ) → Assembly
  lui auipc : (rd upper : ℕ) → Assembly
  jal : (rd half_offset : ℕ) → Assembly
  jalr : (rd rs1 offset : ℕ) → Assembly
  load_reserved : (aq rl rd rs1 : ℕ) → Assembly
  atomic : AtomicOp → (aq rl rd rs1 rs2 : ℕ) → Assembly
  csr : CsrOp → (rd source address : ℕ) → Assembly

abbrev pub register_funct3 : RegisterOp → ℕ
register_funct3 RegisterOp.add = 0
register_funct3 RegisterOp.sub = 0
register_funct3 RegisterOp.sll = 1
register_funct3 RegisterOp.slt = 2
register_funct3 RegisterOp.sltu = 3
register_funct3 RegisterOp.xor = 4
register_funct3 RegisterOp.srl = 5
register_funct3 RegisterOp.sra = 5
register_funct3 RegisterOp.or = 6
register_funct3 RegisterOp.and = 7
register_funct3 RegisterOp.mul = 0
register_funct3 RegisterOp.mulh = 1
register_funct3 RegisterOp.mulhsu = 2
register_funct3 RegisterOp.mulhu = 3
register_funct3 RegisterOp.div = 4
register_funct3 RegisterOp.divu = 5
register_funct3 RegisterOp.rem = 6
register_funct3 RegisterOp.remu = 7

abbrev pub register_funct7 : RegisterOp → ℕ
register_funct7 RegisterOp.add = 0
register_funct7 RegisterOp.sub = 32
register_funct7 RegisterOp.sll = 0
register_funct7 RegisterOp.slt = 0
register_funct7 RegisterOp.sltu = 0
register_funct7 RegisterOp.xor = 0
register_funct7 RegisterOp.srl = 0
register_funct7 RegisterOp.sra = 32
register_funct7 RegisterOp.or = 0
register_funct7 RegisterOp.and = 0
register_funct7 RegisterOp.mul = 1
register_funct7 RegisterOp.mulh = 1
register_funct7 RegisterOp.mulhsu = 1
register_funct7 RegisterOp.mulhu = 1
register_funct7 RegisterOp.div = 1
register_funct7 RegisterOp.divu = 1
register_funct7 RegisterOp.rem = 1
register_funct7 RegisterOp.remu = 1

abbrev pub register_kind : RegisterOp → Kind
register_kind RegisterOp.add = Kind.add
register_kind RegisterOp.sub = Kind.sub
register_kind RegisterOp.sll = Kind.sll
register_kind RegisterOp.slt = Kind.slt
register_kind RegisterOp.sltu = Kind.sltu
register_kind RegisterOp.xor = Kind.xor
register_kind RegisterOp.srl = Kind.srl
register_kind RegisterOp.sra = Kind.sra
register_kind RegisterOp.or = Kind.or
register_kind RegisterOp.and = Kind.and
register_kind RegisterOp.mul = Kind.mul
register_kind RegisterOp.mulh = Kind.mulh
register_kind RegisterOp.mulhsu = Kind.mulhsu
register_kind RegisterOp.mulhu = Kind.mulhu
register_kind RegisterOp.div = Kind.div
register_kind RegisterOp.divu = Kind.divu
register_kind RegisterOp.rem = Kind.rem
register_kind RegisterOp.remu = Kind.remu

abbrev pub immediate_funct3 : ImmediateOp → ℕ
immediate_funct3 ImmediateOp.addi = 0
immediate_funct3 ImmediateOp.slti = 2
immediate_funct3 ImmediateOp.sltiu = 3
immediate_funct3 ImmediateOp.xori = 4
immediate_funct3 ImmediateOp.ori = 6
immediate_funct3 ImmediateOp.andi = 7

abbrev pub immediate_kind : ImmediateOp → Kind
immediate_kind ImmediateOp.addi = Kind.addi
immediate_kind ImmediateOp.slti = Kind.slti
immediate_kind ImmediateOp.sltiu = Kind.sltiu
immediate_kind ImmediateOp.xori = Kind.xori
immediate_kind ImmediateOp.ori = Kind.ori
immediate_kind ImmediateOp.andi = Kind.andi

abbrev pub shift_funct3 : ShiftOp → ℕ
shift_funct3 ShiftOp.slli = 1
shift_funct3 ShiftOp.srli = 5
shift_funct3 ShiftOp.srai = 5

abbrev pub shift_funct7 : ShiftOp → ℕ
shift_funct7 ShiftOp.slli = 0
shift_funct7 ShiftOp.srli = 0
shift_funct7 ShiftOp.srai = 32

abbrev pub shift_kind : ShiftOp → Kind
shift_kind ShiftOp.slli = Kind.slli
shift_kind ShiftOp.srli = Kind.srli
shift_kind ShiftOp.srai = Kind.srai

abbrev pub load_funct3 : LoadOp → ℕ
load_funct3 LoadOp.lb = 0
load_funct3 LoadOp.lh = 1
load_funct3 LoadOp.lw = 2
load_funct3 LoadOp.lbu = 4
load_funct3 LoadOp.lhu = 5

abbrev pub load_kind : LoadOp → Kind
load_kind LoadOp.lb = Kind.lb
load_kind LoadOp.lh = Kind.lh
load_kind LoadOp.lw = Kind.lw
load_kind LoadOp.lbu = Kind.lbu
load_kind LoadOp.lhu = Kind.lhu

abbrev pub store_funct3 : StoreOp → ℕ
store_funct3 StoreOp.sb = 0
store_funct3 StoreOp.sh = 1
store_funct3 StoreOp.sw = 2

abbrev pub store_kind : StoreOp → Kind
store_kind StoreOp.sb = Kind.sb
store_kind StoreOp.sh = Kind.sh
store_kind StoreOp.sw = Kind.sw

abbrev pub branch_funct3 : BranchOp → ℕ
branch_funct3 BranchOp.beq = 0
branch_funct3 BranchOp.bne = 1
branch_funct3 BranchOp.blt = 4
branch_funct3 BranchOp.bge = 5
branch_funct3 BranchOp.bltu = 6
branch_funct3 BranchOp.bgeu = 7

abbrev pub branch_kind : BranchOp → Kind
branch_kind BranchOp.beq = Kind.beq
branch_kind BranchOp.bne = Kind.bne
branch_kind BranchOp.blt = Kind.blt
branch_kind BranchOp.bge = Kind.bge
branch_kind BranchOp.bltu = Kind.bltu
branch_kind BranchOp.bgeu = Kind.bgeu

abbrev pub csr_funct3 : CsrOp → ℕ
csr_funct3 CsrOp.csrrw = 1
csr_funct3 CsrOp.csrrs = 2
csr_funct3 CsrOp.csrrc = 3
csr_funct3 CsrOp.csrrwi = 5
csr_funct3 CsrOp.csrrsi = 6
csr_funct3 CsrOp.csrrci = 7

abbrev pub csr_kind : CsrOp → Kind
csr_kind CsrOp.csrrw = Kind.csrrw
csr_kind CsrOp.csrrs = Kind.csrrs
csr_kind CsrOp.csrrc = Kind.csrrc
csr_kind CsrOp.csrrwi = Kind.csrrwi
csr_kind CsrOp.csrrsi = Kind.csrrsi
csr_kind CsrOp.csrrci = Kind.csrrci

abbrev pub takes_immediate : CsrOp → Bool
takes_immediate CsrOp.csrrw = false
takes_immediate CsrOp.csrrs = false
takes_immediate CsrOp.csrrc = false
takes_immediate CsrOp.csrrwi = true
takes_immediate CsrOp.csrrsi = true
takes_immediate CsrOp.csrrci = true

abbrev pub atomic_funct5 : AtomicOp → ℕ
atomic_funct5 AtomicOp.sc = 3
atomic_funct5 AtomicOp.swap = 1
atomic_funct5 AtomicOp.fetch_add = 0
atomic_funct5 AtomicOp.fetch_xor = 4
atomic_funct5 AtomicOp.fetch_and = 12
atomic_funct5 AtomicOp.fetch_or = 8
atomic_funct5 AtomicOp.fetch_min = 16
atomic_funct5 AtomicOp.fetch_max = 20
atomic_funct5 AtomicOp.fetch_minu = 24
atomic_funct5 AtomicOp.fetch_maxu = 28

abbrev pub atomic_kind : AtomicOp → Kind
atomic_kind AtomicOp.sc = Kind.sc_w
atomic_kind AtomicOp.swap = Kind.amo_swap_w
atomic_kind AtomicOp.fetch_add = Kind.amo_add_w
atomic_kind AtomicOp.fetch_xor = Kind.amo_xor_w
atomic_kind AtomicOp.fetch_and = Kind.amo_and_w
atomic_kind AtomicOp.fetch_or = Kind.amo_or_w
atomic_kind AtomicOp.fetch_min = Kind.amo_min_w
atomic_kind AtomicOp.fetch_max = Kind.amo_max_w
atomic_kind AtomicOp.fetch_minu = Kind.amo_minu_w
atomic_kind AtomicOp.fetch_maxu = Kind.amo_maxu_w

-- The six fields of a word, lowest first.
unfoldable pub assemble : ℕ → ℕ → ℕ → ℕ → ℕ → ℕ → ℕ
assemble opcode rd funct3 rs1 rs2 funct7 =
    opcode + rd * 2 ^ 7 + funct3 * 2 ^ 12 + rs1 * 2 ^ 15 + rs2 * 2 ^ 20 + funct7 * 2 ^ 25

-- A 20-bit value in the place of `funct3`, `rs1`, `rs2` and `funct7`.
abbrev pub assemble_upper : ℕ → ℕ → ℕ → ℕ
assemble_upper opcode rd upper =
    assemble opcode rd (upper % 8) (upper / 8 % 32) (upper / 256 % 32) (upper / 8192)

-- Where the formats put the bits of an immediate. A branch offset is `2 * half_offset`.
unfoldable pub encode : Assembly → ℕ
encode (Assembly.register op rd rs1 rs2) =
    assemble 0x33 rd (register_funct3 op) rs1 rs2 (register_funct7 op)
encode (Assembly.immediate op rd rs1 value) =
    assemble 0x13 rd (immediate_funct3 op) rs1 (value % 32) (value / 32)
encode (Assembly.shift op rd rs1 amount) =
    assemble 0x13 rd (shift_funct3 op) rs1 amount (shift_funct7 op)
encode (Assembly.load op rd rs1 offset) =
    assemble 0x03 rd (load_funct3 op) rs1 (offset % 32) (offset / 32)
encode (Assembly.store op rs1 rs2 offset) =
    assemble 0x23 (offset % 32) (store_funct3 op) rs1 rs2 (offset / 32)
encode (Assembly.branch op rs1 rs2 half_offset) =
    assemble 0x63 (half_offset % 16 * 2 + half_offset / 1024 % 2) (branch_funct3 op) rs1 rs2
      (half_offset / 2048 * 64 + half_offset / 16 % 64)
encode (Assembly.lui rd upper) = assemble_upper 0x37 rd upper
encode (Assembly.auipc rd upper) = assemble_upper 0x17 rd upper
encode (Assembly.jal rd half_offset) = assemble_upper 0x6F rd (
    half_offset / 2048 % 256
    + half_offset / 1024 % 2 * 2 ^ 8
    + half_offset % 1024 * 2 ^ 9
    + half_offset / 2 ^ 19 * 2 ^ 19)
encode (Assembly.jalr rd rs1 offset) = assemble 0x67 rd 0 rs1 (offset % 32) (offset / 32)
encode (Assembly.load_reserved aq rl rd rs1) = assemble 0x2F rd 2 rs1 0 (2 * 4 + aq * 2 + rl)
encode (Assembly.atomic op aq rl rd rs1 rs2) =
    assemble 0x2F rd 2 rs1 rs2 (atomic_funct5 op * 4 + aq * 2 + rl)
encode (Assembly.csr op rd source address) =
    assemble 0x73 rd (csr_funct3 op) source (address % 32) (address / 32)

-- A value of `suc k` bits as a 32-bit word: its top bit is copied upwards.
abbrev pub signed_bits : ℕ → ℕ → ℕ
signed_bits k value = if ltb value (2 ^ k) then value else value + (2 ^ 32 - 2 ^ (k + 1))

abbrev pub flag : ℕ → Bool
flag value = ltb 0 value

-- What the instruction means to the rest of the core.
unfoldable pub operands : Assembly → ℕ → DecodedInstruction
operands (Assembly.register op rd rs1 rs2) raw = make_decoded raw (register_kind op) rd rs1 rs2 0
operands (Assembly.immediate op rd rs1 value) raw =
    make_decoded raw (immediate_kind op) rd rs1 0 (signed_bits 11 value)
operands (Assembly.shift op rd rs1 amount) raw = make_decoded raw (shift_kind op) rd rs1 0 amount
operands (Assembly.load op rd rs1 offset) raw =
    make_decoded raw (load_kind op) rd rs1 0 (signed_bits 11 offset)
operands (Assembly.store op rs1 rs2 offset) raw =
    make_decoded raw (store_kind op) 0 rs1 rs2 (signed_bits 11 offset)
operands (Assembly.branch op rs1 rs2 half_offset) raw =
    make_decoded raw (branch_kind op) 0 rs1 rs2 (signed_bits 12 (2 * half_offset))
operands (Assembly.lui rd upper) raw = make_decoded raw Kind.lui rd 0 0 (upper * 4096)
operands (Assembly.auipc rd upper) raw = make_decoded raw Kind.auipc rd 0 0 (upper * 4096)
operands (Assembly.jal rd half_offset) raw =
    make_decoded raw Kind.jal rd 0 0 (signed_bits 20 (2 * half_offset))
operands (Assembly.jalr rd rs1 offset) raw =
    make_decoded raw Kind.jalr rd rs1 0 (signed_bits 11 offset)
operands (Assembly.load_reserved aq rl rd rs1) raw =
    record (make_decoded raw Kind.lr_w rd rs1 0 0) { acquire = flag aq; release = flag rl }
operands (Assembly.atomic op aq rl rd rs1 rs2) raw =
    record (make_decoded raw (atomic_kind op) rd rs1 rs2 0) { acquire = flag aq; release = flag rl }
operands (Assembly.csr op rd source address) raw =
    record (if takes_immediate op
      then make_decoded raw (csr_kind op) rd 0 0 source
      else make_decoded raw (csr_kind op) rd source 0 0) { csr = address }

-- Each value fits its field.
abbrev pub IsEncodable : Assembly → Type 0
IsEncodable (Assembly.register op rd rs1 rs2) = (rd < 32) × (rs1 < 32) × (rs2 < 32)
IsEncodable (Assembly.immediate op rd rs1 value) = (rd < 32) × (rs1 < 32) × (value < 2 ^ 12)
IsEncodable (Assembly.shift op rd rs1 amount) = (rd < 32) × (rs1 < 32) × (amount < 32)
IsEncodable (Assembly.load op rd rs1 offset) = (rd < 32) × (rs1 < 32) × (offset < 2 ^ 12)
IsEncodable (Assembly.store op rs1 rs2 offset) = (rs1 < 32) × (rs2 < 32) × (offset < 2 ^ 12)
IsEncodable (Assembly.branch op rs1 rs2 half_offset) =
    (rs1 < 32) × (rs2 < 32) × (half_offset < 2 ^ 12)
IsEncodable (Assembly.lui rd upper) = (rd < 32) × (upper < 2 ^ 20)
IsEncodable (Assembly.auipc rd upper) = (rd < 32) × (upper < 2 ^ 20)
IsEncodable (Assembly.jal rd half_offset) = (rd < 32) × (half_offset < 2 ^ 20)
IsEncodable (Assembly.jalr rd rs1 offset) = (rd < 32) × (rs1 < 32) × (offset < 2 ^ 12)
IsEncodable (Assembly.load_reserved aq rl rd rs1) = (aq < 2) × (rl < 2) × (rd < 32) × (rs1 < 32)
IsEncodable (Assembly.atomic op aq rl rd rs1 rs2) =
    (aq < 2) × (rl < 2) × (rd < 32) × (rs1 < 32) × (rs2 < 32)
IsEncodable (Assembly.csr op rd source address) = (rd < 32) × (source < 32) × (address < 2 ^ 12)
