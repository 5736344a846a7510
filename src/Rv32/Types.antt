-- ===== src/Rv32/Types.antt =====
-- core32/include/rv32/core/types.hpp and the data of decode.hpp and execute.hpp: the CPU state, a
-- decoded instruction, and the result that an execution unit hands to the commit.
use risc_v_cpu_emulator.Prelude.{ℕ, Bool, List}

-- `reserved` is the encoding 2, which is no mode; a cast of MPP to the enum can yield it.
pub data PrivilegeMode : Type 0 where
  user supervisor reserved machine : PrivilegeMode

-- The enum's underlying value.
abbrev pub privilege_value : PrivilegeMode → ℕ
privilege_value user = 0
privilege_value supervisor = 1
privilege_value reserved = 2
privilege_value machine = 3

pub record IrqLines : Type 0 where
  pub machine_software : Bool
  pub machine_timer : Bool
  pub machine_external : Bool
  pub supervisor_software : Bool
  pub supervisor_timer : Bool
  pub supervisor_external : Bool

pub record MachineCsrState : Type 0 where
  pub mstatus : ℕ
  pub medeleg : ℕ
  pub mideleg : ℕ
  pub mie : ℕ
  pub mip_software : ℕ
  pub mip_lines : ℕ
  pub mcounteren : ℕ
  pub mtvec : ℕ
  pub mscratch : ℕ
  pub mepc : ℕ
  pub mcause : ℕ
  pub mtval : ℕ

pub record SupervisorCsrState : Type 0 where
  pub scounteren : ℕ
  pub stvec : ℕ
  pub sscratch : ℕ
  pub sepc : ℕ
  pub scause : ℕ
  pub stval : ℕ
  pub satp : ℕ

pub record CpuSnapshot : Type 0 where
  pub registers : List ℕ
  pub pc : ℕ
  pub hart_id : ℕ
  pub privilege : PrivilegeMode
  pub machine_csrs : MachineCsrState
  pub supervisor_csrs : SupervisorCsrState
  pub cycle : ℕ
  pub instructions_retired : ℕ
  pub waiting_for_interrupt : Bool

pub data InstructionKind : Type 0 where
  illegal lui auipc jal jalr : InstructionKind
  beq bne blt bge bltu bgeu : InstructionKind
  lb lh lw lbu lhu sb sh sw : InstructionKind
  addi slti sltiu xori ori andi slli srli srai : InstructionKind
  add sub sll slt sltu xor srl sra or and : InstructionKind
  mul mulh mulhsu mulhu div divu rem remu : InstructionKind
  lr_w sc_w amo_swap_w amo_add_w amo_xor_w amo_and_w amo_or_w : InstructionKind
  amo_min_w amo_max_w amo_minu_w amo_maxu_w : InstructionKind
  fence fence_i csrrw csrrs csrrc csrrwi csrrsi csrrci : InstructionKind
  ecall ebreak mret sret wfi sfence_vma : InstructionKind

pub record DecodedInstruction : Type 0 where
  pub kind : InstructionKind
  pub raw : ℕ
  pub rd : ℕ
  pub rs1 : ℕ
  pub rs2 : ℕ
  pub immediate : ℕ
  pub acquire : Bool
  pub release : Bool
  pub csr : ℕ
  pub length : ℕ

pub data ExecuteStatus : Type 0 where
  ready unsupported_instruction environment_call breakpoint : ExecuteStatus

pub record RegisterWrite : Type 0 where
  pub enabled : Bool
  pub index : ℕ
  pub value : ℕ

pub record CsrWrite : Type 0 where
  pub enabled : Bool
  pub address : ℕ
  pub value : ℕ

pub record PrivilegeWrite : Type 0 where
  pub enabled : Bool
  pub value : PrivilegeMode

pub record PendingCommit : Type 0 where
  pub status : ExecuteStatus
  pub pc : ℕ
  pub instruction : ℕ
  pub next_pc : ℕ
  pub register_write : RegisterWrite
  pub csr_write : CsrWrite
  pub privilege_write : PrivilegeWrite
  pub wait_for_interrupt : Bool
