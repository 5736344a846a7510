-- ===== src/Rv32/Core/Hart.antt =====
-- core32/src/core.cpp and core.hpp: the members of `Core`, and what it passes to the other parts.
use risc_v_cpu_emulator.Prelude.{
  ℕ, ◌+◌, ◌%◌, ◌^◌, Bool, true, false, if◌then◌else◌, Option, none, some, get_or, set, replicate,
}
use risc_v_cpu_emulator.Common.Bus.{BusFault}
use risc_v_cpu_emulator.Rv32.Types.{
  PrivilegeMode, IrqLines, CpuSnapshot, InstructionKind as Kind, RegisterWrite,
}
use risc_v_cpu_emulator.Rv32.Mmu.Tlb
use risc_v_cpu_emulator.Rv32.Mmu.Space.{AddressSpace, walked, cached}
use risc_v_cpu_emulator.Rv32.Frontend.DecodeCache.{DecodeCache, clear_decoded}
use risc_v_cpu_emulator.Rv32.Frontend.InstructionCache
use risc_v_cpu_emulator.Rv32.Frontend.Fetch.{Machine}

pub data ExecutionMode : Type 0 where
  reference fast : ExecutionMode

pub data StepStatus : Type 0 where
  retired instruction_address_misaligned instruction_access_fault illegal_instruction
        unsupported_instruction environment_call breakpoint load_address_misaligned
        load_access_fault store_address_misaligned store_access_fault instruction_page_fault
        load_page_fault store_page_fault trap_taken waiting_for_interrupt core_not_implemented :
      StepStatus

pub record CommitTrace : Type 0 where
  pub valid : Bool
  pub privilege : PrivilegeMode
  pub pc : ℕ
  pub instruction : ℕ
  pub next_pc : ℕ
  pub instruction_length : ℕ
  pub register_write : RegisterWrite

abbrev pub no_commit : CommitTrace
no_commit = record {
  valid = false;
  privilege = PrivilegeMode.machine;
  pc = 0;
  instruction = 0;
  next_pc = 0;
  instruction_length = 0;
  register_write = record { enabled = false; index = 0; value = 0 };
}

pub record StepResult : Type 0 where
  pub status : StepStatus
  pub pc : ℕ
  pub instruction : ℕ
  pub trap_value : ℕ
  pub bus_fault : BusFault
  pub cycle : ℕ
  pub commit : CommitTrace

-- The members of `Core`, and the bus that it uses.
pub record Hart (B : Type 0) : Type 0 where
  pub bus : B
  pub state : CpuSnapshot
  pub sampled_irq_lines : IrqLines
  pub tlb : Tlb.Tlb
  pub decode_cache : DecodeCache
  pub instruction_cache : InstructionCache.InstructionCache
  pub execution_mode : ExecutionMode

abbrev pub is_reference : ExecutionMode → Bool
is_reference reference = true
is_reference fast = false

abbrev pub is_waiting : CpuSnapshot → Bool
is_waiting state = state.waiting_for_interrupt

unfoldable pub step_result :
    StepStatus → (pc instruction trap_value : ℕ) → BusFault → (cycle : ℕ) → CommitTrace → StepResult
step_result status pc instruction trap_value bus_fault cycle commit = record {
  status = status;
  pc = pc;
  instruction = instruction;
  trap_value = trap_value;
  bus_fault = bus_fault;
  cycle = cycle;
  commit = commit;
}

unfoldable pub space_tlb : Tlb.Tlb → AddressSpace → Tlb.Tlb
space_tlb old (cached state tlb) = tlb
space_tlb old _ = old

unfoldable pub or_old {ℓ} : {A : Type ℓ} → A → Option A → A
or_old old none = old
or_old old (some new) = new

abbrev pub is_sfence : Kind → Bool
is_sfence kind = elim kind [ Kind.sfence_vma ↦ true | _ ↦ false ]

abbrev pub is_fence_i : Kind → Bool
is_fence_i kind = elim kind [ Kind.fence_i ↦ true | _ ↦ false ]

abbrev pub register_value : CpuSnapshot → ℕ → ℕ
register_value state index = get_or state.registers index 0

module _ {B : Type 0} where
  -- What the core passes to `fetch_decode` and to the units: the TLB and caches in fast mode only.
  unfoldable pub machine_in : ExecutionMode → Hart B → Machine B
  machine_in reference hart = record {
    bus = hart.bus;
    space = walked hart.state;
    decode_cache = none;
    instruction_cache = none;
  }
  machine_in fast hart = record {
    bus = hart.bus;
    space = cached hart.state hart.tlb;
    decode_cache = some hart.decode_cache;
    instruction_cache = some hart.instruction_cache;
  }

  unfoldable pub machine_of : Hart B → Machine B
  machine_of hart = machine_in hart.execution_mode hart

  -- The members after the fetch.
  unfoldable pub fetched : Hart B → Machine B → Hart B
  fetched hart machine = record hart {
    bus = machine.bus;
    tlb = space_tlb hart.tlb machine.space;
    decode_cache = or_old hart.decode_cache machine.decode_cache;
    instruction_cache = or_old hart.instruction_cache machine.instruction_cache;
  }

abbrev pub no_lines : IrqLines
no_lines = record {
  machine_software = false;
  machine_timer = false;
  machine_external = false;
  supervisor_software = false;
  supervisor_timer = false;
  supervisor_external = false;
}

-- The default members of a `CpuSnapshot`, with what `reset` sets; a0 and a1 are registers 10 and 11.
unfoldable pub reset_state : (reset_pc hart_id boot_argument : ℕ) → PrivilegeMode → CpuSnapshot
reset_state reset_pc hart_id boot_argument initial_privilege = record {
  registers = set (set (set (replicate 32 0) 10 hart_id) 11 boot_argument) 0 0;
  pc = reset_pc;
  hart_id = hart_id;
  privilege = initial_privilege;
  machine_csrs = record {
    mstatus = 0;
    medeleg = 0;
    mideleg = 0;
    mie = 0;
    mip_software = 0;
    mip_lines = 0;
    mcounteren = 7;
    mtvec = 0;
    mscratch = 0;
    mepc = 0;
    mcause = 0;
    mtval = 0;
  };
  supervisor_csrs = record {
    scounteren = 7;
    stvec = 0;
    sscratch = 0;
    sepc = 0;
    scause = 0;
    stval = 0;
    satp = 0;
  };
  cycle = 0;
  instructions_retired = 0;
  waiting_for_interrupt = false;
}

module _ {B : Type 0} where
  unfoldable pub advance_cycles : Hart B → ℕ → Hart B
  advance_cycles hart cycles = record hart {
    state = record hart.state { cycle = (hart.state.cycle + cycles) % 2 ^ 64 };
  }

  abbrev pub emptied : Hart B → Hart B
  emptied hart = record hart {
    tlb = Tlb.clear;
    decode_cache = clear_decoded;
    instruction_cache = InstructionCache.clear hart.instruction_cache;
  }

  unfoldable pub set_execution_mode : Hart B → ExecutionMode → Hart B
  set_execution_mode hart reference =
      if is_reference hart.execution_mode
      then hart
      else emptied (record hart { execution_mode = reference })
  set_execution_mode hart fast =
      if is_reference hart.execution_mode
      then emptied (record hart { execution_mode = fast })
      else hart

  unfoldable pub reset : Hart B → (reset_pc hart_id boot_argument : ℕ) → PrivilegeMode → Hart B
  reset hart reset_pc hart_id boot_argument initial_privilege = record (emptied hart) {
    state = reset_state reset_pc hart_id boot_argument initial_privilege;
    sampled_irq_lines = no_lines;
  }

  -- The constructor `Core`: the default members, and a reset with the default `ResetConfig`.
  unfoldable pub construct : B → Hart B
  construct bus =
      let members : Hart B = record {
        bus = bus;
        state = reset_state 0 0 0 PrivilegeMode.machine;
        sampled_irq_lines = no_lines;
        tlb = Tlb.clear;
        decode_cache = clear_decoded;
        instruction_cache = InstructionCache.cleared_cache 1;
        execution_mode = fast;
      } in
      reset members 0x80000000 0 0 PrivilegeMode.machine
