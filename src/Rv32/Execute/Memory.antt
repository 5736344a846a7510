-- ===== src/Rv32/Execute/Memory.antt =====
-- core32/src/execute.cpp, `execute_memory`: loads and stores.
use risc_v_cpu_emulator.Prelude.{ℕ, ◌-◌, ◌%◌, ◌^◌, bit_and, Bool, true, false, if◌then◌else◌}
use risc_v_cpu_emulator.Words.{add32, has_bits}
use risc_v_cpu_emulator.Common.Bus.{
  AccessWidth, width_bytes, AccessKind, BusFault, is_none, is_misaligned, CpuBus,
}
use risc_v_cpu_emulator.Rv32.Types.{
  InstructionKind as Kind, DecodedInstruction, ExecuteStatus, PendingCommit,
}
use risc_v_cpu_emulator.Rv32.Decode.Fields.{sign_extend}
use risc_v_cpu_emulator.Rv32.Mmu.Walk.{MemoryAccessType, TranslationStatus, is_ready}
use risc_v_cpu_emulator.Rv32.Mmu.Space.{AddressSpace, Located, locate}
use risc_v_cpu_emulator.Rv32.Execute.Integer.{not_ready, ready_commit, no_register_write}

pub data MemoryStatus : Type 0 where
  ready not_memory_instruction load_address_misaligned load_access_fault : MemoryStatus
  load_page_fault store_address_misaligned store_access_fault store_page_fault : MemoryStatus

pub record MemoryResult : Type 0 where
  pub status : MemoryStatus
  pub pending : PendingCommit
  pub bus_fault : BusFault
  pub trap_value : ℕ

-- What the first switch sets: the width, and whether the access is a load.
pub data MemoryPlan : Type 0 where
  no_access : MemoryPlan
  access_memory : AccessWidth → (is_load : Bool) → MemoryPlan

unfoldable pub memory_plan : Kind → MemoryPlan
memory_plan Kind.lb = access_memory AccessWidth.byte true
memory_plan Kind.lbu = access_memory AccessWidth.byte true
memory_plan Kind.lh = access_memory AccessWidth.half_word true
memory_plan Kind.lhu = access_memory AccessWidth.half_word true
memory_plan Kind.lw = access_memory AccessWidth.word true
memory_plan Kind.sb = access_memory AccessWidth.byte false
memory_plan Kind.sh = access_memory AccessWidth.half_word false
memory_plan Kind.sw = access_memory AccessWidth.word false
memory_plan _ = no_access

-- The second switch. It is reached by the five loads only; the others stand for its default.
unfoldable pub loaded_value : Kind → ℕ → ℕ
loaded_value Kind.lb raw_value = sign_extend raw_value 8
loaded_value Kind.lbu raw_value = bit_and raw_value 0xFF
loaded_value Kind.lh raw_value = sign_extend raw_value 16
loaded_value Kind.lhu raw_value = bit_and raw_value 0xFFFF
loaded_value _ raw_value = raw_value

-- The statuses of a misaligned address, of a failed translation, and of a failed bus access.
unfoldable pub misaligned_status : Bool → MemoryStatus
misaligned_status is_load =
    if is_load then MemoryStatus.load_address_misaligned else MemoryStatus.store_address_misaligned

unfoldable pub access_status : Bool → MemoryStatus
access_status is_load =
    if is_load then MemoryStatus.load_access_fault else MemoryStatus.store_access_fault

unfoldable pub page_status : Bool → MemoryStatus
page_status is_load =
    if is_load then MemoryStatus.load_page_fault else MemoryStatus.store_page_fault

unfoldable pub translation_status : Bool → TranslationStatus → MemoryStatus
translation_status is_load TranslationStatus.page_fault = page_status is_load
translation_status is_load _ = access_status is_load

unfoldable pub bus_status : Bool → BusFault → MemoryStatus
bus_status is_load fault =
    if is_misaligned fault then misaligned_status is_load else access_status is_load

abbrev pub access_type : Bool → MemoryAccessType
access_type is_load = if is_load then MemoryAccessType.load else MemoryAccessType.store

-- The bus and the address space after the access, and its result.
pub record MemoryOutcome (B : Type 0) : Type 0 where
  pub bus : B
  pub space : AddressSpace
  pub result : MemoryResult

module _ (decoded : DecodedInstruction) (pc address : ℕ) where
  unfoldable pub memory_failure : MemoryStatus → BusFault → MemoryResult
  memory_failure status fault = record {
    status = status;
    pending = not_ready ExecuteStatus.unsupported_instruction pc decoded.raw;
    bus_fault = fault;
    trap_value = address;
  }

  unfoldable pub memory_loaded : ℕ → MemoryResult
  memory_loaded value = record {
    status = MemoryStatus.ready;
    pending =
        ready_commit pc decoded.raw (add32 pc decoded.length)
          (record { enabled = true; index = decoded.rd; value = value });
    bus_fault = BusFault.no_fault;
    trap_value = 0;
  }

  unfoldable pub memory_stored : MemoryResult
  memory_stored = record {
    status = MemoryStatus.ready;
    pending = ready_commit pc decoded.raw (add32 pc decoded.length) no_register_write;
    bus_fault = BusFault.no_fault;
    trap_value = 0;
  }

unfoldable pub not_memory : DecodedInstruction → ℕ → MemoryResult
not_memory decoded pc =
    memory_failure decoded pc 0 MemoryStatus.not_memory_instruction BusFault.no_fault

module _ {B : Type 0} (ops : CpuBus B) (decoded : DecodedInstruction) (pc address : ℕ) where
  -- The access to the bus, at the translated address.
  unfoldable pub access_bus :
      Located B → AccessWidth → (is_load : Bool) → (rs2_value : ℕ) → MemoryOutcome B
  access_bus found width true rs2_value =
      let answer = ops.read found.bus found.translation.physical_address width AccessKind.load in
      record {
        bus = answer.0;
        space = found.space;
        result =
            (if is_none answer.1.fault
              then memory_loaded decoded pc address
                  (loaded_value decoded.kind (answer.1.value % 2 ^ 32))
              else memory_failure decoded pc address (bus_status true answer.1.fault)
                  answer.1.fault);
      }
  access_bus found width false rs2_value =
      let answer =
        ops.write found.bus found.translation.physical_address width rs2_value AccessKind.store in
      record {
        bus = answer.0;
        space = found.space;
        result =
            (if is_none answer.1
              then memory_stored decoded pc address
              else memory_failure decoded pc address (bus_status false answer.1) answer.1);
      }

  unfoldable pub access_located :
      Located B → AccessWidth → (is_load : Bool) → (rs2_value : ℕ) → MemoryOutcome B
  access_located found width is_load rs2_value =
      if is_ready found.translation then access_bus found width is_load rs2_value else record {
        bus = found.bus;
        space = found.space;
        result =
            memory_failure decoded pc address (translation_status is_load found.translation.status)
              found.translation.bus_fault;
      }

  unfoldable pub run_memory : AddressSpace → B → MemoryPlan → (rs2_value : ℕ) → MemoryOutcome B
  run_memory space bus no_access rs2_value = record {
    bus = bus;
    space = space;
    result = not_memory decoded pc;
  }
  run_memory space bus (access_memory width is_load) rs2_value =
      if has_bits address (width_bytes width - 1)
      then record {
        bus = bus;
        space = space;
        result = memory_failure decoded pc address (misaligned_status is_load) BusFault.misaligned;
      }
      else access_located (locate ops space bus address (access_type is_load)) width is_load
          rs2_value

unfoldable pub execute_memory :
    {B : Type 0}
    → CpuBus B
    → AddressSpace
    → B
    → DecodedInstruction
    → (pc rs1_value rs2_value : ℕ) → MemoryOutcome B
execute_memory ops space bus decoded pc rs1_value rs2_value =
    run_memory ops decoded pc (add32 rs1_value decoded.immediate) space bus
      (memory_plan decoded.kind) rs2_value
