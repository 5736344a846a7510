-- ===== src/Rv32/Execute/Atomic.antt =====
-- core32/src/execute.cpp, `execute_atomic`: LR.W, SC.W and the AMOs.
use risc_v_cpu_emulator.Prelude.{ℕ, ◌%◌, ◌^◌, Bool, true, false, if◌then◌else◌}
use risc_v_cpu_emulator.Words.{add32, has_bits}
use risc_v_cpu_emulator.Common.Bus.{AmoOperation, BusFault, is_none, is_misaligned, CpuBus}
use risc_v_cpu_emulator.Rv32.Types.{
  InstructionKind as Kind, DecodedInstruction, ExecuteStatus, PendingCommit,
}
use risc_v_cpu_emulator.Rv32.Mmu.Walk.{MemoryAccessType, TranslationStatus, is_ready}
use risc_v_cpu_emulator.Rv32.Mmu.Space.{AddressSpace, Located, locate}
use risc_v_cpu_emulator.Rv32.Execute.Integer.{not_ready, ready_commit}

pub data AtomicStatus : Type 0 where
  ready not_atomic_instruction load_address_misaligned load_access_fault : AtomicStatus
  load_page_fault store_address_misaligned store_access_fault store_page_fault : AtomicStatus

pub record AtomicExecutionResult : Type 0 where
  pub status : AtomicStatus
  pub pending : PendingCommit
  pub bus_fault : BusFault
  pub trap_value : ℕ

-- What the switch sets: one of the three flags, and the operation.
pub data AtomicPlan : Type 0 where
  no_atomic reserve conditional : AtomicPlan
  modify_word : AmoOperation → AtomicPlan

unfoldable pub atomic_plan : Kind → AtomicPlan
atomic_plan Kind.lr_w = reserve
atomic_plan Kind.sc_w = conditional
atomic_plan Kind.amo_swap_w = modify_word AmoOperation.swap
atomic_plan Kind.amo_add_w = modify_word AmoOperation.add_word
atomic_plan Kind.amo_xor_w = modify_word AmoOperation.xor_word
atomic_plan Kind.amo_and_w = modify_word AmoOperation.and_word
atomic_plan Kind.amo_or_w = modify_word AmoOperation.or_word
atomic_plan Kind.amo_min_w = modify_word AmoOperation.min_signed
atomic_plan Kind.amo_max_w = modify_word AmoOperation.max_signed
atomic_plan Kind.amo_minu_w = modify_word AmoOperation.min_unsigned
atomic_plan Kind.amo_maxu_w = modify_word AmoOperation.max_unsigned
atomic_plan _ = no_atomic

abbrev pub is_reserve : AtomicPlan → Bool
is_reserve reserve = true
is_reserve _ = false

-- The statuses of the failures; `is_load` is `is_load_reserved`.
unfoldable pub atomic_misaligned : Bool → AtomicStatus
atomic_misaligned is_load =
    if is_load then AtomicStatus.load_address_misaligned else AtomicStatus.store_address_misaligned

unfoldable pub atomic_access : Bool → AtomicStatus
atomic_access is_load =
    if is_load then AtomicStatus.load_access_fault else AtomicStatus.store_access_fault

unfoldable pub atomic_page : Bool → AtomicStatus
atomic_page is_load =
    if is_load then AtomicStatus.load_page_fault else AtomicStatus.store_page_fault

unfoldable pub atomic_translation : Bool → TranslationStatus → AtomicStatus
atomic_translation is_load TranslationStatus.page_fault = atomic_page is_load
atomic_translation is_load _ = atomic_access is_load

unfoldable pub atomic_bus : Bool → BusFault → AtomicStatus
atomic_bus is_load fault =
    if is_misaligned fault then atomic_misaligned is_load else atomic_access is_load

pub record AtomicOutcome (B : Type 0) : Type 0 where
  pub bus : B
  pub space : AddressSpace
  pub result : AtomicExecutionResult

module _ (decoded : DecodedInstruction) (pc : ℕ) where
  unfoldable pub atomic_failure : ℕ → AtomicStatus → BusFault → AtomicExecutionResult
  atomic_failure trap_value status fault = record {
    status = status;
    pending = not_ready ExecuteStatus.unsupported_instruction pc decoded.raw;
    bus_fault = fault;
    trap_value = trap_value;
  }

  unfoldable pub not_atomic : AtomicExecutionResult
  not_atomic = atomic_failure 0 AtomicStatus.not_atomic_instruction BusFault.no_fault

  unfoldable pub atomic_ready : ℕ → AtomicExecutionResult
  atomic_ready value = record {
    status = AtomicStatus.ready;
    pending =
        ready_commit pc decoded.raw (add32 pc decoded.length)
          (record { enabled = true; index = decoded.rd; value = value });
    bus_fault = BusFault.no_fault;
    trap_value = 0;
  }

  -- The answer of the bus: a fault, or the value for the register.
  unfoldable pub atomic_answer : ℕ → (is_load : Bool) → BusFault → ℕ → AtomicExecutionResult
  atomic_answer rs1_value is_load fault value =
      if is_none fault
      then atomic_ready value
      else atomic_failure rs1_value (atomic_bus is_load fault) fault

module _ {B : Type 0} (ops : CpuBus B) (decoded : DecodedInstruction)
    (pc hart_id rs1_value rs2_value : ℕ) where
  unfoldable pub atomic_access_bus : Located B → AtomicPlan → AtomicOutcome B
  atomic_access_bus found no_atomic = record {
    bus = found.bus;
    space = found.space;
    result = not_atomic decoded pc;
  }
  atomic_access_bus found reserve =
      let answer = ops.load_reserved_word found.bus hart_id found.translation.physical_address in
      record {
        bus = answer.0;
        space = found.space;
        result = atomic_answer decoded pc rs1_value true answer.1.fault (answer.1.value % 2 ^ 32);
      }
  atomic_access_bus found conditional =
      let answer =
        ops.store_conditional_word found.bus hart_id found.translation.physical_address rs2_value in
      record {
        bus = answer.0;
        space = found.space;
        result =
            atomic_answer decoded pc rs1_value false answer.1.fault
              (if answer.1.succeeded then 0 else 1);
      }
  atomic_access_bus found (modify_word operation) =
      let answer =
        ops.atomic_word found.bus hart_id found.translation.physical_address operation rs2_value in
      record {
        bus = answer.0;
        space = found.space;
        result =
            atomic_answer decoded pc rs1_value false answer.1.fault
              (answer.1.original_value % 2 ^ 32);
      }

  unfoldable pub atomic_located : Located B → AtomicPlan → AtomicOutcome B
  atomic_located found plan =
      if is_ready found.translation then atomic_access_bus found plan else record {
        bus = found.bus;
        space = found.space;
        result =
            atomic_failure decoded pc rs1_value
              (atomic_translation (is_reserve plan) found.translation.status)
              found.translation.bus_fault;
      }

  unfoldable pub run_atomic : AddressSpace → B → AtomicPlan → AtomicOutcome B
  run_atomic space bus no_atomic = record {
    bus = bus;
    space = space;
    result = not_atomic decoded pc;
  }
  run_atomic space bus plan =
      if has_bits rs1_value 0x3
      then record {
        bus = bus;
        space = space;
        result =
            atomic_failure decoded pc rs1_value (atomic_misaligned (is_reserve plan))
              BusFault.misaligned;
      }
      else atomic_located
          (locate ops space bus rs1_value
            (if is_reserve plan then MemoryAccessType.load else MemoryAccessType.store))
          plan

  unfoldable pub execute_atomic : AddressSpace → B → AtomicOutcome B
  execute_atomic space bus = run_atomic space bus (atomic_plan decoded.kind)
