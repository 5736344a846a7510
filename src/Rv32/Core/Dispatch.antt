-- ===== src/Rv32/Core/Dispatch.antt =====
-- core32/src/core.cpp, `Core::step`: the execution units, tried one after the other. In reference
-- mode each is tried until one is ready; in fast mode only the unit of the instruction's kind is.
pub mod Units
pub mod Completions
pub mod Reference
pub mod Stages
pub mod Modes
use risc_v_cpu_emulator.Prelude.{ℕ, Bool, ◌&&◌, ◌||◌, ◌==◌, not, if◌then◌else◌}
use risc_v_cpu_emulator.Common.Bus.{BusFault, CpuBus}
use risc_v_cpu_emulator.Rv32.Types.{
  CpuSnapshot, InstructionKind as Kind, DecodedInstruction, ExecuteStatus, PendingCommit,
}
use risc_v_cpu_emulator.Rv32.Trap.Entry.{ExceptionCause, environment_call_cause}
use risc_v_cpu_emulator.Rv32.Trap.Privileged.{
  PrivilegedExecutionStatus, PrivilegedExecutionResult, execute_privileged,
}
use risc_v_cpu_emulator.Rv32.Mmu.Space.{AddressSpace}
use risc_v_cpu_emulator.Rv32.Execute.Integer.{not_ready, execute_decoded}
use risc_v_cpu_emulator.Rv32.Execute.ControlFlow.{
  ControlFlowStatus, ControlFlowResult, execute_control_flow,
}
use risc_v_cpu_emulator.Rv32.Execute.Memory.{MemoryStatus, MemoryResult, execute_memory}
use risc_v_cpu_emulator.Rv32.Execute.Atomic.{AtomicStatus, AtomicExecutionResult, execute_atomic}
use risc_v_cpu_emulator.Rv32.Commit.{
  CsrExecutionStatus, CsrExecutionResult, execute_csr, is_execute_ready,
}

pub data ExecutionUnit : Type 0 where
  integer privileged control_flow atomic csr memory : ExecutionUnit

unfoldable pub execution_unit : Kind → ExecutionUnit
execution_unit Kind.mret = privileged
execution_unit Kind.sret = privileged
execution_unit Kind.wfi = privileged
execution_unit Kind.sfence_vma = privileged
execution_unit Kind.auipc = control_flow
execution_unit Kind.jal = control_flow
execution_unit Kind.jalr = control_flow
execution_unit Kind.beq = control_flow
execution_unit Kind.bne = control_flow
execution_unit Kind.blt = control_flow
execution_unit Kind.bge = control_flow
execution_unit Kind.bltu = control_flow
execution_unit Kind.bgeu = control_flow
execution_unit Kind.lr_w = atomic
execution_unit Kind.sc_w = atomic
execution_unit Kind.amo_swap_w = atomic
execution_unit Kind.amo_add_w = atomic
execution_unit Kind.amo_xor_w = atomic
execution_unit Kind.amo_and_w = atomic
execution_unit Kind.amo_or_w = atomic
execution_unit Kind.amo_min_w = atomic
execution_unit Kind.amo_max_w = atomic
execution_unit Kind.amo_minu_w = atomic
execution_unit Kind.amo_maxu_w = atomic
execution_unit Kind.csrrw = csr
execution_unit Kind.csrrs = csr
execution_unit Kind.csrrc = csr
execution_unit Kind.csrrwi = csr
execution_unit Kind.csrrsi = csr
execution_unit Kind.csrrci = csr
execution_unit Kind.lb = memory
execution_unit Kind.lh = memory
execution_unit Kind.lw = memory
execution_unit Kind.lbu = memory
execution_unit Kind.lhu = memory
execution_unit Kind.sb = memory
execution_unit Kind.sh = memory
execution_unit Kind.sw = memory
execution_unit _ = integer

abbrev pub unit_number : ExecutionUnit → ℕ
unit_number integer = 0
unit_number privileged = 1
unit_number control_flow = 2
unit_number atomic = 3
unit_number csr = 4
unit_number memory = 5

-- A call of `trap`, or the result so far.
pub data Verdict : Type 0 where
  raises : ExceptionCause → (trap_value : ℕ) → BusFault → Verdict
  yields : PendingCommit → Verdict

pub record Progress (B : Type 0) : Type 0 where
  pub bus : B
  pub space : AddressSpace
  pub verdict : Verdict

-- The switches on the statuses; `old` is the result so far, which a refusal keeps.
unfoldable pub integer_verdict : CpuSnapshot → ℕ → PendingCommit → ExecuteStatus → Verdict
integer_verdict state pc pending ExecuteStatus.environment_call =
    raises (environment_call_cause state.privilege) 0 BusFault.no_fault
integer_verdict state pc pending ExecuteStatus.breakpoint =
    raises ExceptionCause.breakpoint pc BusFault.no_fault
integer_verdict state pc pending _ = yields pending

unfoldable pub privileged_verdict :
    PendingCommit → PrivilegedExecutionResult → PrivilegedExecutionStatus → Verdict
privileged_verdict old result PrivilegedExecutionStatus.ready = yields result.pending
privileged_verdict old result PrivilegedExecutionStatus.illegal_instruction =
    raises ExceptionCause.illegal_instruction result.trap_value BusFault.no_fault
privileged_verdict old result PrivilegedExecutionStatus.not_privileged_instruction = yields old

unfoldable pub control_flow_verdict :
    PendingCommit → ControlFlowResult → ControlFlowStatus → Verdict
control_flow_verdict old result ControlFlowStatus.ready = yields result.pending
control_flow_verdict old result ControlFlowStatus.instruction_address_misaligned =
    raises ExceptionCause.instruction_address_misaligned result.trap_value BusFault.no_fault
control_flow_verdict old result ControlFlowStatus.not_control_flow_instruction = yields old

unfoldable pub atomic_verdict : PendingCommit → AtomicExecutionResult → AtomicStatus → Verdict
atomic_verdict old result AtomicStatus.ready = yields result.pending
atomic_verdict old result AtomicStatus.load_address_misaligned =
    raises ExceptionCause.load_address_misaligned result.trap_value result.bus_fault
atomic_verdict old result AtomicStatus.load_access_fault =
    raises ExceptionCause.load_access_fault result.trap_value result.bus_fault
atomic_verdict old result AtomicStatus.load_page_fault =
    raises ExceptionCause.load_page_fault result.trap_value result.bus_fault
atomic_verdict old result AtomicStatus.store_address_misaligned =
    raises ExceptionCause.store_address_misaligned result.trap_value result.bus_fault
atomic_verdict old result AtomicStatus.store_access_fault =
    raises ExceptionCause.store_access_fault result.trap_value result.bus_fault
atomic_verdict old result AtomicStatus.store_page_fault =
    raises ExceptionCause.store_page_fault result.trap_value result.bus_fault
atomic_verdict old result AtomicStatus.not_atomic_instruction = yields old

unfoldable pub csr_verdict : PendingCommit → CsrExecutionResult → CsrExecutionStatus → Verdict
csr_verdict old result CsrExecutionStatus.ready = yields result.pending
csr_verdict old result CsrExecutionStatus.illegal_instruction =
    raises ExceptionCause.illegal_instruction result.trap_value BusFault.no_fault
csr_verdict old result CsrExecutionStatus.not_csr_instruction = yields old

unfoldable pub memory_verdict : (instruction : ℕ) → MemoryResult → MemoryStatus → Verdict
memory_verdict instruction result MemoryStatus.ready = yields result.pending
memory_verdict instruction result MemoryStatus.load_address_misaligned =
    raises ExceptionCause.load_address_misaligned result.trap_value result.bus_fault
memory_verdict instruction result MemoryStatus.load_access_fault =
    raises ExceptionCause.load_access_fault result.trap_value result.bus_fault
memory_verdict instruction result MemoryStatus.load_page_fault =
    raises ExceptionCause.load_page_fault result.trap_value result.bus_fault
memory_verdict instruction result MemoryStatus.store_address_misaligned =
    raises ExceptionCause.store_address_misaligned result.trap_value result.bus_fault
memory_verdict instruction result MemoryStatus.store_access_fault =
    raises ExceptionCause.store_access_fault result.trap_value result.bus_fault
memory_verdict instruction result MemoryStatus.store_page_fault =
    raises ExceptionCause.store_page_fault result.trap_value result.bus_fault
memory_verdict instruction result MemoryStatus.not_memory_instruction =
    raises ExceptionCause.illegal_instruction instruction BusFault.no_fault

-- A unit runs where it is tried and the result so far is not ready.
unfoldable pub stage_from :
    {B : Type 0} → Bool → (PendingCommit → Progress B) → Progress B → Verdict → Progress B
stage_from tried run progress (raises cause trap_value fault) = progress
stage_from tried run progress (yields pending) =
    if not (is_execute_ready pending.status) && tried then run pending else progress

abbrev pub stage : {B : Type 0} → Bool → (PendingCommit → Progress B) → Progress B → Progress B
stage tried run progress = stage_from tried run progress progress.verdict

module _ {B : Type 0} (ops : CpuBus B) (reference : Bool) (state : CpuSnapshot)
    (decoded : DecodedInstruction) (pc instruction rs1_value rs2_value : ℕ) where
  -- Whether a unit is tried.
  abbrev pub tries : ExecutionUnit → Bool
  tries unit = reference || unit_number (execution_unit decoded.kind) == unit_number unit

  unfoldable pub run_integer : B → AddressSpace → Progress B
  run_integer bus space =
      let pending =
        if tries integer
        then execute_decoded decoded pc rs1_value rs2_value
        else not_ready ExecuteStatus.unsupported_instruction pc instruction in
      record { bus = bus; space = space; verdict = integer_verdict state pc pending pending.status }

  unfoldable pub run_privileged : Progress B → Progress B
  run_privileged progress =
      let result = execute_privileged decoded state in
      stage (tries privileged)
        (λ old. record progress { verdict = privileged_verdict old result result.status }) progress

  unfoldable pub run_control_flow : Progress B → Progress B
  run_control_flow progress =
      let result = execute_control_flow decoded pc rs1_value rs2_value in
      stage (tries control_flow)
        (λ old. record progress { verdict = control_flow_verdict old result result.status })
        progress

  unfoldable pub run_atomic_unit : Progress B → Progress B
  run_atomic_unit progress =
      let outcome =
        execute_atomic ops decoded pc state.hart_id rs1_value rs2_value progress.space
          progress.bus in
      stage (tries atomic)
        (λ old. record {
          bus = outcome.bus;
          space = outcome.space;
          verdict = atomic_verdict old outcome.result outcome.result.status;
        })
        progress

  unfoldable pub run_csr_unit : Progress B → Progress B
  run_csr_unit progress =
      let result =
        execute_csr state (ops.read_time progress.bus) decoded state.privilege pc rs1_value in
      stage (tries csr) (λ old. record progress { verdict = csr_verdict old result result.status })
        progress

  unfoldable pub run_memory_unit : Progress B → Progress B
  run_memory_unit progress =
      let outcome = execute_memory ops progress.space progress.bus decoded pc rs1_value rs2_value in
      stage (tries memory)
        (λ old. record {
          bus = outcome.bus;
          space = outcome.space;
          verdict = memory_verdict instruction outcome.result outcome.result.status;
        })
        progress

  unfoldable pub dispatch : B → AddressSpace → Progress B
  dispatch bus space =
      run_memory_unit
        (run_csr_unit (run_atomic_unit (run_control_flow (run_privileged (run_integer bus space)))))
