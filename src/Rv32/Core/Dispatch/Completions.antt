-- ===== src/Rv32/Core/Dispatch/Completions.antt =====
-- core32/src/core.cpp: the units that use the bus or the CSR file, on their own kinds.
use risc_v_cpu_emulator.Prelude.{ℕ, ◌≡◌, ◌≢◌, refl, arith, Bool, true, false}
use risc_v_cpu_emulator.Common.Bus.{AccessWidth, CpuBus}
use risc_v_cpu_emulator.Rv32.Types.{
  PrivilegeMode, CpuSnapshot, InstructionKind as Kind, DecodedInstruction, PendingCommit,
}
use risc_v_cpu_emulator.Rv32.Execute.Integer.{ready_commit}
use risc_v_cpu_emulator.Rv32.Mmu.Walk.{MemoryAccessType}
use risc_v_cpu_emulator.Rv32.Mmu.Space.{AddressSpace, Located, locate}
use risc_v_cpu_emulator.Rv32.Execute.Memory.{
  MemoryPlan, no_access, access_memory, run_memory, access_located, access_bus, memory_failure,
  memory_loaded, memory_stored, not_memory, bus_status, misaligned_status, access_status,
  page_status, translation_status, access_type,
}
use risc_v_cpu_emulator.Rv32.Execute.Atomic.{
  AtomicPlan, no_atomic, atomic_plan, run_atomic, atomic_located, atomic_access_bus, atomic_answer,
  atomic_ready, atomic_failure, atomic_bus, atomic_misaligned, atomic_access, atomic_page,
  atomic_translation,
}
use risc_v_cpu_emulator.Rv32.Commit.{
  Planned, not_csr, planned, csr_plan, csr_run, csr_refuse, csr_finish, is_execute_ready,
}
use risc_v_cpu_emulator.Rv32.Core.Dispatch.{
  execution_unit, atomic_verdict, csr_verdict, memory_verdict,
}
use risc_v_cpu_emulator.Rv32.Core.Dispatch.Units.{is_done, number_of}

pub atomic_planned : (kind : Kind) → number_of kind ≡ 3 → atomic_plan kind ≢ no_atomic
unfolding execution_unit atomic_plan
atomic_planned Kind.illegal h e = absurd (omega (arith, h))
atomic_planned _ h e = ground (arith, h, e)

pub csr_planned :
    (kind : Kind) (decoded : DecodedInstruction) (a : ℕ)
    → number_of kind ≡ 4
    → csr_plan kind decoded a ≢ not_csr
unfolding execution_unit csr_plan
csr_planned Kind.illegal decoded a h e = absurd (omega (arith, h))
csr_planned _ decoded a h e = ground (arith, h, e)

module _ {B : Type 0} (ops : CpuBus B) (decoded : DecodedInstruction) (pc hart_id a b : ℕ)
    (old : PendingCommit) where
  atomic_bus_completes :
      (found : Located B) (plan : AtomicPlan)
      → plan ≢ no_atomic
      → is_done (
          atomic_verdict old
            (atomic_access_bus ops decoded pc hart_id a b found plan).result
            (atomic_access_bus ops decoded pc hart_id a b found plan).result.status)
        ≡ true
  unfolding atomic_access_bus atomic_answer atomic_ready atomic_failure atomic_bus atomic_misaligned
      atomic_access atomic_verdict is_execute_ready ready_commit
  atomic_bus_completes found no_atomic h = absurd (h refl)
  atomic_bus_completes found _ h = ground arith

  pub atomic_completes :
      (space : AddressSpace) (bus : B) (plan : AtomicPlan)
      → plan ≢ no_atomic
      → is_done (
          atomic_verdict old
            (run_atomic ops decoded pc hart_id a b space bus plan).result
            (run_atomic ops decoded pc hart_id a b space bus plan).result.status)
        ≡ true
  unfolding run_atomic atomic_located atomic_failure atomic_misaligned atomic_translation
      atomic_page atomic_access atomic_verdict
  atomic_completes space bus no_atomic h = absurd (h refl)
  atomic_completes space bus plan h = ground (
    arith,
    atomic_bus_completes (locate ops space bus a MemoryAccessType.load) plan h,
    atomic_bus_completes (locate ops space bus a MemoryAccessType.store) plan h,
  )

pub csr_completes :
    (state : CpuSnapshot) (time : ℕ) (decoded : DecodedInstruction) (privilege : PrivilegeMode)
    (pc : ℕ) (old : PendingCommit) (plan : Planned)
    → plan ≢ not_csr
    → is_done (
        csr_verdict old
          (csr_run state time decoded privilege pc plan)
          (csr_run state time decoded privilege pc plan).status)
      ≡ true
unfolding csr_run csr_refuse csr_finish csr_verdict is_execute_ready ready_commit
csr_completes state time decoded privilege pc old not_csr h = absurd (h refl)
csr_completes state time decoded privilege pc old (planned plan) h = ground arith

module _ {B : Type 0} (ops : CpuBus B) (decoded : DecodedInstruction)
    (pc address instruction : ℕ) where
  memory_bus_completes :
      (found : Located B) (width : AccessWidth) (is_load : Bool) (value : ℕ)
      → is_done (
          memory_verdict instruction
            (access_bus ops decoded pc address found width is_load value).result
            (access_bus ops decoded pc address found width is_load value).result.status)
        ≡ true
  unfolding access_bus memory_loaded memory_stored memory_failure bus_status misaligned_status
      access_status memory_verdict is_execute_ready ready_commit
  memory_bus_completes found width true value = ground arith
  memory_bus_completes found width false value = ground arith

  -- The memory unit ends the search whatever the kind.
  pub memory_completes :
      (space : AddressSpace) (bus : B) (plan : MemoryPlan) (value : ℕ)
      → is_done (
          memory_verdict instruction
            (run_memory ops decoded pc address space bus plan value).result
            (run_memory ops decoded pc address space bus plan value).result.status)
        ≡ true
  unfolding run_memory access_located memory_failure not_memory misaligned_status access_status
      page_status translation_status memory_verdict
  memory_completes space bus no_access value = refl
  memory_completes space bus (access_memory width is_load) value = ground (
    arith,
    memory_bus_completes (locate ops space bus address (access_type is_load)) width is_load value,
  )
