-- ===== src/Rv32/Core/Step/BusUnits.antt =====
-- core32/src/core.cpp: what the units on the bus yield, and the tests of `commit_pending`.
use risc_v_cpu_emulator.Prelude.{ℕ, ◌<◌, ◌≡◌, ◌≢◌, refl, arith, Bool, true, false}
use risc_v_cpu_emulator.Common.Bus.{AccessWidth, CpuBus}
use risc_v_cpu_emulator.Rv32.Types.{CpuSnapshot, DecodedInstruction, PendingCommit}
use risc_v_cpu_emulator.Rv32.Execute.Integer.{ready_commit}
use risc_v_cpu_emulator.Rv32.Mmu.Walk.{MemoryAccessType}
use risc_v_cpu_emulator.Rv32.Mmu.Space.{AddressSpace, Located, locate}
use risc_v_cpu_emulator.Rv32.Execute.Memory.{
  MemoryPlan, no_access, access_memory, run_memory, access_located, access_bus, memory_failure,
  memory_loaded, memory_stored, not_memory, bus_status, misaligned_status, access_status,
  page_status, translation_status, access_type,
}
use risc_v_cpu_emulator.Rv32.Execute.Atomic.{
  AtomicPlan, no_atomic, run_atomic, atomic_located, atomic_access_bus, atomic_answer, atomic_ready,
  atomic_failure, atomic_bus, atomic_misaligned, atomic_access, atomic_page, atomic_translation,
}
use risc_v_cpu_emulator.Rv32.Commit.{is_execute_ready, rejects}
use risc_v_cpu_emulator.Rv32.Core.Dispatch.{atomic_verdict, memory_verdict}
use risc_v_cpu_emulator.Rv32.Core.Step.Acceptance.{accepts}

module _ {B : Type 0} (ops : CpuBus B) (decoded : DecodedInstruction) (state : CpuSnapshot)
    (hart_id a b : ℕ) (old : PendingCommit) (in_rd : decoded.rd < 32) where
  atomic_bus_accepted :
      (found : Located B) (plan : AtomicPlan)
      → plan ≢ no_atomic
      → accepts state (
          atomic_verdict old
            (atomic_access_bus ops decoded state.pc hart_id a b found plan).result
            (atomic_access_bus ops decoded state.pc hart_id a b found plan).result.status)
        ≡ true
  unfolding atomic_access_bus atomic_answer atomic_ready atomic_failure atomic_bus atomic_misaligned
      atomic_access atomic_verdict is_execute_ready ready_commit rejects
  atomic_bus_accepted found no_atomic h = absurd (h refl)
  atomic_bus_accepted found _ h = ground arith

  pub atomic_accepted :
      (space : AddressSpace) (bus : B) (plan : AtomicPlan)
      → plan ≢ no_atomic
      → accepts state (
          atomic_verdict old
            (run_atomic ops decoded state.pc hart_id a b space bus plan).result
            (run_atomic ops decoded state.pc hart_id a b space bus plan).result.status)
        ≡ true
  unfolding run_atomic atomic_located atomic_failure atomic_misaligned atomic_translation
      atomic_page atomic_access atomic_verdict
  atomic_accepted space bus no_atomic h = absurd (h refl)
  atomic_accepted space bus plan h = ground (
    arith,
    atomic_bus_accepted (locate ops space bus a MemoryAccessType.load) plan h,
    atomic_bus_accepted (locate ops space bus a MemoryAccessType.store) plan h,
  )

module _ {B : Type 0} (ops : CpuBus B) (decoded : DecodedInstruction) (state : CpuSnapshot)
    (address instruction : ℕ) (in_rd : decoded.rd < 32) where
  memory_bus_accepted :
      (found : Located B) (width : AccessWidth) (is_load : Bool) (value : ℕ)
      → accepts state (
          memory_verdict instruction
            (access_bus ops decoded state.pc address found width is_load value).result
            (access_bus ops decoded state.pc address found width is_load value).result.status)
        ≡ true
  unfolding access_bus memory_loaded memory_stored memory_failure bus_status misaligned_status
      access_status memory_verdict is_execute_ready ready_commit rejects
  memory_bus_accepted found width true value = ground arith
  memory_bus_accepted found width false value = ground arith

  -- The memory unit ends the search whatever the kind.
  pub memory_accepted :
      (space : AddressSpace) (bus : B) (plan : MemoryPlan) (value : ℕ)
      → accepts state (
          memory_verdict instruction
            (run_memory ops decoded state.pc address space bus plan value).result
            (run_memory ops decoded state.pc address space bus plan value).result.status)
        ≡ true
  unfolding run_memory access_located memory_failure not_memory misaligned_status access_status
      page_status translation_status memory_verdict
  memory_accepted space bus no_access value = refl
  memory_accepted space bus (access_memory width is_load) value = ground (
    arith,
    memory_bus_accepted (locate ops space bus address (access_type is_load)) width is_load value,
  )
