-- ===== src/Rv32/Execute/MemoryResults.antt =====
-- core32/src/execute.cpp: what `execute_memory` returns, on every path.
use risc_v_cpu_emulator.Prelude.{
  ℕ, ◌-◌, ◌≡◌, ◌≢◌, ◌⊎◌, refl, arith, Bool, true, false, if◌then◌else◌, inl, inr, Bool-cases,
}
use risc_v_cpu_emulator.Words.{add32, has_bits}
use risc_v_cpu_emulator.Common.Bus.{AccessWidth, width_bytes, BusFault, CpuBus}
use risc_v_cpu_emulator.Rv32.Types.{DecodedInstruction, ExecuteStatus}
use risc_v_cpu_emulator.Rv32.Mmu.Walk.{TranslationStatus, is_ready}
use risc_v_cpu_emulator.Rv32.Mmu.Space.{AddressSpace, Located}
use risc_v_cpu_emulator.Rv32.Execute.Integer.{not_ready, ready_commit}
use risc_v_cpu_emulator.Rv32.Execute.Memory.{
  MemoryStatus, MemoryResult, access_memory, memory_plan, misaligned_status, access_status,
  page_status, translation_status, bus_status, memory_failure, memory_loaded, memory_stored,
  access_bus, access_located, run_memory, execute_memory,
}

module _ (decoded : DecodedInstruction) (pc address : ℕ) where
  -- A ready result continues behind the instruction; any other writes no register, stays at the PC and
  -- reports the address that was computed.
  abbrev pub IsPrecise : MemoryResult → Type 0
  IsPrecise result =
      ((result.status ≡ MemoryStatus.ready)
        × (result.pending.status ≡ ExecuteStatus.ready)
        × (result.pending.next_pc ≡ add32 pc decoded.length))
      ⊎ ((result.status ≢ MemoryStatus.ready)
          × (result.pending.status ≡ ExecuteStatus.unsupported_instruction)
          × (result.pending.register_write.enabled ≡ false)
          × (result.pending.next_pc ≡ pc)
          × (result.trap_value ≡ address))

  failure-IsPrecise :
      (status : MemoryStatus) (fault : BusFault)
      → status ≢ MemoryStatus.ready
      → IsPrecise (memory_failure decoded pc address status fault)
  unfolding memory_failure not_ready
  failure-IsPrecise status fault h = inr (h, refl, refl, refl, refl)

  if-IsPrecise :
      (b : Bool) (x y : MemoryResult) → IsPrecise x → IsPrecise y → IsPrecise (if b then x else y)
  if-IsPrecise true x y h k = h
  if-IsPrecise false x y h k = k

bus_status_failed :
    (is_load : Bool) (fault : BusFault) → bus_status is_load fault ≢ MemoryStatus.ready
unfolding bus_status misaligned_status access_status
bus_status_failed is_load fault e = absurd (ground (arith, e))

misaligned_failed : (is_load : Bool) → misaligned_status is_load ≢ MemoryStatus.ready
unfolding misaligned_status
misaligned_failed is_load e = absurd (ground (arith, e))

translation_status_failed :
    (is_load : Bool) (status : TranslationStatus)
    → translation_status is_load status ≢ MemoryStatus.ready
unfolding translation_status page_status access_status
translation_status_failed is_load TranslationStatus.page_fault e = absurd (ground (arith, e))
translation_status_failed is_load TranslationStatus.access_fault e = absurd (ground (arith, e))
translation_status_failed is_load TranslationStatus.ready e = absurd (ground (arith, e))

module _ {B : Type 0} (ops : CpuBus B) (decoded : DecodedInstruction) (pc address : ℕ) where
  access_bus-IsPrecise :
      (found : Located B) (width : AccessWidth) (is_load : Bool) (value : ℕ)
      → IsPrecise decoded pc address
          (access_bus ops decoded pc address found width is_load value).result
  unfolding access_bus memory_loaded memory_stored ready_commit
  access_bus-IsPrecise found width true value =
      if-IsPrecise decoded pc address _ _ _ (inl (refl, refl, refl))
        (failure-IsPrecise decoded pc address _ _ (bus_status_failed true _))
  access_bus-IsPrecise found width false value =
      if-IsPrecise decoded pc address _ _ _ (inl (refl, refl, refl))
        (failure-IsPrecise decoded pc address _ _ (bus_status_failed false _))

  access_located-IsPrecise :
      (found : Located B) (width : AccessWidth) (is_load : Bool) (value : ℕ)
      → IsPrecise decoded pc address
          (access_located ops decoded pc address found width is_load value).result
  unfolding access_located
  access_located-IsPrecise found width is_load value =
      elim (Bool-cases (is_ready found.translation)) [
        | inl e ↦ rw e (access_bus-IsPrecise found width is_load value)
        | inr e ↦ rw e (
            failure-IsPrecise decoded pc address _ _
              (translation_status_failed is_load found.translation.status))
      ]

  run_memory-IsPrecise :
      (space : AddressSpace) (bus : B) (width : AccessWidth) (is_load : Bool) (value : ℕ)
      → IsPrecise decoded pc address
          (run_memory ops decoded pc address space bus (access_memory width is_load) value).result
  unfolding run_memory
  run_memory-IsPrecise space bus width is_load value =
      elim (Bool-cases (has_bits address (width_bytes width - 1))) [
        | inl e ↦ rw e (failure-IsPrecise decoded pc address _ _ (misaligned_failed is_load))
        | inr e ↦ rw e (access_located-IsPrecise _ width is_load value)
      ]

module _ {B : Type 0} (ops : CpuBus B) (space : AddressSpace) (bus : B)
    (decoded : DecodedInstruction) (pc a b : ℕ) (width : AccessWidth) (is_load : Bool)
    (plan : memory_plan decoded.kind ≡ access_memory width is_load) where
  -- On every path of a load or a store, with any bus and address space: the result is ready and goes on
  -- behind the instruction, or it writes no register, stays at the PC and reports the address.
  pub execute_memory-IsPrecise :
      IsPrecise decoded pc
        (add32 a decoded.immediate)
        (execute_memory ops space bus decoded pc a b).result
  unfolding execute_memory
  execute_memory-IsPrecise =
      rw plan
        (run_memory-IsPrecise ops decoded pc (add32 a decoded.immediate) space bus width is_load b)
