-- ===== src/Rv32/Mmu/Space.antt =====
-- core32/src/execute.cpp and frontend.cpp: the choice of a translation, by the pointers that the
-- caller passes: no state, a state alone, or a state and a TLB.
use risc_v_cpu_emulator.Prelude.{ℕ}
use risc_v_cpu_emulator.Common.Bus.{CpuBus}
use risc_v_cpu_emulator.Rv32.Types.{CpuSnapshot}
use risc_v_cpu_emulator.Rv32.Mmu.Walk.{
  MemoryAccessType, TranslationResult, translated, translate_address,
}
use risc_v_cpu_emulator.Rv32.Mmu.Tlb.{Tlb, translate}

pub data AddressSpace : Type 0 where
  physical : AddressSpace
  walked : CpuSnapshot → AddressSpace
  cached : CpuSnapshot → Tlb → AddressSpace

-- The bus and the space after a translation, and its result.
pub record Located (B : Type 0) : Type 0 where
  pub bus : B
  pub space : AddressSpace
  pub translation : TranslationResult

module _ {B : Type 0} (ops : CpuBus B) where
  unfoldable pub locate : AddressSpace → B → ℕ → MemoryAccessType → Located B
  locate physical bus address access = record {
    bus = bus;
    space = physical;
    translation = translated address;
  }
  locate (walked state) bus address access =
      let found = translate_address ops bus state address access in
      record { bus = found.0; space = walked state; translation = found.1 }
  locate (cached state tlb) bus address access =
      let found = translate ops tlb bus state address access in
      record { bus = found.bus; space = cached state found.tlb; translation = found.result }
