-- ===== src/Rv32/Execute/MemoryAlignment.antt =====
-- core32/src/execute.cpp: the alignment of the loads and stores of `execute_memory`.
use risc_v_cpu_emulator.Prelude.{ℕ, ◌-◌, ◌%◌, ◌≡◌, ◌≢◌, ◌⊎◌, Bool, true, false}
use risc_v_cpu_emulator.Words.{has_bits}
use risc_v_cpu_emulator.Common.Bus.{AccessWidth, width_bytes, BusFault}
use risc_v_cpu_emulator.Rv32.Mmu.Space.{AddressSpace}
use risc_v_cpu_emulator.Rv32.Execute.Memory.{MemoryStatus, MemoryResult, MemoryOutcome}

-- `LoadAddressMisaligned` or `StoreAddressMisaligned`.
abbrev pub misaligned : Bool → MemoryStatus
misaligned true = MemoryStatus.load_address_misaligned
misaligned false = MemoryStatus.store_address_misaligned

-- Such a status comes from the bus only.
abbrev pub IsFromBus : Bool → MemoryResult → Type 0
IsFromBus is_load result =
    (result.status ≢ misaligned is_load) ⊎ (result.bus_fault ≡ BusFault.misaligned)

-- Where the width does not divide the address, the bus and the address space are as before, and the
-- result is misaligned; where it does, only a bus that reports a misaligned access makes it so.
abbrev pub IsByAlignment :
    {B : Type 0} → AddressSpace → B → (address : ℕ) → AccessWidth → Bool → MemoryOutcome B → Type 0
IsByAlignment space bus address width is_load outcome =
    ((address % width_bytes width ≢ 0)
      × (outcome.bus ≡ bus)
      × (outcome.space ≡ space)
      × (outcome.result.status ≡ misaligned is_load)
      × (outcome.result.bus_fault ≡ BusFault.misaligned)
      × (outcome.result.trap_value ≡ address))
    ⊎ ((address % width_bytes width ≡ 0) × IsFromBus is_load outcome.result)

-- The test for alignment, as divisibility.
abbrev IsTested : ℕ → ℕ → Type 0
IsTested address bytes =
    ((has_bits address (bytes - 1) ≡ true) × (address % bytes ≢ 0))
    ⊎ ((has_bits address (bytes - 1) ≡ false) × (address % bytes ≡ 0))
