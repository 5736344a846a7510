-- ===== src/Rv32/Frontend/Epochs.antt =====
-- core32/src/frontend.cpp: SFENCE.VMA and the lines of the instruction cache.
use risc_v_cpu_emulator.Prelude.{ℕ, ◌-◌, ◌^◌, ◌<◌, ◌≡◌, ◌≢◌, arith, Option, none, some}
use risc_v_cpu_emulator.Rv32.Types.{CpuSnapshot}
use risc_v_cpu_emulator.Rv32.Frontend.InstructionCache.{
  InstructionCache, CachedInstruction, lookup, insert, sfence_vma, entry_matches, fresh_entry,
  cache_satp, page_epoch_index, asid_page_epoch_index, instruction_asid,
}

module _ (cache : InstructionCache) (va : ℕ) (state : Option CpuSnapshot)
    (line : CachedInstruction) where
  -- What was inserted last for an address, an address space and a mode is what a lookup finds.
  pub lookup-insert : lookup (insert cache va state line) va state ≡ some line
  unfolding lookup insert entry_matches fresh_entry
  lookup-insert = ground arith

  -- SFENCE.VMA with that address, or with the address space of the line, or with both, hides the line,
  -- as long as the epoch that it advances has not reached its last value.
  pub lookup-sfence_vma-insert :
      cache.page_epochs (page_epoch_index va) < 2 ^ 64 - 1
      → cache.asid_epochs (instruction_asid (cache_satp state)) < 2 ^ 64 - 1
      → cache.asid_page_epochs (asid_page_epoch_index va (instruction_asid (cache_satp state)))
        < 2 ^ 64 - 1
      → (lookup (sfence_vma (insert cache va state line) (some va) none) va state ≡ none)
        × (lookup
              (sfence_vma
                (insert cache va state line)
                none
                (some (instruction_asid (cache_satp state))))
              va
              state
            ≡ none)
        × (lookup
              (sfence_vma
                (insert cache va state line)
                (some va)
                (some (instruction_asid (cache_satp state))))
              va
              state
            ≡ none)
  unfolding lookup insert sfence_vma entry_matches fresh_entry
  lookup-sfence_vma-insert p q r = (ground arith, ground arith, ground arith)

-- SFENCE.VMA with an address alone leaves what a lookup finds at an address of another page, where the
-- two pages have different epochs: also where one superpage holds both addresses.
pub lookup-sfence_vma_other :
    (cache : InstructionCache) (va fenced : ℕ) (state : Option CpuSnapshot)
    → page_epoch_index va ≢ page_epoch_index fenced
    → lookup (sfence_vma cache (some fenced) none) va state ≡ lookup cache va state
unfolding lookup sfence_vma entry_matches
lookup-sfence_vma_other cache va fenced state h = ground (arith, h)
