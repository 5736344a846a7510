-- ===== src/Rv32/Examples/Translation.antt =====
-- The theorems on translation at one megapage.
use risc_v_cpu_emulator.Prelude.{
  ℕ, ◌%◌, ◌^◌, ◌<◌, ◌≡◌, ◌⊎◌, refl, arith, bit_and, Bool, true, false, ◌==◌, if◌then◌else◌, inl,
  inr, Bool-cases, some, none,
}
use risc_v_cpu_emulator.Words.{shr}
use risc_v_cpu_emulator.Words.Fields.{bit_and-mask}
use risc_v_cpu_emulator.Rv32.Mmu.Walk.{
  MemoryAccessType, translate_address, root_table, vpn, pte_address_of, classify_pte, leaf_shift,
}
use risc_v_cpu_emulator.Rv32.Mmu.Tlb.{empty_entry, translate, sfence_vma}
use risc_v_cpu_emulator.Rv32.Csr.Access.{sanitize_satp}
use risc_v_cpu_emulator.Rv32.Mmu.Tables.{AreReadable, leaf_at, leaf_of, leaf_round}
use risc_v_cpu_emulator.Rv32.Mmu.Hits.{covers, IsBacked, IsCoherent}
use risc_v_cpu_emulator.Rv32.Mmu.Coherence.{translate-translate_address}
use risc_v_cpu_emulator.Rv32.Mmu.Fences.{IsConfined, sfence_vma-IsCoherent}
use risc_v_cpu_emulator.Rv32.Examples.Buses.{
  table_bus, tables, no_tables, paged_state, megapage, filled,
}

-- The index of an address of the megapage in the root table.
mapped :
    (va : ℕ)
    → shr va 22 ≡ 1
    → leaf_of tables 2 (root_table paged_state) va ≡ some (leaf_at 0x1000CF 1)
unfolding leaf_of leaf_round pte_address_of vpn classify_pte sanitize_satp
mapped va e = rw e refl

megapage-IsBacked : (va : ℕ) → shr va 22 ≡ 1 → IsBacked tables (root_table paged_state) va megapage
unfolding leaf_shift
megapage-IsBacked va e = record {
  backing = leaf_at 0x1000CF 1;
  found = mapped va e;
  placed = refl;
  word_pte = omega arith;
  same_pte = refl;
  same_shift = refl;
  same_frame = refl;
}

filled_entry :
    (va : ℕ) (b : Bool)
    → (covers paged_state va (if b then megapage else empty_entry) ≡ false)
      ⊎ IsBacked tables (root_table paged_state) va (if b then megapage else empty_entry)
unfolding covers
filled_entry va false = inl refl
filled_entry va true = elim (Bool-cases (shr va 22 == 1)) [
  | inl e ↦ inr (megapage-IsBacked va (ground (arith, e)))
  | inr e ↦ inl (ground (arith, e))
]

filled-IsCoherent : IsCoherent tables paged_state filled
filled-IsCoherent i va = filled_entry (va % 2 ^ 32) (i == 4)

-- Only the leaf in the root table is read.
readable : AreReadable table_bus tables tables 0x400123 2 (root_table paged_state)
unfolding AreReadable pte_address_of vpn classify_pte sanitize_satp
readable = (refl, λ e. cc)

load_megapage :
    ((translate table_bus filled tables paged_state 0x400123 MemoryAccessType.load).bus
      ≡ (translate_address table_bus tables paged_state 0x400123 MemoryAccessType.load).0)
    × ((translate table_bus filled tables paged_state 0x400123 MemoryAccessType.load).result
        ≡ (translate_address table_bus tables paged_state 0x400123 MemoryAccessType.load).1)
load_megapage =
    translate-translate_address table_bus tables tables paged_state 0x400123 MemoryAccessType.load
      readable filled (omega arith) filled-IsCoherent

-- The leaf is removed, and the address 0x400000 fenced.
unmapped : (va : ℕ) → leaf_of no_tables 2 (root_table paged_state) va ≡ none
unfolding leaf_of leaf_round pte_address_of vpn classify_pte sanitize_satp
unmapped va = refl

unmapped_entry :
    (va : ℕ)
    → va < 2 ^ 32
    → (shr va 22 == 1) ≡ false
    → tables (pte_address_of (root_table paged_state) va 1) ≡ 0
unfolding pte_address_of vpn sanitize_satp
unmapped_entry va word e =
    let index : bit_and (shr va 22) 0x3FF ≡ shr va 22 =
      omega (arith, bit_and-mask 10 (shr va 22), word) in
    rw index (ground (arith, e))

outside :
    (va : ℕ)
    → va < 2 ^ 32
    → (shr va 22 == 1) ≡ false
    → leaf_of tables 2 (root_table paged_state) va ≡ none
unfolding leaf_of leaf_round classify_pte
outside va word e = rw (unmapped_entry va word e) refl

removed : (va : ℕ) → IsConfined tables no_tables (root_table paged_state) 0x400000 (va % 2 ^ 32)
unfolding leaf_shift
removed va = elim (Bool-cases (shr (va % 2 ^ 32) 22 == 1)) [
  | inl e ↦ inr (leaf_at 0x1000CF 1, mapped (va % 2 ^ 32) (ground (arith, e)), ground (arith, e))
  | inr e ↦ inl (rw (unmapped (va % 2 ^ 32), outside (va % 2 ^ 32) (omega arith) e) refl)
]

fence_megapage : IsCoherent no_tables paged_state (sfence_vma filled (some 0x400000) none)
fence_megapage =
    sfence_vma-IsCoherent paged_state filled tables no_tables 0x400000 removed filled-IsCoherent
