-- ===== src/Rv32/Mmu/Coherence.antt =====
-- core32/src/mmu.cpp: translation through the TLB, compared with the walk.
use risc_v_cpu_emulator.Prelude.{
  ℕ, ◌%◌, ◌^◌, ◌<◌, ◌≡◌, ◌⊎◌, refl, sym, ap, ◌∙◌, arith, false, Option, none, some, inl, inr,
  Bool-cases,
}
use risc_v_cpu_emulator.Words.{shr}
use risc_v_cpu_emulator.Common.Bus.{CpuBus}
use risc_v_cpu_emulator.Rv32.Types.{CpuSnapshot}
use risc_v_cpu_emulator.Rv32.Mmu.Walk.{
  MemoryAccessType, translated, megapage_shift, page_shift, root_table, is_bare, walk_address,
  translate_address,
}
use risc_v_cpu_emulator.Rv32.Mmu.Tlb.{Entry, Tlb, lookup, hit_result, translate}
use risc_v_cpu_emulator.Rv32.Mmu.Tables.{Leaf, AreReadable, walk_levels-Reaches}
use risc_v_cpu_emulator.Rv32.Mmu.Hits.{
  leaf_address_lem, lookup_hits, covers, IsBacked, IsCoherent, IsHit, way_hits-IsHit,
}

Option-cases : (o : Option ℕ) → (o ≡ none) ⊎ ((i : ℕ) × (o ≡ some i))
Option-cases none = inl refl
Option-cases (some i) = inr (i, refl)

backed :
    (state : CpuSnapshot) (tables : ℕ → ℕ) (va : ℕ) (access : MemoryAccessType) (entry : Entry)
    → IsHit state va access entry
    → (covers state va entry ≡ false) ⊎ IsBacked tables (root_table state) va entry
    → IsBacked tables (root_table state) va entry
backed state tables va access entry hit (inl e) = absurd (ground (arith, hit.covered, e))
backed state tables va access entry hit (inr b) = b

module _ {B : Type 0} (ops : CpuBus B) (bus : B) (tables : ℕ → ℕ) (state : CpuSnapshot) (va : ℕ)
    (access : MemoryAccessType) (reads : AreReadable ops bus tables va 2 (root_table state)) where
  hit_walks :
      (entry : Entry)
      → IsHit state va access entry
      → IsBacked tables (root_table state) va entry
      → ((walk_address ops bus state va access).bus ≡ bus)
        × ((walk_address ops bus state va access).result ≡ hit_result entry va)
  unfolding walk_address hit_result
  hit_walks entry hit b =
      let l : Leaf = b.backing in
      let walked =
        walk_levels-Reaches ops bus state va access l b.placed (rw (← b.same_pte) hit.allowed)
          (rw (← b.same_pte) hit.kept) tables 2 (root_table state) false reads b.found in
      (
        walked.0,
        walked.1
            ∙ rw (b.same_frame, b.same_shift)
                (ap translated (
                  leaf_address_lem (shr l.pte 10) va l.level (omega (arith, b.word_pte)) b.placed)),
      )

  -- Where the bus answers the reads that a walk for a word address makes, at most one in each of the two
  -- tables, with their entries and without a fault or a change, and every TLB entry agrees with those
  -- tables at every word address that it covers: the translation through the TLB gives the bus and the
  -- result of the walk without one, whether it hits or misses.
  pub translate-translate_address :
      (tlb : Tlb)
      → va < 2 ^ 32
      → IsCoherent tables state tlb
      → ((translate ops tlb bus state va access).bus
          ≡ (translate_address ops bus state va access).0)
        × ((translate ops tlb bus state va access).result
            ≡ (translate_address ops bus state va access).1)
  unfolding translate translate_address
  translate-translate_address tlb word coherent =
      let whole : va % 2 ^ 32 ≡ va = omega (arith, word) in
      let at_word : (i : ℕ)
          → (covers state va (tlb.entries i) ≡ false)
            ⊎ IsBacked tables (root_table state) va (tlb.entries i) =
        λ i. rw whole at (coherent i va) in
      elim (Bool-cases (is_bare state access)) [
        | inl bare ↦ rw bare (refl, refl)
        | inr mapped ↦ elim (Option-cases (lookup tlb state va access)) [
          | inl miss ↦ rw (mapped, miss) (refl, refl)
          | inr (i, found) ↦
              let hit : IsHit state va access (tlb.entries i) =
                elim (lookup_hits tlb state va access i found) [
                  | inl h ↦ way_hits-IsHit state va page_shift access (tlb.entries i) h
                  | inr h ↦ way_hits-IsHit state va megapage_shift access (tlb.entries i) h
                ] in
              let walked =
                hit_walks (tlb.entries i) hit (backed state tables va access _ hit (at_word i)) in
              rw (mapped, found) (sym walked.0, sym walked.1)
        ]
      ]
