-- ===== src/Rv32/Mmu/Fences.antt =====
-- core32/src/mmu.cpp: SFENCE.VMA and page tables that have changed.
use risc_v_cpu_emulator.Prelude.{
  ℕ, ◌%◌, ◌^◌, ◌≡◌, ◌⊎◌, refl, sym, ap, ◌∙◌, arith, true, false, ◌&&◌, Option, none, some, inl, inr,
  Bool-cases,
}
use risc_v_cpu_emulator.Words.{shr}
use risc_v_cpu_emulator.Rv32.Types.{CpuSnapshot}
use risc_v_cpu_emulator.Rv32.Mmu.Walk.{leaf_shift, root_table}
use risc_v_cpu_emulator.Rv32.Mmu.Tlb.{
  Entry, Tlb, fence_asid, fence_address, fence_entry, sfence_vma,
}
use risc_v_cpu_emulator.Rv32.Mmu.Tables.{Leaf, leaf_of}
use risc_v_cpu_emulator.Rv32.Mmu.Hits.{covers, IsBacked, IsCoherent}

-- The new tables map an address as the old ones do, or the old leaf's page holds the fenced address.
abbrev pub IsConfined : (old new : ℕ → ℕ) → (root fenced va : ℕ) → Type 0
IsConfined old new root fenced va =
    (leaf_of new 2 root va ≡ leaf_of old 2 root va)
    ⊎ ((l : Leaf) × (leaf_of old 2 root va ≡ some l)
        × (shr va (leaf_shift l.level) ≡ shr fenced (leaf_shift l.level)))

some_injective : {A : Type 0} {x y : A} → some x ≡ some y → x ≡ y
some_injective e = cc

dropped :
    (state : CpuSnapshot) (va : ℕ) (entry : Entry) (address asid : Option ℕ)
    → (fence_asid asid entry && fence_address address entry) ≡ true
    → covers state va (fence_entry address asid entry) ≡ false
unfolding covers fence_entry
dropped state va entry address asid h = rw h refl

module _ (state : CpuSnapshot) (tlb : Tlb) (old new : ℕ → ℕ) where
  -- An entry that the fence leaves stays backed.
  survivor :
      (fenced va : ℕ) (entry : Entry)
      → covers state va entry ≡ true
      → fence_address (some fenced) entry ≡ false
      → IsConfined old new (root_table state) fenced va
      → IsBacked old (root_table state) va entry
      → IsBacked new (root_table state) va entry
  unfolding covers fence_address
  survivor fenced va entry covered kept (inl same) b = record {
    backing = b.backing;
    found = same ∙ b.found;
    placed = b.placed;
    word_pte = b.word_pte;
    same_pte = b.same_pte;
    same_shift = b.same_shift;
    same_frame = b.same_frame;
  }
  survivor fenced va entry covered kept (inr (l, found, held)) b =
      let leaves : l ≡ b.backing = some_injective (sym found ∙ b.found) in
      let shift : leaf_shift l.level ≡ entry.page_shift =
        ap (λ (x : Leaf). leaf_shift x.level) leaves ∙ sym b.same_shift in
      let in_page : shr va entry.page_shift ≡ shr fenced entry.page_shift = rw (← shift) held in
      absurd (ground (arith, covered, kept, in_page))

  fenced_entry :
      (fenced va : ℕ) (entry : Entry)
      → IsConfined old new (root_table state) fenced va
      → (covers state va entry ≡ false) ⊎ IsBacked old (root_table state) va entry
      → (covers state va (fence_entry (some fenced) none entry) ≡ false)
        ⊎ IsBacked new (root_table state) va (fence_entry (some fenced) none entry)
  unfolding fence_entry fence_asid
  fenced_entry fenced va entry confined (inl e) =
      elim (Bool-cases (fence_address (some fenced) entry)) [
        | inl f ↦ inl (dropped state va entry (some fenced) none f)
        | inr f ↦ rw f (inl e)
      ]
  fenced_entry fenced va entry confined (inr b) =
      elim (Bool-cases (fence_address (some fenced) entry)) [
        | inl f ↦ inl (dropped state va entry (some fenced) none f)
        | inr f ↦ elim (Bool-cases (covers state va entry)) [
          | inl c ↦ rw f (inr (survivor fenced va entry c f confined b))
          | inr c ↦ rw f (inl c)
        ]
      ]

  -- Where the TLB agrees with the old page tables, and these differ from the new ones only at pages that
  -- hold the fenced address, the TLB after SFENCE.VMA with that address alone agrees with the new
  -- ones: superpages included.
  pub sfence_vma-IsCoherent :
      (fenced : ℕ)
      → ((va : ℕ) → IsConfined old new (root_table state) fenced (va % 2 ^ 32))
      → IsCoherent old state tlb
      → IsCoherent new state (sfence_vma tlb (some fenced) none)
  unfolding sfence_vma
  sfence_vma-IsCoherent fenced confined coherent i va =
      fenced_entry fenced (va % 2 ^ 32) (tlb.entries i) (confined va) (coherent i va)

  -- A fence without operands agrees with any page tables.
  pub sfence_vma_all-IsCoherent : IsCoherent new state (sfence_vma tlb none none)
  unfolding sfence_vma fence_asid fence_address
  sfence_vma_all-IsCoherent i va = inl (dropped state (va % 2 ^ 32) (tlb.entries i) none none refl)
