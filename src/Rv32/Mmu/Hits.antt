-- ===== src/Rv32/Mmu/Hits.antt =====
-- What a TLB hit says of its entry, and when an entry agrees with the page tables.
use risc_v_cpu_emulator.Prelude.{
  ℕ, zero, suc, ◌+◌, ◌*◌, ◌/◌, ◌%◌, ◌^◌, ◌<◌, ◌≡◌, ◌⊎◌, refl, ap, ◌∙◌, arith, bit_and, bit_or, Bool,
  true, false, not, ◌&&◌, ◌||◌, ◌==◌, Option, none, some, inl, inr, Bool-cases,
}
use risc_v_cpu_emulator.Words.{shr, not32, has_bits}
use risc_v_cpu_emulator.Words.Bits.{bit_of, bit_of-lt, bit_and-bit_of, bit_or-bit_of}
use risc_v_cpu_emulator.Words.Fields.{
  bit_and-two_pow, bit_and-mask, bit_and_shifted, bit_or-eq-add, bit_of_ext_all,
}
use risc_v_cpu_emulator.Rv32.Types.{CpuSnapshot}
use risc_v_cpu_emulator.Rv32.Mmu.Walk.{
  MemoryAccessType, pte_accessed, pte_dirty, privilege_allows, effective_privilege, vpn, update_pte,
  leaf_address, leaf_shift, address_mask, megapage_shift, page_shift, root_table,
}
use risc_v_cpu_emulator.Rv32.Mmu.Tlb.{
  Entry, Tlb, asid_of, root_ppn_of, same_page, same_space, is_store, way_hits, first_way,
  find_in_set, or_else, lookup,
}
use risc_v_cpu_emulator.Rv32.Mmu.Tables.{Leaf, leaf_of, is_misplaced}

-- Setting a bit that is set changes nothing.
bit_or_set : (k a : ℕ) → has_bits a (2 ^ k) ≡ true → bit_or a (2 ^ k) ≡ a
bit_or_set k a h =
    let whole : bit_and a (2 ^ k) ≡ 2 ^ k = elim (Bool-cases (bit_of a k == 1)) [
      | inl e ↦
          let one : bit_of a k ≡ 1 = ground arith in bit_and-two_pow k a ∙ rw one (omega arith)
      | inr e ↦
          let none_set : bit_of a k ≡ 0 = ground (arith, bit_of-lt a k) in
          let empty : bit_and a (2 ^ k) ≡ 0 = bit_and-two_pow k a ∙ rw none_set (omega arith) in
          absurd (ground (arith, h, empty))
    ] in
    bit_of_ext_all _ _ λ j. omega (
      arith,
      bit_or-bit_of a (2 ^ k) j,
      bit_and-bit_of a (2 ^ k) j,
      ap (λ (x : ℕ). bit_of x j) whole,
    )

update_pte_set :
    (pte : ℕ) (access : MemoryAccessType)
    → has_bits pte pte_accessed ≡ true
    → (not (is_store access) || has_bits pte pte_dirty) ≡ true
    → update_pte pte access ≡ pte
unfolding update_pte is_store
update_pte_set pte MemoryAccessType.store a d = rw (bit_or_set 6 pte a) (bit_or_set 7 pte d)
update_pte_set pte MemoryAccessType.load a d = bit_or_set 6 pte a
update_pte_set pte MemoryAccessType.instruction_fetch a d = bit_or_set 6 pte a

-- The address of a leaf, as the frame and the offset in the page.
megapage_address :
    (ppn va : ℕ)
    → ppn < 2 ^ 22
    → has_bits ppn 0x3FF ≡ false
    → leaf_address ppn va 1 ≡ bit_or (ppn * 2 ^ 12) (bit_and va 0x3FFFFF)
unfolding leaf_address vpn
megapage_address ppn va small placed =
    let low : ppn % 2 ^ 10 ≡ 0 = ground (arith, placed, bit_and-mask 10 ppn) in
    let kept : bit_and ppn (not32 0x3FF) ≡ ppn =
      omega (arith, bit_and_shifted 10 ppn 4194303, bit_and-mask 22 (ppn / 2 ^ 10), low, small) in
    let index : bit_and (va / 2 ^ 12) 0x3FF ≡ va / 2 ^ 12 % 2 ^ 10 =
      bit_and-mask 10 (va / 2 ^ 12) in
    let offset : bit_and va 0xFFF ≡ va % 2 ^ 12 = bit_and-mask 12 va in
    let whole : bit_and va 0x3FFFFF ≡ va % 2 ^ 22 = bit_and-mask 22 va in
    let page : ℕ = va / 2 ^ 12 % 2 ^ 10 in
    rw (kept, index, offset, whole)
      (rw
        (
          bit_or-eq-add 22 (ppn * 2 ^ 12) (page * 2 ^ 12) (omega (arith, low)) (omega arith),
          bit_or-eq-add 12 (ppn * 2 ^ 12 + page * 2 ^ 12) (va % 2 ^ 12) (omega arith) (omega arith),
          bit_or-eq-add 22 (ppn * 2 ^ 12) (va % 2 ^ 22) (omega (arith, low)) (omega arith),
        )
        (omega arith))

base_address :
    (ppn va level : ℕ)
    → (level == 1) ≡ false
    → leaf_address ppn va level ≡ bit_or (ppn * 2 ^ 12) (bit_and va 0xFFF)
unfolding leaf_address
base_address ppn va level e = rw e refl

pub leaf_address_lem :
    (ppn va level : ℕ)
    → ppn < 2 ^ 22
    → (level == 1 && has_bits ppn 0x3FF) ≡ false
    → leaf_address ppn va level
      ≡ bit_or (ppn * 2 ^ 12) (bit_and va (address_mask (leaf_shift level)))
unfolding leaf_shift address_mask
leaf_address_lem ppn va level small placed = elim (Bool-cases (level == 1)) [
  | inl e ↦
      let one : level ≡ 1 = ground arith in
      rw one (megapage_address ppn va small (ground (arith, e, placed)))
  | inr e ↦ rw e (base_address ppn va level e)
]

first_way_passes :
    (entries : ℕ → Entry) (test : Entry → Bool) (n index i : ℕ)
    → first_way entries test n index ≡ some i
    → test (entries i) ≡ true
unfolding first_way
first_way_passes entries test zero index i h = absurd (cc)
first_way_passes entries test (suc n) index i h = elim (Bool-cases (test (entries index))) [
  | inl e ↦ let same : index ≡ i = ground (arith, h, e) in rw (← same) e
  | inr e ↦ first_way_passes entries test n (suc index) i (ground (arith, h, e))
]

or_else-cases : (x y : Option ℕ) (i : ℕ) → or_else x y ≡ some i → (x ≡ some i) ⊎ (y ≡ some i)
or_else-cases none y i h = inr h
or_else-cases (some j) y i h = inl h

-- An entry that `lookup` returns passes its test, at one of the two page sizes.
pub lookup_hits :
    (tlb : Tlb) (state : CpuSnapshot) (va : ℕ) (access : MemoryAccessType) (i : ℕ)
    → lookup tlb state va access ≡ some i
    → (way_hits state (shr va page_shift) access page_shift (tlb.entries i) ≡ true)
      ⊎ (way_hits state (shr va megapage_shift) access megapage_shift (tlb.entries i) ≡ true)
unfolding lookup find_in_set
lookup_hits tlb state va access i h =
    elim (or_else-cases (find_in_set tlb state va access page_shift)
      (find_in_set tlb state va access megapage_shift) i h) [
        | inl e ↦ inl (first_way_passes _ _ _ _ i e)
        | inr e ↦ inr (first_way_passes _ _ _ _ i e)
      ]

-- Whether a valid entry is for a page of this address, in the address space of the state.
unfoldable pub covers : CpuSnapshot → ℕ → Entry → Bool
covers state va entry =
    entry.valid
    && shr va entry.page_shift == entry.virtual_page
    && same_space entry (asid_of state) (root_ppn_of state)

-- The page tables at `root` map the address by the entry's own leaf.
pub record IsBacked (tables : ℕ → ℕ) (root va : ℕ) (entry : Entry) : Type 0 where
  pub backing : Leaf
  pub found : leaf_of tables 2 root va ≡ some backing
  pub placed : is_misplaced backing ≡ false
  pub word_pte : backing.pte < 2 ^ 32
  pub same_pte : entry.pte ≡ backing.pte
  pub same_shift : entry.page_shift ≡ leaf_shift backing.level
  pub same_frame : entry.physical_page ≡ shr backing.pte 10 * 2 ^ 12

-- Whatever word address an entry covers, the page tables map it so.
abbrev pub IsCoherent : (ℕ → ℕ) → CpuSnapshot → Tlb → Type 0
IsCoherent tables state tlb =
    (i va : ℕ)
    → (covers state (va % 2 ^ 32) (tlb.entries i) ≡ false)
      ⊎ IsBacked tables (root_table state) (va % 2 ^ 32) (tlb.entries i)

-- What a hit says of its entry.
pub record IsHit (state : CpuSnapshot) (va : ℕ) (access : MemoryAccessType) (entry : Entry)
    : Type 0 where
  pub covered : covers state va entry ≡ true
  pub allowed :
      privilege_allows entry.pte
        (effective_privilege state access)
        access
        state.machine_csrs.mstatus
      ≡ true
  pub kept : update_pte entry.pte access ≡ entry.pte

pub way_hits-IsHit :
    (state : CpuSnapshot) (va shift : ℕ) (access : MemoryAccessType) (entry : Entry)
    → way_hits state (shr va shift) access shift entry ≡ true
    → IsHit state va access entry
unfolding way_hits same_page covers
way_hits-IsHit state va shift access entry h =
    let same : entry.page_shift ≡ shift = ground (arith, h) in
    record {
      covered = rw same (ground (arith, h));
      allowed = ground (arith, h);
      kept = update_pte_set entry.pte access (ground (arith, h)) (ground (arith, h));
    }
