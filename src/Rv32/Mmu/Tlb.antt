-- ===== src/Rv32/Mmu/Tlb.antt =====
-- core32/src/mmu.cpp: `Sv32Tlb`, 16 sets of 4 ways. An array is a function of its index; the indices
-- that the operations form are in range.
use risc_v_cpu_emulator.Prelude.{
  ℕ, zero, suc, ◌+◌, ◌-◌, ◌*◌, ◌%◌, ◌^◌, bit_and, bit_or, bit_xor, Bool, true, false, not, ◌&&◌,
  ◌||◌, ◌==◌, if◌then◌else◌, Option, none, some,
}
use risc_v_cpu_emulator.Words.{shr, has_bits}
use risc_v_cpu_emulator.Common.Bus.{CpuBus}
use risc_v_cpu_emulator.Rv32.Types.{CpuSnapshot}
use risc_v_cpu_emulator.Rv32.Csr.Access.{sanitize_satp}
use risc_v_cpu_emulator.Rv32.Mmu.Walk.{
  MemoryAccessType, TranslationResult, translated, is_ready, satp_asid, satp_ppn, pte_accessed,
  pte_dirty, page_shift, megapage_shift, privilege_allows, address_mask, effective_privilege,
  walk_address, is_bare,
}

pub record Entry : Type 0 where
  pub valid : Bool
  pub global : Bool
  pub page_shift : ℕ
  pub asid : ℕ
  pub root_ppn : ℕ
  pub virtual_page : ℕ
  pub physical_page : ℕ
  pub pte : ℕ

abbrev pub empty_entry : Entry
empty_entry = record {
  valid = false;
  global = false;
  page_shift = 0;
  asid = 0;
  root_ppn = 0;
  virtual_page = 0;
  physical_page = 0;
  pte = 0;
}

pub record Tlb : Type 0 where
  pub entries : ℕ → Entry
  pub replacement_ways : ℕ → ℕ

abbrev pub ways : ℕ
ways = 4

abbrev pub set_count : ℕ
set_count = 16

abbrev pub asid_of : CpuSnapshot → ℕ
asid_of state = shr (bit_and (sanitize_satp state.supervisor_csrs.satp) satp_asid) 22

abbrev pub root_ppn_of : CpuSnapshot → ℕ
root_ppn_of state = bit_and (sanitize_satp state.supervisor_csrs.satp) satp_ppn

unfoldable pub set_of : ℕ → ℕ
set_of virtual_page =
    bit_xor (bit_xor virtual_page (shr virtual_page 6)) (shr virtual_page 12) % set_count

-- The tests of one way in `lookup`: the tag, the address space, the permission, A and D.
unfoldable pub same_page : Entry → ℕ → ℕ → Bool
same_page entry leaf_page_shift virtual_page =
    entry.page_shift == leaf_page_shift && virtual_page == entry.virtual_page

unfoldable pub same_space : Entry → ℕ → ℕ → Bool
same_space entry asid root_ppn = entry.global || entry.asid == asid && entry.root_ppn == root_ppn

unfoldable pub is_store : MemoryAccessType → Bool
is_store MemoryAccessType.store = true
is_store _ = false

unfoldable pub way_hits : CpuSnapshot → (virtual_page : ℕ) → MemoryAccessType → ℕ → Entry → Bool
way_hits state virtual_page access leaf_page_shift entry =
    entry.valid
    && same_page entry leaf_page_shift virtual_page
    && same_space entry (asid_of state) (root_ppn_of state)
    && privilege_allows entry.pte (effective_privilege state access) access
        state.machine_csrs.mstatus
    && has_bits entry.pte pte_accessed
    && (not (is_store access) || has_bits entry.pte pte_dirty)

-- The loop over the ways from `index`: the first that passes the test, of `n`.
unfoldable pub first_way : (ℕ → Entry) → (Entry → Bool) → (n index : ℕ) → Option ℕ
first_way entries test zero index = none
first_way entries test (suc n) index =
    let later = first_way entries test n (suc index) in
    if test (entries index) then some index else later

unfoldable pub find_in_set : Tlb → CpuSnapshot → ℕ → MemoryAccessType → ℕ → Option ℕ
find_in_set tlb state virtual_address access leaf_page_shift =
    let virtual_page = shr virtual_address leaf_page_shift in
    first_way tlb.entries (way_hits state virtual_page access leaf_page_shift) ways
      (set_of virtual_page * ways)

abbrev pub or_else : Option ℕ → Option ℕ → Option ℕ
or_else (some i) other = some i
or_else none other = other

-- The index of the entry, where there is one.
unfoldable pub lookup : Tlb → CpuSnapshot → ℕ → MemoryAccessType → Option ℕ
lookup tlb state virtual_address access =
    or_else (find_in_set tlb state virtual_address access page_shift)
      (find_in_set tlb state virtual_address access megapage_shift)

abbrev pub update {ℓ} : {A : Type ℓ} → (ℕ → A) → ℕ → A → ℕ → A
update f i a j = if j == i then a else f j

abbrev pub same_flag : Bool → Bool → Bool
same_flag true b = b
same_flag false b = not b

-- A way that an insertion may take without a replacement.
unfoldable pub takes_slot :
    (global : Bool) → (asid root_ppn virtual_page leaf_page_shift : ℕ) → Entry → Bool
takes_slot global asid root_ppn virtual_page leaf_page_shift candidate =
    not candidate.valid
    || candidate.page_shift == leaf_page_shift
      && candidate.virtual_page == virtual_page
      && same_flag candidate.global global
      && (global || candidate.asid == asid && candidate.root_ppn == root_ppn)

-- `physical_address & ~mask` for a mask of the low bits.
unfoldable pub page_base : ℕ → ℕ → ℕ
page_base physical_address leaf_page_shift =
    bit_and physical_address (2 ^ 64 - 1 - address_mask leaf_page_shift)

unfoldable pub new_entry :
    CpuSnapshot → (virtual_address physical_address pte leaf_page_shift : ℕ) → Bool → Entry
new_entry state virtual_address physical_address pte leaf_page_shift global = record {
  valid = true;
  global = global;
  page_shift = leaf_page_shift;
  asid = asid_of state;
  root_ppn = root_ppn_of state;
  virtual_page = shr virtual_address leaf_page_shift;
  physical_page = page_base physical_address leaf_page_shift;
  pte = pte;
}

unfoldable pub insert :
    Tlb → CpuSnapshot → (virtual_address physical_address pte leaf_page_shift : ℕ) → Bool → Tlb
insert tlb state virtual_address physical_address pte leaf_page_shift global =
    let virtual_page = shr virtual_address leaf_page_shift in
    let set = set_of virtual_page in
    let first = set * ways in
    let entry = new_entry state virtual_address physical_address pte leaf_page_shift global in
    let replacement = tlb.replacement_ways set % ways in
    elim (first_way tlb.entries
      (takes_slot global (asid_of state) (root_ppn_of state) virtual_page leaf_page_shift) ways
      first) [
        | some index ↦ record tlb { entries = update tlb.entries index entry }
        | none ↦ record {
          entries = update tlb.entries (first + replacement) entry;
          replacement_ways = update tlb.replacement_ways set ((replacement + 1) % ways);
        }
      ]

-- What a translation returns: the bus and the TLB after it, and the result.
pub record Translated (B : Type 0) : Type 0 where
  pub bus : B
  pub tlb : Tlb
  pub result : TranslationResult

unfoldable pub hit_result : Entry → ℕ → TranslationResult
hit_result entry virtual_address =
    translated
      (bit_or entry.physical_page (bit_and virtual_address (address_mask entry.page_shift)))

module _ {B : Type 0} (ops : CpuBus B) where
  unfoldable pub translate : Tlb → B → CpuSnapshot → ℕ → MemoryAccessType → Translated B
  translate tlb bus state virtual_address access =
      let walked = walk_address ops bus state virtual_address access in
      if is_bare state access
      then record { bus = bus; tlb = tlb; result = translated virtual_address }
      else elim (lookup tlb state virtual_address access) [
        | some index ↦ record {
          bus = bus;
          tlb = tlb;
          result = hit_result (tlb.entries index) virtual_address;
        }
        | none ↦ record {
          bus = walked.bus;
          tlb =
              (if is_ready walked.result
                then insert tlb state virtual_address walked.result.physical_address
                    walked.metadata.pte walked.metadata.page_shift walked.metadata.global
                else tlb);
          result = walked.result;
        }
      ]

unfoldable pub clear : Tlb
clear = record { entries = λ _. empty_entry; replacement_ways = λ _. 0 }

-- Whether SFENCE.VMA with these operands drops an entry.
unfoldable pub fence_asid : Option ℕ → Entry → Bool
fence_asid none entry = true
fence_asid (some asid) entry = not entry.global && entry.asid == asid

unfoldable pub fence_address : Option ℕ → Entry → Bool
fence_address none entry = true
fence_address (some virtual_address) entry =
    shr virtual_address entry.page_shift == entry.virtual_page

unfoldable pub fence_entry : Option ℕ → Option ℕ → Entry → Entry
fence_entry virtual_address asid entry =
    if fence_asid asid entry && fence_address virtual_address entry
    then record entry { valid = false }
    else entry

unfoldable pub sfence_vma : Tlb → Option ℕ → Option ℕ → Tlb
sfence_vma tlb virtual_address asid = record tlb {
  entries = λ i. fence_entry virtual_address asid (tlb.entries i);
}
