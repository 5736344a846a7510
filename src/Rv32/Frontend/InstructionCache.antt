-- ===== src/Rv32/Frontend/InstructionCache.antt =====
-- core32/src/frontend.cpp: `InstructionCache`, keyed by the virtual PC, `satp` and the mode, with
-- epochs that SFENCE.VMA advances. The arrays are functions of the index.
use risc_v_cpu_emulator.Prelude.{
  ℕ, ◌+◌, ◌*◌, ◌%◌, ◌^◌, bit_and, bit_xor, Bool, ◌&&◌, ◌==◌, if◌then◌else◌, Option, none, some,
}
use risc_v_cpu_emulator.Words.{shr}
use risc_v_cpu_emulator.Rv32.Types.{PrivilegeMode, privilege_value, CpuSnapshot, DecodedInstruction}
use risc_v_cpu_emulator.Rv32.Csr.Access.{sanitize_satp}
use risc_v_cpu_emulator.Rv32.Mmu.Walk.{satp_asid}
use risc_v_cpu_emulator.Rv32.Mmu.Tlb.{update}
use risc_v_cpu_emulator.Rv32.Frontend.DecodeCache.{default_decoded}

pub record CachedInstruction : Type 0 where
  pub instruction : ℕ
  pub decoded : DecodedInstruction

pub record Entry : Type 0 where
  pub generation : ℕ
  pub virtual_address : ℕ
  pub satp : ℕ
  pub privilege : PrivilegeMode
  pub asid_epoch : ℕ
  pub page_epoch : ℕ
  pub asid_page_epoch : ℕ
  pub instruction : CachedInstruction

abbrev pub empty_entry : Entry
empty_entry = record {
  generation = 0;
  virtual_address = 0;
  satp = 0;
  privilege = PrivilegeMode.machine;
  asid_epoch = 0;
  page_epoch = 0;
  asid_page_epoch = 0;
  instruction = record { instruction = 0; decoded = default_decoded };
}

pub record InstructionCache : Type 0 where
  pub entries : ℕ → Entry
  pub asid_epochs : ℕ → ℕ
  pub page_epochs : ℕ → ℕ
  pub asid_page_epochs : ℕ → ℕ
  pub generation : ℕ

abbrev pub cleared_cache : ℕ → InstructionCache
cleared_cache generation = record {
  entries = λ _. empty_entry;
  asid_epochs = λ _. 0;
  page_epochs = λ _. 0;
  asid_page_epochs = λ _. 0;
  generation = generation;
}

unfoldable pub instruction_asid : ℕ → ℕ
instruction_asid satp = shr (bit_and satp satp_asid) 22

unfoldable pub page_epoch_index : ℕ → ℕ
page_epoch_index virtual_address =
    let page = shr virtual_address 12 in bit_xor page (shr page 12) % 1024

unfoldable pub asid_page_epoch_index : ℕ → ℕ → ℕ
asid_page_epoch_index virtual_address asid =
    let page = shr virtual_address 12 in
    bit_xor (bit_xor page (shr page 12)) (asid * 0x9E37 % 2 ^ 32) % 1024

-- `satp` and the mode of the state, or their values where there is none.
unfoldable pub cache_satp : Option CpuSnapshot → ℕ
cache_satp none = 0
cache_satp (some state) = sanitize_satp state.supervisor_csrs.satp

unfoldable pub cache_privilege : Option CpuSnapshot → PrivilegeMode
cache_privilege none = PrivilegeMode.machine
cache_privilege (some state) = state.privilege

unfoldable pub cache_index : ℕ → ℕ → PrivilegeMode → ℕ
cache_index virtual_address satp privilege =
    bit_xor
      (bit_xor (bit_xor (bit_xor (shr virtual_address 1) (shr virtual_address 13)) satp)
        (shr satp 11))
      (privilege_value privilege)
    % 4096

-- The entry that `insert` writes.
unfoldable pub fresh_entry : InstructionCache → ℕ → ℕ → PrivilegeMode → CachedInstruction → Entry
fresh_entry cache virtual_address satp privilege instruction =
    let asid = instruction_asid satp in
    record {
      generation = cache.generation;
      virtual_address = virtual_address;
      satp = satp;
      privilege = privilege;
      asid_epoch = cache.asid_epochs asid;
      page_epoch = cache.page_epochs (page_epoch_index virtual_address);
      asid_page_epoch = cache.asid_page_epochs (asid_page_epoch_index virtual_address asid);
      instruction = instruction;
    }

-- The test of `lookup`.
unfoldable pub entry_matches : InstructionCache → ℕ → ℕ → PrivilegeMode → Entry → Bool
entry_matches cache virtual_address satp privilege entry =
    let asid = instruction_asid satp in
    entry.generation == cache.generation
    && entry.virtual_address == virtual_address
    && entry.satp == satp
    && privilege_value entry.privilege == privilege_value privilege
    && entry.asid_epoch == cache.asid_epochs asid
    && entry.page_epoch == cache.page_epochs (page_epoch_index virtual_address)
    && entry.asid_page_epoch == cache.asid_page_epochs (asid_page_epoch_index virtual_address asid)

unfoldable pub lookup : InstructionCache → ℕ → Option CpuSnapshot → Option CachedInstruction
lookup cache virtual_address state =
    let satp = cache_satp state in
    let privilege = cache_privilege state in
    let entry = cache.entries (cache_index virtual_address satp privilege) in
    if entry_matches cache virtual_address satp privilege entry
    then some entry.instruction
    else none

unfoldable pub insert :
    InstructionCache → ℕ → Option CpuSnapshot → CachedInstruction → InstructionCache
insert cache virtual_address state instruction =
    let satp = cache_satp state in
    let privilege = cache_privilege state in
    record cache {
      entries =
          update cache.entries (cache_index virtual_address satp privilege)
            (fresh_entry cache virtual_address satp privilege instruction);
    }

unfoldable pub clear : InstructionCache → InstructionCache
clear cache =
    let generation = (cache.generation + 1) % 2 ^ 64 in
    if generation == 0 then cleared_cache 1 else record cache { generation = generation }

abbrev pub advance : (ℕ → ℕ) → ℕ → ℕ → ℕ
advance epochs index = update epochs index ((epochs index + 1) % 2 ^ 64)

unfoldable pub sfence_vma : InstructionCache → Option ℕ → Option ℕ → InstructionCache
sfence_vma cache none none = clear cache
sfence_vma cache (some virtual_address) (some asid) = record cache {
  asid_page_epochs = advance cache.asid_page_epochs (asid_page_epoch_index virtual_address asid);
}
sfence_vma cache (some virtual_address) none = record cache {
  page_epochs = advance cache.page_epochs (page_epoch_index virtual_address);
}
sfence_vma cache none (some asid) = record cache { asid_epochs = advance cache.asid_epochs asid }
