-- ===== src/Rv32/Mmu/Walk.antt =====
-- core32/src/mmu.cpp: permissions, `walk_address` and `translate_address`. The performance counters,
-- which no result depends on, are left out.
use risc_v_cpu_emulator.Prelude.{
  ℕ, zero, suc, ◌+◌, ◌*◌, ◌%◌, ◌^◌, bit_and, bit_or, Bool, true, false, not, ◌&&◌, ◌||◌, ◌==◌,
  if◌then◌else◌,
}
use risc_v_cpu_emulator.Words.{shr, not32, has_bits}
use risc_v_cpu_emulator.Common.Bus.{AccessWidth, AccessKind, BusFault, ReadResult, is_none, CpuBus}
use risc_v_cpu_emulator.Rv32.Types.{PrivilegeMode, CpuSnapshot}
use risc_v_cpu_emulator.Rv32.Csr.Bits.{status_mpp, status_mprv, status_sum, status_mxr, satp_mode}
use risc_v_cpu_emulator.Rv32.Csr.Access.{is_machine, sanitize_mstatus, sanitize_satp}

pub data MemoryAccessType : Type 0 where
  instruction_fetch load store : MemoryAccessType

pub data TranslationStatus : Type 0 where
  ready page_fault access_fault : TranslationStatus

pub record TranslationResult : Type 0 where
  pub status : TranslationStatus
  pub physical_address : ℕ
  pub bus_fault : BusFault

abbrev pub translated : ℕ → TranslationResult
translated physical_address = record {
  status = TranslationStatus.ready;
  physical_address = physical_address;
  bus_fault = BusFault.no_fault;
}

abbrev pub page_faulted : TranslationResult
page_faulted = record {
  status = TranslationStatus.page_fault;
  physical_address = 0;
  bus_fault = BusFault.no_fault;
}

abbrev pub access_faulted : BusFault → TranslationResult
access_faulted fault = record {
  status = TranslationStatus.access_fault;
  physical_address = 0;
  bus_fault = fault;
}

-- `result.ready()`.
abbrev pub is_ready : TranslationResult → Bool
is_ready result = elim result.status [
  | TranslationStatus.ready ↦ true
  | TranslationStatus.page_fault ↦ false
  | TranslationStatus.access_fault ↦ false
]

-- `sv32_pte_bits`, and `satp_bits`.
abbrev pub pte_valid : ℕ
pte_valid = 0x1

abbrev pub pte_read : ℕ
pte_read = 0x2

abbrev pub pte_write : ℕ
pte_write = 0x4

abbrev pub pte_execute : ℕ
pte_execute = 0x8

abbrev pub pte_user : ℕ
pte_user = 0x10

abbrev pub pte_global : ℕ
pte_global = 0x20

abbrev pub pte_accessed : ℕ
pte_accessed = 0x40

abbrev pub pte_dirty : ℕ
pte_dirty = 0x80

abbrev pub satp_asid : ℕ
satp_asid = 0x7FC00000

abbrev pub satp_ppn : ℕ
satp_ppn = 0x3FFFFF

pub record WalkMetadata : Type 0 where
  pub pte : ℕ
  pub page_shift : ℕ
  pub global : Bool

abbrev pub page_shift : ℕ
page_shift = 12

abbrev pub megapage_shift : ℕ
megapage_shift = 22

-- The first part refuses pages of the other mode, the switch tests the kind of access.
unfoldable pub mode_allows : ℕ → PrivilegeMode → MemoryAccessType → ℕ → Bool
mode_allows pte PrivilegeMode.user access mstatus = has_bits pte pte_user
mode_allows pte PrivilegeMode.supervisor MemoryAccessType.instruction_fetch mstatus =
    not (has_bits pte pte_user)
mode_allows pte PrivilegeMode.supervisor _ mstatus =
    not (has_bits pte pte_user) || has_bits mstatus status_sum
mode_allows pte _ access mstatus = true

unfoldable pub access_allows : ℕ → MemoryAccessType → ℕ → Bool
access_allows pte MemoryAccessType.instruction_fetch mstatus = has_bits pte pte_execute
access_allows pte MemoryAccessType.load mstatus =
    has_bits pte pte_read || has_bits mstatus status_mxr && has_bits pte pte_execute
access_allows pte MemoryAccessType.store mstatus = has_bits pte pte_write

unfoldable pub privilege_allows : ℕ → PrivilegeMode → MemoryAccessType → ℕ → Bool
privilege_allows pte privilege access mstatus =
    mode_allows pte privilege access mstatus && access_allows pte access mstatus

unfoldable pub address_mask : ℕ → ℕ
address_mask shift = if shift == megapage_shift then 0x3FFFFF else 0xFFF

unfoldable pub encoded_privilege : ℕ → PrivilegeMode
encoded_privilege encoded =
    if encoded == 0
    then PrivilegeMode.user
    else if encoded == 1
    then PrivilegeMode.supervisor
    else if encoded == 3
    then PrivilegeMode.machine
    else PrivilegeMode.user

unfoldable pub effective_privilege : CpuSnapshot → MemoryAccessType → PrivilegeMode
effective_privilege state MemoryAccessType.instruction_fetch = state.privilege
effective_privilege state _ =
    let mstatus = sanitize_mstatus state.machine_csrs.mstatus in
    if not (has_bits mstatus status_mprv)
    then state.privilege
    else encoded_privilege (shr (bit_and mstatus status_mpp) 11)

-- The indices into the two tables, by level.
unfoldable pub vpn : ℕ → ℕ → ℕ
vpn virtual_address level =
    if level == 0
    then bit_and (shr virtual_address 12) 0x3FF
    else bit_and (shr virtual_address 22) 0x3FF

unfoldable pub pte_address_of : ℕ → ℕ → ℕ → ℕ
pte_address_of table_address virtual_address level = table_address + vpn virtual_address level * 4

-- What the loop makes of an entry: a fault, the next table, or a leaf.
pub data PteClass : Type 0 where
  faulty pointer leaf : PteClass

unfoldable pub classify_pte : ℕ → ℕ → PteClass
classify_pte pte level =
    if not (has_bits pte pte_valid) || not (has_bits pte pte_read) && has_bits pte pte_write
    then faulty
    else if not (has_bits pte pte_read) && not (has_bits pte pte_execute)
    then (if has_bits pte (bit_or (bit_or pte_user pte_accessed) pte_dirty) || level == 0
        then faulty
        else pointer)
    else leaf

unfoldable pub update_pte : ℕ → MemoryAccessType → ℕ
update_pte pte MemoryAccessType.store = bit_or (bit_or pte pte_accessed) pte_dirty
update_pte pte _ = bit_or pte pte_accessed

-- The address that a leaf at a level gives, from the page number of the entry before its update.
unfoldable pub leaf_address : ℕ → ℕ → ℕ → ℕ
leaf_address pte_ppn virtual_address level =
    let offset = bit_and virtual_address 0xFFF in
    if level == 1
    then bit_or (bit_or (bit_and pte_ppn (not32 0x3FF) * 2 ^ 12) (vpn virtual_address 0 * 2 ^ 12))
        offset
    else bit_or (pte_ppn * 2 ^ 12) offset

unfoldable pub leaf_shift : ℕ → ℕ
leaf_shift level = if level == 1 then megapage_shift else page_shift

-- A walk's new bus state, its result, and the metadata that it sets where it is ready.
pub record WalkResult (B : Type 0) : Type 0 where
  pub bus : B
  pub result : TranslationResult
  pub metadata : WalkMetadata

abbrev pub no_metadata : WalkMetadata
no_metadata = record { pte = 0; page_shift = 0; global = false }

abbrev pub root_table : CpuSnapshot → ℕ
root_table state = bit_and (sanitize_satp state.supervisor_csrs.satp) satp_ppn * 2 ^ 12

-- Machine mode and bare mode use the address as it is.
abbrev pub is_bare : CpuSnapshot → MemoryAccessType → Bool
is_bare state access =
    is_machine (effective_privilege state access)
    || not (has_bits (sanitize_satp state.supervisor_csrs.satp) satp_mode)

module _ {B : Type 0} (ops : CpuBus B) where
  abbrev pub walk_stop : B → TranslationResult → WalkResult B
  walk_stop bus result = record { bus = bus; result = result; metadata = no_metadata }

  -- The end of the round that finds a leaf: permission, the update of A and D, the address.
  unfoldable pub walk_leaf :
      B → CpuSnapshot → ℕ → MemoryAccessType → (level pte_address pte : ℕ) → Bool → WalkResult B
  walk_leaf bus state virtual_address access level pte_address pte inherited_global =
      let pte_ppn = shr pte 10 in
      let updated_pte = update_pte pte access in
      let written =
        if updated_pte == pte
        then (bus, BusFault.no_fault)
        else ops.write bus pte_address AccessWidth.word updated_pte AccessKind.page_table_walk in
      if level == 1 && has_bits pte_ppn 0x3FF
        || not (
            privilege_allows pte (effective_privilege state access) access
              state.machine_csrs.mstatus)
      then walk_stop bus page_faulted
      else if not (is_none written.1)
      then walk_stop written.0 (access_faulted written.1)
      else record {
        bus = written.0;
        result = translated (leaf_address pte_ppn virtual_address level);
        metadata = record {
          pte = updated_pte;
          page_shift = leaf_shift level;
          global = inherited_global || has_bits updated_pte pte_global;
        };
      }

  -- One round of the loop, on the answer of the bus; `next` is the round below.
  unfoldable pub walk_round :
      (next : B → ℕ → Bool → WalkResult B)
      → CpuSnapshot
      → ℕ
      → MemoryAccessType
      → (level pte_address : ℕ) → Bool
      → B × ReadResult
      → WalkResult B
  walk_round next state virtual_address access level pte_address inherited_global answer =
      let pte = answer.1.value % 2 ^ 32 in
      let below =
        next answer.0 (shr pte 10 * 2 ^ 12) (inherited_global || has_bits pte pte_global) in
      if not (is_none answer.1.fault)
      then walk_stop answer.0 (access_faulted answer.1.fault)
      else elim (classify_pte pte level) [
        | faulty ↦ walk_stop answer.0 page_faulted
        | pointer ↦ below
        | leaf ↦
            walk_leaf answer.0 state virtual_address access level pte_address pte inherited_global
      ]

  -- The loop from `level - 1` down to 0.
  unfoldable pub walk_levels :
      (levels : ℕ)
      → B
      → CpuSnapshot
      → ℕ
      → MemoryAccessType
      → (table_address : ℕ) → Bool
      → WalkResult B
  walk_levels zero bus state virtual_address access table_address inherited_global =
      walk_stop bus page_faulted
  walk_levels (suc level) bus state virtual_address access table_address inherited_global =
      let pte_address = pte_address_of table_address virtual_address level in
      walk_round (λ b table global. walk_levels level b state virtual_address access table global)
        state virtual_address access level pte_address inherited_global
        (ops.read bus pte_address AccessWidth.word AccessKind.page_table_walk)

  unfoldable pub walk_address : B → CpuSnapshot → ℕ → MemoryAccessType → WalkResult B
  walk_address bus state virtual_address access =
      walk_levels 2 bus state virtual_address access (root_table state) false

  unfoldable pub translate_address : B → CpuSnapshot → ℕ → MemoryAccessType → B × TranslationResult
  translate_address bus state virtual_address access =
      let walked = walk_address bus state virtual_address access in
      if is_bare state access
      then (bus, translated virtual_address)
      else (walked.bus, walked.result)
