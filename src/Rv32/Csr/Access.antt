-- ===== src/Rv32/Csr/Access.antt =====
-- core32/src/csr.cpp: which addresses there are, who may access them, and the values that the
-- writable-any, read-legal registers keep.
use risc_v_cpu_emulator.Prelude.{
  ℕ, bit_and, bit_or, Bool, true, false, not, ◌&&◌, ◌||◌, leb, ◌==◌, if◌then◌else◌,
}
use risc_v_cpu_emulator.Words.{shr, not32, has_bits}
use risc_v_cpu_emulator.Rv32.Types.{PrivilegeMode, privilege_value, CpuSnapshot}
use risc_v_cpu_emulator.Rv32.Csr.Address
use risc_v_cpu_emulator.Rv32.Csr.Bits.{
  status_mpp, status_tvm, implemented, satp_mode, satp_asid_ppn,
}

pub data CsrAccessStatus : Type 0 where
  ready not_found privilege_violation read_only : CsrAccessStatus

unfoldable pub csr_is_read_only : ℕ → Bool
csr_is_read_only address = bit_and (shr address 10) 0x3 == 3

unfoldable pub csr_minimum_privilege : ℕ → ℕ
csr_minimum_privilege address = bit_and (shr address 8) 0x3

unfoldable pub csr_privilege_allows : ℕ → PrivilegeMode → Bool
csr_privilege_allows address privilege =
    leb (csr_minimum_privilege address) (privilege_value privilege)

-- Comparisons of modes, by their values.
abbrev pub is_machine : PrivilegeMode → Bool
is_machine privilege = privilege_value privilege == 3

abbrev pub is_supervisor : PrivilegeMode → Bool
is_supervisor privilege = privilege_value privilege == 1

abbrev pub is_user : PrivilegeMode → Bool
is_user privilege = privilege_value privilege == 0

unfoldable pub is_zicntr_address : ℕ → Bool
is_zicntr_address address =
    address == Address.cycle
    || address == Address.time
    || address == Address.instret
    || address == Address.cycleh
    || address == Address.timeh
    || address == Address.instreth

unfoldable pub counter_enable_bit : ℕ → ℕ
counter_enable_bit address =
    if address == Address.cycle || address == Address.cycleh
    then 1
    else if address == Address.time || address == Address.timeh
    then 2
    else if address == Address.instret || address == Address.instreth
    then 4
    else 0

unfoldable pub counter_read_allowed : CpuSnapshot → ℕ → PrivilegeMode → Bool
counter_read_allowed state address privilege =
    let enable = counter_enable_bit address in
    if is_machine privilege
    then true
    else if bit_and state.machine_csrs.mcounteren enable == 0
    then false
    else not (is_user privilege) || has_bits state.supervisor_csrs.scounteren enable

unfoldable pub is_machine_identity_address : ℕ → Bool
is_machine_identity_address address =
    address == Address.mvendorid
    || address == Address.marchid
    || address == Address.mimpid
    || address == Address.mhartid

unfoldable pub is_writable_machine_address : ℕ → Bool
is_writable_machine_address address =
    address == Address.mstatus
    || address == Address.misa
    || address == Address.medeleg
    || address == Address.mideleg
    || address == Address.mie
    || address == Address.mtvec
    || address == Address.mcounteren
    || address == Address.mstatush
    || address == Address.medelegh
    || address == Address.mscratch
    || address == Address.mepc
    || address == Address.mcause
    || address == Address.mtval
    || address == Address.mip
    || address == Address.mcycle
    || address == Address.minstret
    || address == Address.mcycleh
    || address == Address.minstreth

unfoldable pub is_writable_supervisor_address : ℕ → Bool
is_writable_supervisor_address address =
    address == Address.sstatus
    || address == Address.sie
    || address == Address.stvec
    || address == Address.scounteren
    || address == Address.sscratch
    || address == Address.sepc
    || address == Address.scause
    || address == Address.stval
    || address == Address.sip
    || address == Address.satp

unfoldable pub satp_access_trapped : CpuSnapshot → ℕ → PrivilegeMode → Bool
satp_access_trapped state address privilege =
    address == Address.satp
    && is_supervisor privilege
    && has_bits state.machine_csrs.mstatus status_tvm

-- MPP holds no reserved mode: the encoding 2 becomes 0.
unfoldable pub sanitize_mstatus : ℕ → ℕ
sanitize_mstatus value =
    let sanitized = bit_and value implemented in
    if shr (bit_and sanitized status_mpp) 11 == 2
    then bit_and sanitized (not32 status_mpp)
    else sanitized

unfoldable pub sanitize_mtvec : ℕ → ℕ
sanitize_mtvec value =
    let mode = bit_and value 0x3 in
    bit_or (bit_and value (not32 0x3)) (if leb mode 1 then mode else 0)

-- core32/src/mmu.cpp.
unfoldable pub sanitize_satp : ℕ → ℕ
sanitize_satp value =
    if bit_and value satp_mode == 0 then 0 else bit_or satp_mode (bit_and value satp_asid_ppn)
