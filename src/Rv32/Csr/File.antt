-- ===== src/Rv32/Csr/File.antt =====
-- core32/src/csr.cpp: `CsrFile`. The file keeps no state but the CPU's; `time` is what the bus's
-- `read_time` returns.
use risc_v_cpu_emulator.Prelude.{
  ℕ, ◌*◌, ◌/◌, ◌%◌, ◌^◌, bit_and, bit_or, not, ◌&&◌, ◌||◌, ◌==◌, if◌then◌else◌,
}
use risc_v_cpu_emulator.Words.{not32}
use risc_v_cpu_emulator.Rv32.Types.{PrivilegeMode, MachineCsrState, SupervisorCsrState, CpuSnapshot}
use risc_v_cpu_emulator.Rv32.Csr.Address
use risc_v_cpu_emulator.Rv32.Csr.Bits.{
  supervisor_view, supervisor_interrupts, supported_interrupts, machine_isa_value,
  supported_exception_delegation, supported_interrupt_delegation, supported_counter_enable,
  machine_writable_pending, supervisor_writable_pending,
}
use risc_v_cpu_emulator.Rv32.Csr.Access.{
  CsrAccessStatus, csr_privilege_allows, satp_access_trapped, is_zicntr_address,
  counter_read_allowed, is_machine_identity_address, is_writable_machine_address,
  is_writable_supervisor_address, sanitize_mstatus, sanitize_mtvec, sanitize_satp,
}

pub record CsrReadResult : Type 0 where
  pub status : CsrAccessStatus
  pub value : ℕ

abbrev pub readable : ℕ → CsrReadResult
readable value = record { status = CsrAccessStatus.ready; value = value }

abbrev pub unreadable : CsrAccessStatus → CsrReadResult
unreadable status = record { status = status; value = 0 }

abbrev low_word : ℕ → ℕ
low_word value = value % 2 ^ 32

abbrev high_word : ℕ → ℕ
high_word value = value / 2 ^ 32 % 2 ^ 32

-- core32/src/interrupt.cpp.
unfoldable pub pending_interrupts : CpuSnapshot → ℕ
pending_interrupts state =
    bit_and (bit_or state.machine_csrs.mip_lines state.machine_csrs.mip_software)
      supported_interrupts

-- The switch of `CsrFile::read`: the supervisor registers, the machine registers, the counters.
unfoldable pub read_counter : CpuSnapshot → ℕ → ℕ → CsrReadResult
read_counter state time address =
    if address == Address.mcycle || address == Address.cycle
    then readable (low_word state.cycle)
    else if address == Address.time
    then readable (low_word time)
    else if address == Address.minstret || address == Address.instret
    then readable (low_word state.instructions_retired)
    else if address == Address.mcycleh || address == Address.cycleh
    then readable (high_word state.cycle)
    else if address == Address.timeh
    then readable (high_word time)
    else if address == Address.minstreth || address == Address.instreth
    then readable (high_word state.instructions_retired)
    else if address == Address.mvendorid || address == Address.marchid || address == Address.mimpid
    then readable 0
    else if address == Address.mhartid
    then readable state.hart_id
    else unreadable CsrAccessStatus.not_found

unfoldable pub read_machine : CpuSnapshot → ℕ → ℕ → CsrReadResult
read_machine state time address =
    if address == Address.mstatus
    then readable state.machine_csrs.mstatus
    else if address == Address.misa
    then readable machine_isa_value
    else if address == Address.medeleg
    then readable state.machine_csrs.medeleg
    else if address == Address.mideleg
    then readable state.machine_csrs.mideleg
    else if address == Address.mie
    then readable (bit_and state.machine_csrs.mie supported_interrupts)
    else if address == Address.mcounteren
    then readable state.machine_csrs.mcounteren
    else if address == Address.mstatush || address == Address.medelegh
    then readable 0
    else if address == Address.mtvec
    then readable state.machine_csrs.mtvec
    else if address == Address.mscratch
    then readable state.machine_csrs.mscratch
    else if address == Address.mepc
    then readable state.machine_csrs.mepc
    else if address == Address.mcause
    then readable state.machine_csrs.mcause
    else if address == Address.mtval
    then readable state.machine_csrs.mtval
    else if address == Address.mip
    then readable (pending_interrupts state)
    else read_counter state time address

unfoldable pub read_switch : CpuSnapshot → ℕ → ℕ → CsrReadResult
read_switch state time address =
    if address == Address.sstatus
    then readable (bit_and state.machine_csrs.mstatus supervisor_view)
    else if address == Address.sie
    then readable
        (bit_and (bit_and state.machine_csrs.mie state.machine_csrs.mideleg) supervisor_interrupts)
    else if address == Address.stvec
    then readable state.supervisor_csrs.stvec
    else if address == Address.scounteren
    then readable state.supervisor_csrs.scounteren
    else if address == Address.sscratch
    then readable state.supervisor_csrs.sscratch
    else if address == Address.sepc
    then readable state.supervisor_csrs.sepc
    else if address == Address.scause
    then readable state.supervisor_csrs.scause
    else if address == Address.stval
    then readable state.supervisor_csrs.stval
    else if address == Address.sip
    then readable (
        bit_and (bit_and (pending_interrupts state) state.machine_csrs.mideleg)
          supervisor_interrupts)
    else if address == Address.satp
    then readable state.supervisor_csrs.satp
    else read_machine state time address

unfoldable pub read : CpuSnapshot → ℕ → ℕ → PrivilegeMode → CsrReadResult
read state time address privilege =
    if not (csr_privilege_allows address privilege)
    then unreadable CsrAccessStatus.privilege_violation
    else if satp_access_trapped state address privilege
    then unreadable CsrAccessStatus.privilege_violation
    else if is_zicntr_address address && not (counter_read_allowed state address privilege)
    then unreadable CsrAccessStatus.privilege_violation
    else read_switch state time address

unfoldable pub validate_write : CpuSnapshot → ℕ → PrivilegeMode → CsrAccessStatus
validate_write state address privilege =
    if not (csr_privilege_allows address privilege)
    then CsrAccessStatus.privilege_violation
    else if satp_access_trapped state address privilege
    then CsrAccessStatus.privilege_violation
    else if is_zicntr_address address || is_machine_identity_address address
    then CsrAccessStatus.read_only
    else if is_writable_machine_address address || is_writable_supervisor_address address
    then CsrAccessStatus.ready
    else CsrAccessStatus.not_found

-- A write of one field of the machine or supervisor registers.
abbrev pub with_machine : CpuSnapshot → MachineCsrState → CpuSnapshot
with_machine state csrs = record state { machine_csrs = csrs }

abbrev pub with_supervisor : CpuSnapshot → SupervisorCsrState → CpuSnapshot
with_supervisor state csrs = record state { supervisor_csrs = csrs }

-- The bits of `old` outside `mask`, those of `value` inside.
abbrev pub merge : ℕ → ℕ → ℕ → ℕ
merge mask old value = bit_or (bit_and old (not32 mask)) (bit_and value mask)

-- The switch of `CsrFile::write_validated`, in the same three parts.
unfoldable pub write_counter : CpuSnapshot → ℕ → ℕ → CpuSnapshot
write_counter state address value =
    if address == Address.mcycle
    then record state { cycle = bit_or (bit_and state.cycle 0xFFFFFFFF00000000) value }
    else if address == Address.minstret
    then record state {
      instructions_retired = bit_or (bit_and state.instructions_retired 0xFFFFFFFF00000000) value;
    }
    else if address == Address.mcycleh
    then record state { cycle = bit_or (bit_and state.cycle 0xFFFFFFFF) (value * 2 ^ 32) }
    else if address == Address.minstreth
    then record state {
      instructions_retired =
          bit_or (bit_and state.instructions_retired 0xFFFFFFFF) (value * 2 ^ 32);
    }
    else state

unfoldable pub write_machine : CpuSnapshot → ℕ → ℕ → CpuSnapshot
write_machine state address value =
    if address == Address.mstatus
    then with_machine state (record state.machine_csrs { mstatus = sanitize_mstatus value })
    else if address == Address.misa
    then state
    else if address == Address.medeleg
    then with_machine state
        (record state.machine_csrs { medeleg = bit_and value supported_exception_delegation })
    else if address == Address.mideleg
    then with_machine state
        (record state.machine_csrs { mideleg = bit_and value supported_interrupt_delegation })
    else if address == Address.mie
    then with_machine state (record state.machine_csrs { mie = bit_and value supported_interrupts })
    else if address == Address.mcounteren
    then with_machine state
        (record state.machine_csrs { mcounteren = bit_and value supported_counter_enable })
    else if address == Address.mstatush || address == Address.medelegh
    then state
    else if address == Address.mtvec
    then with_machine state (record state.machine_csrs { mtvec = sanitize_mtvec value })
    else if address == Address.mscratch
    then with_machine state (record state.machine_csrs { mscratch = value })
    else if address == Address.mepc
    then with_machine state (record state.machine_csrs { mepc = bit_and value (not32 1) })
    else if address == Address.mcause
    then with_machine state (record state.machine_csrs { mcause = value })
    else if address == Address.mtval
    then with_machine state (record state.machine_csrs { mtval = value })
    else if address == Address.mip
    then with_machine state
        (record state.machine_csrs { mip_software = bit_and value machine_writable_pending })
    else write_counter state address value

unfoldable pub write_validated : CpuSnapshot → ℕ → ℕ → CpuSnapshot
write_validated state address value =
    if address == Address.sstatus
    then with_machine state (record state.machine_csrs {
      mstatus = sanitize_mstatus (merge supervisor_view state.machine_csrs.mstatus value);
    })
    else if address == Address.sie
    then with_machine state (record state.machine_csrs {
      mie =
          merge (bit_and state.machine_csrs.mideleg supervisor_interrupts) state.machine_csrs.mie
            value;
    })
    else if address == Address.stvec
    then with_supervisor state (record state.supervisor_csrs { stvec = sanitize_mtvec value })
    else if address == Address.scounteren
    then with_supervisor state
        (record state.supervisor_csrs { scounteren = bit_and value supported_counter_enable })
    else if address == Address.sscratch
    then with_supervisor state (record state.supervisor_csrs { sscratch = value })
    else if address == Address.sepc
    then with_supervisor state (record state.supervisor_csrs { sepc = bit_and value (not32 1) })
    else if address == Address.scause
    then with_supervisor state (record state.supervisor_csrs { scause = value })
    else if address == Address.stval
    then with_supervisor state (record state.supervisor_csrs { stval = value })
    else if address == Address.sip
    then with_machine state (record state.machine_csrs {
      mip_software =
          merge (bit_and state.machine_csrs.mideleg supervisor_writable_pending)
            state.machine_csrs.mip_software value;
    })
    else if address == Address.satp
    then with_supervisor state (record state.supervisor_csrs { satp = sanitize_satp value })
    else write_machine state address value

unfoldable pub read_for_write : CpuSnapshot → ℕ → ℕ → ℕ
read_for_write state address read_value =
    if address == Address.mip
    then merge machine_writable_pending read_value state.machine_csrs.mip_software
    else if address == Address.sip
    then merge supervisor_writable_pending read_value state.machine_csrs.mip_software
    else read_value
