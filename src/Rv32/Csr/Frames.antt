-- ===== src/Rv32/Csr/Frames.antt =====
-- core32/src/csr.cpp: the CSRs that `CsrFile` stores as they are, and the writes at other addresses.
use risc_v_cpu_emulator.Prelude.{ℕ, ◌≡◌, refl, arith, false, ◌==◌}
use risc_v_cpu_emulator.Rv32.Types.{PrivilegeMode, CpuSnapshot}
use risc_v_cpu_emulator.Rv32.Csr.Access.{
  csr_privilege_allows, csr_minimum_privilege, satp_access_trapped, is_zicntr_address,
}
use risc_v_cpu_emulator.Rv32.Csr.File.{
  read, readable, read_switch, read_machine, write_validated, write_machine, write_counter,
}

-- The CSRs that a write replaces as a whole, and that no other CSR shows.
pub data Stored : Type 0 where
  medeleg mcounteren mtvec mscratch mepc mcause mtval : Stored
  scounteren stvec sscratch sepc scause stval satp : Stored

abbrev pub address_of : Stored → ℕ
address_of Stored.medeleg = 0x302
address_of Stored.mcounteren = 0x306
address_of Stored.mtvec = 0x305
address_of Stored.mscratch = 0x340
address_of Stored.mepc = 0x341
address_of Stored.mcause = 0x342
address_of Stored.mtval = 0x343
address_of Stored.scounteren = 0x106
address_of Stored.stvec = 0x105
address_of Stored.sscratch = 0x140
address_of Stored.sepc = 0x141
address_of Stored.scause = 0x142
address_of Stored.stval = 0x143
address_of Stored.satp = 0x180

-- The value of a CSR, as `read_switch` finds it.
unfoldable pub field_of : CpuSnapshot → Stored → ℕ
field_of state Stored.medeleg = state.machine_csrs.medeleg
field_of state Stored.mcounteren = state.machine_csrs.mcounteren
field_of state Stored.mtvec = state.machine_csrs.mtvec
field_of state Stored.mscratch = state.machine_csrs.mscratch
field_of state Stored.mepc = state.machine_csrs.mepc
field_of state Stored.mcause = state.machine_csrs.mcause
field_of state Stored.mtval = state.machine_csrs.mtval
field_of state Stored.scounteren = state.supervisor_csrs.scounteren
field_of state Stored.stvec = state.supervisor_csrs.stvec
field_of state Stored.sscratch = state.supervisor_csrs.sscratch
field_of state Stored.sepc = state.supervisor_csrs.sepc
field_of state Stored.scause = state.supervisor_csrs.scause
field_of state Stored.stval = state.supervisor_csrs.stval
field_of state Stored.satp = state.supervisor_csrs.satp

pub read_field :
    (state : CpuSnapshot) (time : ℕ) (csr : Stored)
    → read state time (address_of csr) PrivilegeMode.machine ≡ readable (field_of state csr)
unfolding read read_switch read_machine csr_privilege_allows csr_minimum_privilege
    satp_access_trapped is_zicntr_address field_of
read_field state time Stored.medeleg = refl
read_field state time Stored.mcounteren = refl
read_field state time Stored.mtvec = refl
read_field state time Stored.mscratch = refl
read_field state time Stored.mepc = refl
read_field state time Stored.mcause = refl
read_field state time Stored.mtval = refl
read_field state time Stored.scounteren = refl
read_field state time Stored.stvec = refl
read_field state time Stored.sscratch = refl
read_field state time Stored.sepc = refl
read_field state time Stored.scause = refl
read_field state time Stored.stval = refl
read_field state time Stored.satp = refl

module _ (state : CpuSnapshot) (address value : ℕ) where
  abbrev IsFramed : CpuSnapshot → Type 0
  IsFramed new =
      (new.machine_csrs ≡ state.machine_csrs) × (new.supervisor_csrs ≡ state.supervisor_csrs)

  write_counter-IsFramed : IsFramed (write_counter state address value)
  unfolding write_counter
  write_counter-IsFramed = ground arith

  write_machine_supervisor :
      (write_machine state address value).supervisor_csrs ≡ state.supervisor_csrs
  unfolding write_machine
  write_machine_supervisor = ground (arith, write_counter-IsFramed)

  keep_medeleg :
      (address == address_of Stored.medeleg) ≡ false
      → (write_validated state address value).machine_csrs.medeleg ≡ state.machine_csrs.medeleg
  unfolding write_validated write_machine
  keep_medeleg h = ground (arith, h, write_counter-IsFramed)

  keep_mcounteren :
      (address == address_of Stored.mcounteren) ≡ false
      → (write_validated state address value).machine_csrs.mcounteren
        ≡ state.machine_csrs.mcounteren
  unfolding write_validated write_machine
  keep_mcounteren h = ground (arith, h, write_counter-IsFramed)

  keep_mtvec :
      (address == address_of Stored.mtvec) ≡ false
      → (write_validated state address value).machine_csrs.mtvec ≡ state.machine_csrs.mtvec
  unfolding write_validated write_machine
  keep_mtvec h = ground (arith, h, write_counter-IsFramed)

  keep_mscratch :
      (address == address_of Stored.mscratch) ≡ false
      → (write_validated state address value).machine_csrs.mscratch ≡ state.machine_csrs.mscratch
  unfolding write_validated write_machine
  keep_mscratch h = ground (arith, h, write_counter-IsFramed)

  keep_mepc :
      (address == address_of Stored.mepc) ≡ false
      → (write_validated state address value).machine_csrs.mepc ≡ state.machine_csrs.mepc
  unfolding write_validated write_machine
  keep_mepc h = ground (arith, h, write_counter-IsFramed)

  keep_mcause :
      (address == address_of Stored.mcause) ≡ false
      → (write_validated state address value).machine_csrs.mcause ≡ state.machine_csrs.mcause
  unfolding write_validated write_machine
  keep_mcause h = ground (arith, h, write_counter-IsFramed)

  keep_mtval :
      (address == address_of Stored.mtval) ≡ false
      → (write_validated state address value).machine_csrs.mtval ≡ state.machine_csrs.mtval
  unfolding write_validated write_machine
  keep_mtval h = ground (arith, h, write_counter-IsFramed)

  keep_scounteren :
      (address == address_of Stored.scounteren) ≡ false
      → (write_validated state address value).supervisor_csrs.scounteren
        ≡ state.supervisor_csrs.scounteren
  unfolding write_validated
  keep_scounteren h = ground (arith, h, write_machine_supervisor)

  keep_stvec :
      (address == address_of Stored.stvec) ≡ false
      → (write_validated state address value).supervisor_csrs.stvec ≡ state.supervisor_csrs.stvec
  unfolding write_validated
  keep_stvec h = ground (arith, h, write_machine_supervisor)

  keep_sscratch :
      (address == address_of Stored.sscratch) ≡ false
      → (write_validated state address value).supervisor_csrs.sscratch
        ≡ state.supervisor_csrs.sscratch
  unfolding write_validated
  keep_sscratch h = ground (arith, h, write_machine_supervisor)

  keep_sepc :
      (address == address_of Stored.sepc) ≡ false
      → (write_validated state address value).supervisor_csrs.sepc ≡ state.supervisor_csrs.sepc
  unfolding write_validated
  keep_sepc h = ground (arith, h, write_machine_supervisor)

  keep_scause :
      (address == address_of Stored.scause) ≡ false
      → (write_validated state address value).supervisor_csrs.scause ≡ state.supervisor_csrs.scause
  unfolding write_validated
  keep_scause h = ground (arith, h, write_machine_supervisor)

  keep_stval :
      (address == address_of Stored.stval) ≡ false
      → (write_validated state address value).supervisor_csrs.stval ≡ state.supervisor_csrs.stval
  unfolding write_validated
  keep_stval h = ground (arith, h, write_machine_supervisor)

  keep_satp :
      (address == address_of Stored.satp) ≡ false
      → (write_validated state address value).supervisor_csrs.satp ≡ state.supervisor_csrs.satp
  unfolding write_validated
  keep_satp h = ground (arith, h, write_machine_supervisor)

pub write_other :
    (state : CpuSnapshot) (address value : ℕ) (csr : Stored)
    → (address == address_of csr) ≡ false
    → field_of (write_validated state address value) csr ≡ field_of state csr
unfolding field_of
write_other state address value Stored.medeleg h = keep_medeleg state address value h
write_other state address value Stored.mcounteren h = keep_mcounteren state address value h
write_other state address value Stored.mtvec h = keep_mtvec state address value h
write_other state address value Stored.mscratch h = keep_mscratch state address value h
write_other state address value Stored.mepc h = keep_mepc state address value h
write_other state address value Stored.mcause h = keep_mcause state address value h
write_other state address value Stored.mtval h = keep_mtval state address value h
write_other state address value Stored.scounteren h = keep_scounteren state address value h
write_other state address value Stored.stvec h = keep_stvec state address value h
write_other state address value Stored.sscratch h = keep_sscratch state address value h
write_other state address value Stored.sepc h = keep_sepc state address value h
write_other state address value Stored.scause h = keep_scause state address value h
write_other state address value Stored.stval h = keep_stval state address value h
write_other state address value Stored.satp h = keep_satp state address value h
