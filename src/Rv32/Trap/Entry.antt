-- ===== src/Rv32/Trap/Entry.antt =====
-- core32/src/trap.cpp: how exceptions and interrupts enter machine or supervisor mode.
use risc_v_cpu_emulator.Prelude.{
  ℕ, ◌*◌, bit_and, bit_or, Bool, true, false, not, ◌&&◌, ltb, ◌==◌, if◌then◌else◌, set,
}
use risc_v_cpu_emulator.Words.{add32, shl32, not32, has_bits}
use risc_v_cpu_emulator.Rv32.Types.{PrivilegeMode, privilege_value, CpuSnapshot}
use risc_v_cpu_emulator.Rv32.Csr.Bits.{
  status_sie, status_mie, status_spie, status_mpie, status_spp, status_mpp,
}
use risc_v_cpu_emulator.Rv32.Csr.Access.{is_machine, is_supervisor, sanitize_mstatus}

pub data ExceptionCause : Type 0 where
  instruction_address_misaligned instruction_access_fault illegal_instruction breakpoint
        load_address_misaligned load_access_fault store_address_misaligned store_access_fault
        environment_call_from_user environment_call_from_supervisor environment_call_from_machine
        instruction_page_fault load_page_fault store_page_fault :
      ExceptionCause

abbrev pub exception_value : ExceptionCause → ℕ
exception_value instruction_address_misaligned = 0
exception_value instruction_access_fault = 1
exception_value illegal_instruction = 2
exception_value breakpoint = 3
exception_value load_address_misaligned = 4
exception_value load_access_fault = 5
exception_value store_address_misaligned = 6
exception_value store_access_fault = 7
exception_value environment_call_from_user = 8
exception_value environment_call_from_supervisor = 9
exception_value environment_call_from_machine = 11
exception_value instruction_page_fault = 12
exception_value load_page_fault = 13
exception_value store_page_fault = 15

pub data InterruptCause : Type 0 where
  supervisor_software machine_software supervisor_timer machine_timer supervisor_external
        machine_external :
      InterruptCause

abbrev pub interrupt_value : InterruptCause → ℕ
interrupt_value supervisor_software = 1
interrupt_value machine_software = 3
interrupt_value supervisor_timer = 5
interrupt_value machine_timer = 7
interrupt_value supervisor_external = 9
interrupt_value machine_external = 11

pub record TrapRequest : Type 0 where
  pub cause : ExceptionCause
  pub exception_pc : ℕ
  pub trap_value : ℕ

pub data TrapTarget : Type 0 where
  machine supervisor : TrapTarget

pub record InterruptTrapRequest : Type 0 where
  pub cause : InterruptCause
  pub interrupted_pc : ℕ

unfoldable pub trap_vector_address : ℕ → Bool → ℕ → ℕ
trap_vector_address trap_vector interrupt cause =
    let base = bit_and trap_vector (not32 0x3) in
    let mode = bit_and trap_vector 0x3 in
    if interrupt && mode == 1 then add32 base (4 * cause) else base

-- The stack of interrupt enables and modes in `mstatus`, on entry to supervisor mode.
unfoldable pub enter_supervisor_status : ℕ → PrivilegeMode → ℕ
enter_supervisor_status old privilege =
    let mstatus = sanitize_mstatus old in
    let cleared = bit_and mstatus (not32 (bit_or (bit_or status_sie status_spie) status_spp)) in
    let saved = if has_bits mstatus status_sie then bit_or cleared status_spie else cleared in
    sanitize_mstatus (if is_supervisor privilege then bit_or saved status_spp else saved)

-- And on entry to machine mode.
unfoldable pub enter_machine_status : ℕ → PrivilegeMode → ℕ
enter_machine_status old privilege =
    let mstatus = sanitize_mstatus old in
    let cleared = bit_and mstatus (not32 (bit_or (bit_or status_mie status_mpie) status_mpp)) in
    let saved = if has_bits mstatus status_mie then bit_or cleared status_mpie else cleared in
    sanitize_mstatus (bit_or saved (shl32 (privilege_value privilege) 11))

-- The supervisor's and the machine's entry, with the cause and value that the registers report and
-- the vector's answer to an exception or an interrupt.
unfoldable pub enter_supervisor : CpuSnapshot → ℕ → ℕ → ℕ → ℕ → CpuSnapshot
enter_supervisor state pc cause trap_value vector = record state {
  machine_csrs = record state.machine_csrs {
    mstatus = enter_supervisor_status state.machine_csrs.mstatus state.privilege;
  };
  supervisor_csrs = record state.supervisor_csrs {
    sepc = bit_and pc (not32 1);
    scause = cause;
    stval = trap_value;
  };
  pc = vector;
  privilege = PrivilegeMode.supervisor;
  waiting_for_interrupt = false;
  registers = set state.registers 0 0;
}

unfoldable pub enter_machine : CpuSnapshot → ℕ → ℕ → ℕ → ℕ → CpuSnapshot
enter_machine state pc cause trap_value vector = record state {
  machine_csrs = record state.machine_csrs {
    mstatus = enter_machine_status state.machine_csrs.mstatus state.privilege;
    mepc = bit_and pc (not32 1);
    mcause = cause;
    mtval = trap_value;
  };
  pc = vector;
  privilege = PrivilegeMode.machine;
  waiting_for_interrupt = false;
  registers = set state.registers 0 0;
}

unfoldable pub take_supervisor_trap : CpuSnapshot → TrapRequest → CpuSnapshot
take_supervisor_trap state request =
    let cause = exception_value request.cause in
    enter_supervisor state request.exception_pc cause request.trap_value
      (trap_vector_address state.supervisor_csrs.stvec false cause)

unfoldable pub take_machine_trap : CpuSnapshot → TrapRequest → CpuSnapshot
take_machine_trap state request =
    let cause = exception_value request.cause in
    enter_machine state request.exception_pc cause request.trap_value
      (trap_vector_address state.machine_csrs.mtvec false cause)

unfoldable pub delegated : CpuSnapshot → ExceptionCause → Bool
delegated state cause =
    not (is_machine state.privilege)
    && ltb (exception_value cause) 32
    && has_bits state.machine_csrs.medeleg (shl32 1 (exception_value cause))

-- The new state and where the trap went.
unfoldable pub take_trap : CpuSnapshot → TrapRequest → CpuSnapshot × TrapTarget
take_trap state request =
    if delegated state request.cause
    then (take_supervisor_trap state request, TrapTarget.supervisor)
    else (take_machine_trap state request, TrapTarget.machine)

unfoldable pub take_interrupt_trap : CpuSnapshot → InterruptTrapRequest → TrapTarget → CpuSnapshot
take_interrupt_trap state request TrapTarget.supervisor =
    let cause = interrupt_value request.cause in
    enter_supervisor state request.interrupted_pc (bit_or 0x80000000 cause) 0
      (trap_vector_address state.supervisor_csrs.stvec true cause)
take_interrupt_trap state request TrapTarget.machine =
    let cause = interrupt_value request.cause in
    enter_machine state request.interrupted_pc (bit_or 0x80000000 cause) 0
      (trap_vector_address state.machine_csrs.mtvec true cause)

unfoldable pub environment_call_cause : PrivilegeMode → ExceptionCause
environment_call_cause PrivilegeMode.user = ExceptionCause.environment_call_from_user
environment_call_cause PrivilegeMode.supervisor = ExceptionCause.environment_call_from_supervisor
environment_call_cause PrivilegeMode.machine = ExceptionCause.environment_call_from_machine
environment_call_cause PrivilegeMode.reserved = ExceptionCause.illegal_instruction
