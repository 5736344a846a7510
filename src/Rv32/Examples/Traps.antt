-- ===== src/Rv32/Examples/Traps.antt =====
-- The theorems on traps, returns and interrupts at the reset state.
use risc_v_cpu_emulator.Prelude.{◌≡◌, ◌≤◌, refl, true}
use risc_v_cpu_emulator.Words.Bits.{bit_of}
use risc_v_cpu_emulator.Rv32.Types.{
  PrivilegeMode, privilege_value, CpuSnapshot, InstructionKind as Kind, DecodedInstruction,
}
use risc_v_cpu_emulator.Rv32.Decode.Fields.{make_decoded}
use risc_v_cpu_emulator.Rv32.Csr.Access.{sanitize_mstatus}
use risc_v_cpu_emulator.Rv32.Trap.Entry.{
  ExceptionCause, InterruptCause, TrapTarget, TrapRequest, take_trap, take_interrupt_trap,
  delegated,
}
use risc_v_cpu_emulator.Rv32.Trap.Privileged.{
  supervisor_previous_privilege, execute_privileged, previous_privilege, valid_privilege,
}
use risc_v_cpu_emulator.Rv32.Trap.SupervisorReturns.{sret_committed, take_trap-sret}
use risc_v_cpu_emulator.Rv32.Trap.Returns.{mret_committed, take_trap-mret, take_trap_raises}
use risc_v_cpu_emulator.Rv32.Trap.Preservation.{
  take_trap-IsWellFormed, take_interrupt_trap-IsWellFormed,
}
use risc_v_cpu_emulator.Rv32.Interrupt.{select_pending_interrupt}
use risc_v_cpu_emulator.Rv32.Interrupt.Selection.{IsFirst, select_pending_interrupt-IsFirst}
use risc_v_cpu_emulator.Rv32.Commit.{commit_pending}
use risc_v_cpu_emulator.Rv32.Commit.Preservation.{IsWellFormed}
use risc_v_cpu_emulator.Rv32.Examples.{state_in, user_state}

-- A timer interrupt is pending for the machine, a software interrupt for the supervisor.
timer-IsFirst :
    IsFirst
      (state_in PrivilegeMode.user)
      (select_pending_interrupt (state_in PrivilegeMode.user))
      InterruptCause.supervisor_software
unfolding valid_privilege
timer-IsFirst =
    select_pending_interrupt-IsFirst (state_in PrivilegeMode.user)
      InterruptCause.supervisor_software refl

abbrev load_fault : TrapRequest
load_fault = record {
  cause = ExceptionCause.load_access_fault;
  exception_pc = 0x80000002;
  trap_value = 0x10;
}

abbrev mret_instruction : DecodedInstruction
mret_instruction = make_decoded 0x30200073 Kind.mret 0 0 0 0

load_fault-mret :
    ((commit_pending
        (take_trap (state_in PrivilegeMode.user) load_fault).0
        (execute_privileged mret_instruction
          (take_trap (state_in PrivilegeMode.user) load_fault).0).pending
        true).1
      ≡ true)
    × ((commit_pending
          (take_trap (state_in PrivilegeMode.user) load_fault).0
          (execute_privileged mret_instruction
            (take_trap (state_in PrivilegeMode.user) load_fault).0).pending
          true).0.pc
        ≡ 0x80000002)
    × ((commit_pending
          (take_trap (state_in PrivilegeMode.user) load_fault).0
          (execute_privileged mret_instruction
            (take_trap (state_in PrivilegeMode.user) load_fault).0).pending
          true).0.privilege
        ≡ PrivilegeMode.user)
    × (bit_of
          (commit_pending
            (take_trap (state_in PrivilegeMode.user) load_fault).0
            (execute_privileged mret_instruction
              (take_trap (state_in PrivilegeMode.user) load_fault).0).pending
            true).0.machine_csrs.mstatus
          3
        ≡ bit_of 0x8 3)
unfolding valid_privilege delegated make_decoded
load_fault-mret =
    take_trap-mret (state_in PrivilegeMode.user) load_fault mret_instruction refl refl refl

load_fault-IsWellFormed : IsWellFormed (take_trap (state_in PrivilegeMode.user) load_fault).0
load_fault-IsWellFormed = take_trap-IsWellFormed (state_in PrivilegeMode.user) load_fault user_state

timer-IsWellFormed : IsWellFormed (
    take_interrupt_trap
      (state_in PrivilegeMode.user)
      (record { cause = InterruptCause.machine_timer; interrupted_pc = 0x80000002 })
      TrapTarget.machine)
timer-IsWellFormed =
    take_interrupt_trap-IsWellFormed (state_in PrivilegeMode.user)
      (record { cause = InterruptCause.machine_timer; interrupted_pc = 0x80000002 })
      TrapTarget.machine user_state

load_fault_raises :
    privilege_value PrivilegeMode.user
    ≤ privilege_value (take_trap (state_in PrivilegeMode.user) load_fault).0.privilege
unfolding valid_privilege
load_fault_raises = take_trap_raises (state_in PrivilegeMode.user) load_fault refl

-- MRET from the machine mode of the reset state, whose MPP is user mode.
reset-mret :
    ((commit_pending
        (state_in PrivilegeMode.machine)
        (execute_privileged mret_instruction (state_in PrivilegeMode.machine)).pending
        true).1
      ≡ true)
    × ((commit_pending
          (state_in PrivilegeMode.machine)
          (execute_privileged mret_instruction (state_in PrivilegeMode.machine)).pending
          true).0.pc
        ≡ 0)
    × ((commit_pending
          (state_in PrivilegeMode.machine)
          (execute_privileged mret_instruction (state_in PrivilegeMode.machine)).pending
          true).0.privilege
        ≡ previous_privilege (sanitize_mstatus 0x8))
    × (bit_of
          (commit_pending
            (state_in PrivilegeMode.machine)
            (execute_privileged mret_instruction (state_in PrivilegeMode.machine)).pending
            true).0.machine_csrs.mstatus
          3
        ≡ bit_of (sanitize_mstatus 0x8) 7)
unfolding make_decoded
reset-mret = mret_committed (state_in PrivilegeMode.machine) mret_instruction refl refl

-- With every exception of user mode delegated.
abbrev delegating : CpuSnapshot
delegating = record (state_in PrivilegeMode.user) {
  machine_csrs = record (state_in PrivilegeMode.user).machine_csrs {
    mstatus = 0x2;
    medeleg = 0xB3FF;
  };
}

abbrev sret_instruction : DecodedInstruction
sret_instruction = make_decoded 0x10200073 Kind.sret 0 0 0 0

load_fault-sret :
    ((commit_pending
        (take_trap delegating load_fault).0
        (execute_privileged sret_instruction (take_trap delegating load_fault).0).pending
        true).1
      ≡ true)
    × ((commit_pending
          (take_trap delegating load_fault).0
          (execute_privileged sret_instruction (take_trap delegating load_fault).0).pending
          true).0.pc
        ≡ 0x80000002)
    × ((commit_pending
          (take_trap delegating load_fault).0
          (execute_privileged sret_instruction (take_trap delegating load_fault).0).pending
          true).0.privilege
        ≡ PrivilegeMode.user)
    × (bit_of
          (commit_pending
            (take_trap delegating load_fault).0
            (execute_privileged sret_instruction (take_trap delegating load_fault).0).pending
            true).0.machine_csrs.mstatus
          1
        ≡ bit_of 0x2 1)
unfolding valid_privilege delegated make_decoded bit_of
load_fault-sret = take_trap-sret delegating load_fault sret_instruction refl refl refl refl

abbrev in_supervisor : CpuSnapshot
in_supervisor = state_in PrivilegeMode.supervisor

reset-sret :
    ((commit_pending in_supervisor
        (execute_privileged sret_instruction in_supervisor).pending
        true).1
      ≡ true)
    × ((commit_pending in_supervisor
          (execute_privileged sret_instruction in_supervisor).pending
          true).0.pc
        ≡ 0)
    × ((commit_pending in_supervisor
          (execute_privileged sret_instruction in_supervisor).pending
          true).0.privilege
        ≡ supervisor_previous_privilege (sanitize_mstatus 0x8))
    × (bit_of
          (commit_pending in_supervisor
            (execute_privileged sret_instruction in_supervisor).pending
            true).0.machine_csrs.mstatus
          1
        ≡ bit_of (sanitize_mstatus 0x8) 5)
unfolding make_decoded bit_of sanitize_mstatus
reset-sret = sret_committed in_supervisor sret_instruction refl refl refl
