-- ===== src/Rv32/Trap/Privileged.antt =====
-- core32/src/trap.cpp, `execute_privileged`: MRET, SRET, WFI and SFENCE.VMA.
use risc_v_cpu_emulator.Prelude.{
  ℕ, bit_and, bit_or, Bool, true, false, not, ◌&&◌, ◌||◌, ◌==◌, if◌then◌else◌,
}
use risc_v_cpu_emulator.Words.{add32, shr, not32, has_bits}
use risc_v_cpu_emulator.Rv32.Types.{
  PrivilegeMode, CpuSnapshot, InstructionKind as Kind, DecodedInstruction, ExecuteStatus,
  PendingCommit,
}
use risc_v_cpu_emulator.Rv32.Csr.Address
use risc_v_cpu_emulator.Rv32.Csr.Bits.{
  status_sie, status_mie, status_spie, status_mpie, status_spp, status_mpp, status_mprv, status_tvm,
  status_tw, status_tsr,
}
use risc_v_cpu_emulator.Rv32.Csr.Access.{is_machine, is_supervisor, is_user, sanitize_mstatus}
use risc_v_cpu_emulator.Rv32.Execute.Integer.{not_ready, ready_commit, no_register_write}

pub data PrivilegedExecutionStatus : Type 0 where
  ready not_privileged_instruction illegal_instruction : PrivilegedExecutionStatus

pub record PrivilegedExecutionResult : Type 0 where
  pub status : PrivilegedExecutionStatus
  pub pending : PendingCommit
  pub trap_value : ℕ

-- The enum value of a two-bit field.
unfoldable pub mode_of : ℕ → PrivilegeMode
mode_of encoded =
    if encoded == 0
    then PrivilegeMode.user
    else if encoded == 1
    then PrivilegeMode.supervisor
    else if encoded == 2
    then PrivilegeMode.reserved
    else PrivilegeMode.machine

unfoldable pub valid_privilege : PrivilegeMode → Bool
valid_privilege PrivilegeMode.user = true
valid_privilege PrivilegeMode.supervisor = true
valid_privilege PrivilegeMode.machine = true
valid_privilege PrivilegeMode.reserved = false

unfoldable pub previous_privilege : ℕ → PrivilegeMode
previous_privilege mstatus = mode_of (shr (bit_and mstatus status_mpp) 11)

unfoldable pub supervisor_previous_privilege : ℕ → PrivilegeMode
supervisor_previous_privilege mstatus =
    if has_bits mstatus status_spp then PrivilegeMode.supervisor else PrivilegeMode.user

-- User mode, or supervisor mode where `mstatus` has the trapping bit.
unfoldable pub trapped : CpuSnapshot → ℕ → ℕ → Bool
trapped state old_mstatus bit =
    is_user state.privilege || is_supervisor state.privilege && has_bits old_mstatus bit

-- `mstatus` after MRET, and after SRET.
unfoldable pub return_machine_status : ℕ → ℕ
return_machine_status old =
    let cleared = bit_and old (not32 (bit_or (bit_or status_mie status_mpie) status_mpp)) in
    let enabled = if has_bits old status_mpie then bit_or cleared status_mie else cleared in
    let stacked = bit_or enabled status_mpie in
    if not (is_machine (previous_privilege old))
    then bit_and stacked (not32 status_mprv)
    else stacked

unfoldable pub return_supervisor_status : ℕ → ℕ
return_supervisor_status old =
    let cleared = bit_and old (not32 (bit_or (bit_or status_sie status_spie) status_spp)) in
    let enabled = if has_bits old status_spie then bit_or cleared status_sie else cleared in
    bit_and (bit_or enabled status_spie) (not32 status_mprv)

module _ (decoded : DecodedInstruction) (state : CpuSnapshot) where
  unfoldable pub refuse : PrivilegedExecutionStatus → ℕ → PrivilegedExecutionResult
  refuse status trap_value = record {
    status = status;
    pending = not_ready ExecuteStatus.unsupported_instruction state.pc decoded.raw;
    trap_value = trap_value;
  }

  abbrev pub illegal : PrivilegedExecutionResult
  illegal = refuse PrivilegedExecutionStatus.illegal_instruction decoded.raw

  unfoldable pub accept : PendingCommit → PrivilegedExecutionResult
  accept pending = record {
    status = PrivilegedExecutionStatus.ready;
    pending = pending;
    trap_value = 0;
  }

  -- A return to `next_pc` in `privilege`, with a write of the status register at `address`.
  unfoldable pub return_to : ℕ → ℕ → ℕ → PrivilegeMode → PrivilegedExecutionResult
  return_to next_pc address mstatus privilege =
      accept (record (ready_commit state.pc decoded.raw next_pc no_register_write) {
        csr_write = record { enabled = true; address = address; value = mstatus };
        privilege_write = record { enabled = true; value = privilege };
      })

  abbrev following : PendingCommit
  following = ready_commit state.pc decoded.raw (add32 state.pc decoded.length) no_register_write

  unfoldable pub privileged_kind : Kind → ℕ → PrivilegedExecutionResult
  privileged_kind Kind.sfence_vma old_mstatus =
      if trapped state old_mstatus status_tvm then illegal else accept following
  privileged_kind Kind.wfi old_mstatus =
      if trapped state old_mstatus status_tw
      then illegal
      else accept (record following { wait_for_interrupt = true })
  privileged_kind Kind.mret old_mstatus =
      if not (is_machine state.privilege)
      then illegal
      else if not (valid_privilege (previous_privilege old_mstatus))
      then illegal
      else return_to state.machine_csrs.mepc Address.mstatus (return_machine_status old_mstatus)
          (previous_privilege old_mstatus)
  privileged_kind Kind.sret old_mstatus =
      if trapped state old_mstatus status_tsr
      then illegal
      else return_to state.supervisor_csrs.sepc Address.sstatus
          (return_supervisor_status old_mstatus) (supervisor_previous_privilege old_mstatus)
  privileged_kind _ old_mstatus = refuse PrivilegedExecutionStatus.not_privileged_instruction 0

unfoldable pub execute_privileged : DecodedInstruction → CpuSnapshot → PrivilegedExecutionResult
execute_privileged decoded state =
    privileged_kind decoded state decoded.kind (sanitize_mstatus state.machine_csrs.mstatus)
