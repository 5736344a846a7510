-- ===== src/Rv32/Trap/Returns.antt =====
-- A trap, then the return from it: what MRET and SRET restore of what trap entry saved.
use risc_v_cpu_emulator.Prelude.{
  ℕ, ◌≤◌, ◌≡◌, refl, ap, ◌∙◌, arith, bit_and, Bool, true, false, ◌==◌, not, if◌then◌else◌,
  Bool-cases, inl, inr,
}
use risc_v_cpu_emulator.Words.{not32}
use risc_v_cpu_emulator.Words.Bits.{bit_of, bit_of-lt, bit_and-bit_of}
use risc_v_cpu_emulator.Rv32.Types.{
  PrivilegeMode, privilege_value, CpuSnapshot, PendingCommit, DecodedInstruction,
  InstructionKind as Kind,
}
use risc_v_cpu_emulator.Rv32.Csr.Access.{
  is_machine, sanitize_mstatus, csr_privilege_allows, csr_minimum_privilege, satp_access_trapped,
  is_zicntr_address, is_machine_identity_address, is_writable_machine_address,
  is_writable_supervisor_address,
}
use risc_v_cpu_emulator.Rv32.Csr.Address
use risc_v_cpu_emulator.Rv32.Csr.File.{validate_write, write_validated, write_machine}
use risc_v_cpu_emulator.Rv32.Csr.Legal.{sanitize_mstatus-bit_of}
use risc_v_cpu_emulator.Rv32.Trap.Entry.{
  TrapRequest, take_trap, delegated, take_machine_trap, take_supervisor_trap, enter_supervisor,
  enter_machine,
}
use risc_v_cpu_emulator.Rv32.Trap.Privileged.{
  valid_privilege, previous_privilege, execute_privileged, privileged_kind, return_to, accept,
  return_machine_status,
}
use risc_v_cpu_emulator.Rv32.Trap.Status.{
  enter_machine_status_fixed, previous_privilege_valid, enter_machine_status_lem,
  return_machine_status-bit_of,
}
use risc_v_cpu_emulator.Rv32.Execute.Integer.{ready_commit}
use risc_v_cpu_emulator.Rv32.Commit.{
  commit_pending, rejects, is_execute_ready, commit_registers, commit_csr, clear_mprv,
}

-- The enable that MRET restores survives the write to `mstatus` and the clearing of MPRV.
sanitize_return :
    (old : ℕ) (clear : Bool)
    → bit_of
        (if clear
          then bit_and (sanitize_mstatus (return_machine_status old)) (not32 0x20000)
          else sanitize_mstatus (return_machine_status old))
        3
      ≡ bit_of old 7
unfolding bit_of
sanitize_return old true =
    let written : ℕ = sanitize_mstatus (return_machine_status old) in
    omega (
      arith,
      sanitize_mstatus-bit_of (return_machine_status old) 3 (omega arith),
      return_machine_status-bit_of old,
      bit_of-lt old 7,
      bit_and-bit_of written (not32 0x20000) 3,
    )
sanitize_return old false = omega (
  arith,
  sanitize_mstatus-bit_of (return_machine_status old) 3 (omega arith),
  return_machine_status-bit_of old,
  bit_of-lt old 7,
)

pub ==-self : (x : ℕ) → (x == x) ≡ true
==-self x = ground arith

module _ (state : CpuSnapshot) (decoded : DecodedInstruction) (next_pc mstatus : ℕ)
    (privilege : PrivilegeMode) where
  abbrev machine_return : PendingCommit
  machine_return = (return_to decoded state next_pc Address.mstatus mstatus privilege).pending

  -- A return from machine mode to a mode that exists is not rejected.
  machine_return_accepted :
      state.privilege ≡ PrivilegeMode.machine
      → valid_privilege privilege ≡ true
      → rejects state machine_return true ≡ false
  unfolding return_to accept ready_commit rejects is_execute_ready validate_write
      csr_privilege_allows csr_minimum_privilege satp_access_trapped is_zicntr_address
      is_machine_identity_address is_writable_machine_address is_writable_supervisor_address
  machine_return_accepted in_machine legal = rw (in_machine, legal, ==-self state.pc) refl

  machine_return_commits :
      state.privilege ≡ PrivilegeMode.machine
      → valid_privilege privilege ≡ true
      → let committed = commit_pending state machine_return true in
        (committed.1 ≡ true)
        × (committed.0.pc ≡ next_pc)
        × (committed.0.privilege ≡ privilege)
        × (committed.0.machine_csrs.mstatus ≡ (
            if not (is_machine privilege)
            then bit_and (sanitize_mstatus mstatus) (not32 0x20000)
            else sanitize_mstatus mstatus))
  unfolding commit_pending commit_registers commit_csr write_validated write_machine clear_mprv
      return_to accept ready_commit
  machine_return_commits in_machine legal =
      rw (machine_return_accepted in_machine legal) (elim (Bool-cases (is_machine privilege)) [
        | inl e ↦ rw e (refl, refl, refl, refl)
        | inr e ↦ rw e (refl, refl, refl, refl)
      ])

mret_accepted :
    (state : CpuSnapshot) (decoded : DecodedInstruction)
    → decoded.kind ≡ Kind.mret
    → state.privilege ≡ PrivilegeMode.machine
    → execute_privileged decoded state
      ≡ return_to decoded state state.machine_csrs.mepc Address.mstatus
          (return_machine_status (sanitize_mstatus state.machine_csrs.mstatus))
          (previous_privilege (sanitize_mstatus state.machine_csrs.mstatus))
unfolding execute_privileged privileged_kind
mret_accepted state decoded is_mret in_machine =
    rw (is_mret, in_machine, previous_privilege_valid state.machine_csrs.mstatus) refl

-- MRET in machine mode is never refused and commits: it goes to `mepc` in the mode that `mstatus`
-- saved, and enables machine interrupts as `mstatus` saved them.
pub mret_committed :
    (state : CpuSnapshot) (decoded : DecodedInstruction)
    → decoded.kind ≡ Kind.mret
    → state.privilege ≡ PrivilegeMode.machine
    → let committed = commit_pending state (execute_privileged decoded state).pending true in
      (committed.1 ≡ true)
      × (committed.0.pc ≡ state.machine_csrs.mepc)
      × (committed.0.privilege ≡ previous_privilege (sanitize_mstatus state.machine_csrs.mstatus))
      × (bit_of committed.0.machine_csrs.mstatus 3
          ≡ bit_of (sanitize_mstatus state.machine_csrs.mstatus) 7)
mret_committed state decoded is_mret in_machine =
    let old : ℕ = sanitize_mstatus state.machine_csrs.mstatus in
    let done =
      machine_return_commits state decoded state.machine_csrs.mepc (return_machine_status old)
        (previous_privilege old) in_machine (previous_privilege_valid state.machine_csrs.mstatus) in
    rw (mret_accepted state decoded is_mret in_machine) (
      done.0,
      done.1,
      done.2,
      rw done.3 (sanitize_return old (not (is_machine (previous_privilege old)))),
    )

-- A trap that is not delegated, from a mode that exists, then MRET: the machine is back in the mode
-- of the trap at the trap's PC, made even, and its interrupts are enabled as before.
pub take_trap-mret :
    (state : CpuSnapshot) (request : TrapRequest) (decoded : DecodedInstruction)
    → valid_privilege state.privilege ≡ true
    → delegated state request.cause ≡ false
    → decoded.kind ≡ Kind.mret
    → let trapped = (take_trap state request).0 in
      let committed = commit_pending trapped (execute_privileged decoded trapped).pending true in
      (committed.1 ≡ true)
      × (committed.0.pc ≡ bit_and request.exception_pc (not32 1))
      × (committed.0.privilege ≡ state.privilege)
      × (bit_of committed.0.machine_csrs.mstatus 3 ≡ bit_of state.machine_csrs.mstatus 3)
unfolding take_trap take_machine_trap enter_machine
take_trap-mret state request decoded valid kept is_mret =
    let entered = enter_machine_status_lem state.machine_csrs.mstatus state.privilege valid in
    let fixed = enter_machine_status_fixed state.machine_csrs.mstatus state.privilege in
    let done = mret_committed (take_machine_trap state request) decoded is_mret refl in
    rw kept (
      done.0,
      done.1,
      done.2 ∙ ap previous_privilege fixed ∙ entered.2,
      done.3 ∙ rw fixed entered.1,
    )

-- No trap lowers the mode: from a mode that exists, an exception continues in that mode or a higher
-- one.
pub take_trap_raises :
    (state : CpuSnapshot) (request : TrapRequest)
    → valid_privilege state.privilege ≡ true
    → privilege_value state.privilege ≤ privilege_value (take_trap state request).0.privilege
unfolding take_trap take_machine_trap take_supervisor_trap enter_machine enter_supervisor delegated
    valid_privilege
take_trap_raises state request valid = ground arith
