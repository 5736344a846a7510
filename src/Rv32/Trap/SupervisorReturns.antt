-- ===== src/Rv32/Trap/SupervisorReturns.antt =====
-- A trap that is delegated to supervisor mode, then SRET.
use risc_v_cpu_emulator.Prelude.{
  ℕ, ◌^◌, ◌≡◌, refl, ap, ◌∙◌, inl, inr, Bool-cases, arith, bit_and, ◌==◌, false, true,
  if◌then◌else◌,
}
use risc_v_cpu_emulator.Words.{not32, has_bits}
use risc_v_cpu_emulator.Words.Bits.{bit_of}
use risc_v_cpu_emulator.Rv32.Types.{
  PrivilegeMode, CpuSnapshot, PendingCommit, DecodedInstruction, InstructionKind as Kind,
}
use risc_v_cpu_emulator.Rv32.Csr.Address
use risc_v_cpu_emulator.Rv32.Csr.Bits.{status_spp, supervisor_view}
use risc_v_cpu_emulator.Rv32.Csr.Access.{
  is_machine, is_supervisor, sanitize_mstatus, csr_privilege_allows, csr_minimum_privilege,
  satp_access_trapped, is_zicntr_address, is_machine_identity_address, is_writable_machine_address,
  is_writable_supervisor_address,
}
use risc_v_cpu_emulator.Rv32.Csr.File.{validate_write, write_validated, merge}
use risc_v_cpu_emulator.Rv32.Trap.Entry.{
  TrapRequest, take_trap, take_supervisor_trap, enter_supervisor, enter_supervisor_status,
  delegated,
}
use risc_v_cpu_emulator.Rv32.Trap.Privileged.{
  valid_privilege, supervisor_previous_privilege, execute_privileged, privileged_kind, return_to,
  accept, trapped, return_supervisor_status,
}
use risc_v_cpu_emulator.Rv32.Trap.Status.{has_bits-bit_of, enter_supervisor_status_fixed}
use risc_v_cpu_emulator.Rv32.Trap.Returns.{==-self}
use risc_v_cpu_emulator.Rv32.Execute.Integer.{ready_commit}
use risc_v_cpu_emulator.Rv32.Commit.{
  commit_pending, rejects, is_execute_ready, commit_registers, commit_csr, clear_mprv,
}
use risc_v_cpu_emulator.Rv32.Trap.SupervisorStatus.{
  enter_supervisor_status_lem, supervisor_previous_privilege-bit_of, restored_sie,
}

module _ (state : CpuSnapshot) (decoded : DecodedInstruction)
    (in_supervisor : state.privilege ≡ PrivilegeMode.supervisor) where
  abbrev supervisor_return : (next_pc mstatus : ℕ) → PrivilegeMode → PendingCommit
  supervisor_return next_pc mstatus privilege =
      (return_to decoded state next_pc Address.sstatus mstatus privilege).pending

  supervisor_return_accepted :
      (next_pc mstatus : ℕ) (privilege : PrivilegeMode)
      → valid_privilege privilege ≡ true
      → rejects state (supervisor_return next_pc mstatus privilege) true ≡ false
  unfolding return_to accept ready_commit rejects is_execute_ready validate_write
      csr_privilege_allows csr_minimum_privilege satp_access_trapped is_zicntr_address
      is_machine_identity_address is_writable_machine_address is_writable_supervisor_address
  supervisor_return_accepted next_pc mstatus privilege legal =
      rw (in_supervisor, legal, ==-self state.pc) refl

  supervisor_return_commits :
      (next_pc mstatus : ℕ) (privilege : PrivilegeMode)
      → valid_privilege privilege ≡ true
      → is_machine privilege ≡ false
      → let committed = commit_pending state (supervisor_return next_pc mstatus privilege) true in
        (committed.1 ≡ true)
        × (committed.0.pc ≡ next_pc)
        × (committed.0.privilege ≡ privilege)
        × (committed.0.machine_csrs.mstatus
            ≡ bit_and
                (sanitize_mstatus (merge supervisor_view state.machine_csrs.mstatus mstatus))
                (not32 0x20000))
  unfolding commit_pending commit_registers commit_csr write_validated clear_mprv return_to accept
      ready_commit
  supervisor_return_commits next_pc mstatus privilege legal lower =
      rw (supervisor_return_accepted next_pc mstatus privilege legal)
        (rw lower (refl, refl, refl, refl))

  sret_accepted :
      decoded.kind ≡ Kind.sret
      → bit_of (sanitize_mstatus state.machine_csrs.mstatus) 22 ≡ 0
      → execute_privileged decoded state
        ≡ return_to decoded state state.supervisor_csrs.sepc Address.sstatus
            (return_supervisor_status (sanitize_mstatus state.machine_csrs.mstatus))
            (supervisor_previous_privilege (sanitize_mstatus state.machine_csrs.mstatus))
  unfolding execute_privileged privileged_kind trapped
  sret_accepted is_sret untrapped =
      let open_test : has_bits (sanitize_mstatus state.machine_csrs.mstatus) (2 ^ 22) ≡ false =
        ground (arith, has_bits-bit_of (sanitize_mstatus state.machine_csrs.mstatus) 22) in
      rw (is_sret, in_supervisor, open_test) refl

-- The mode that SPP names is no machine mode.
spp_mode :
    (mstatus : ℕ)
    → (valid_privilege (supervisor_previous_privilege mstatus) ≡ true)
      × (is_machine (supervisor_previous_privilege mstatus) ≡ false)
unfolding valid_privilege supervisor_previous_privilege
spp_mode mstatus = elim (Bool-cases (has_bits mstatus status_spp)) [
  | inl e ↦ rw e (refl, refl)
  | inr e ↦ rw e (refl, refl)
]

-- SRET in supervisor mode, where TSR does not trap it, commits: it goes to `sepc` in the mode that
-- `mstatus` saved, and enables supervisor interrupts as `mstatus` saved them.
pub sret_committed :
    (state : CpuSnapshot) (decoded : DecodedInstruction)
    → decoded.kind ≡ Kind.sret
    → state.privilege ≡ PrivilegeMode.supervisor
    → bit_of (sanitize_mstatus state.machine_csrs.mstatus) 22 ≡ 0
    → let committed = commit_pending state (execute_privileged decoded state).pending true in
      (committed.1 ≡ true)
      × (committed.0.pc ≡ state.supervisor_csrs.sepc)
      × (committed.0.privilege
          ≡ supervisor_previous_privilege (sanitize_mstatus state.machine_csrs.mstatus))
      × (bit_of committed.0.machine_csrs.mstatus 1
          ≡ bit_of (sanitize_mstatus state.machine_csrs.mstatus) 5)
sret_committed state decoded is_sret in_supervisor untrapped =
    let old : ℕ = sanitize_mstatus state.machine_csrs.mstatus in
    let mode = spp_mode old in
    let done =
      supervisor_return_commits state decoded in_supervisor state.supervisor_csrs.sepc
        (return_supervisor_status old) (supervisor_previous_privilege old) mode.0 mode.1 in
    rw (sret_accepted state decoded in_supervisor is_sret untrapped)
      (done.0, done.1, done.2, rw done.3 (restored_sie state.machine_csrs.mstatus old))

lower_mode :
    (state : CpuSnapshot) (request : TrapRequest)
    → valid_privilege state.privilege ≡ true
    → delegated state request.cause ≡ true
    → (if (if is_supervisor state.privilege then 1 else 0) == 1
        then PrivilegeMode.supervisor
        else PrivilegeMode.user)
      ≡ state.privilege
unfolding valid_privilege delegated
lower_mode state request valid delegates = ground (arith, valid, delegates)

-- A delegated trap, from a mode that exists and where TSR is clear, then SRET: the machine is back in
-- the mode of the trap at the trap's PC, made even, and supervisor interrupts are enabled as before.
pub take_trap-sret :
    (state : CpuSnapshot) (request : TrapRequest) (decoded : DecodedInstruction)
    → valid_privilege state.privilege ≡ true
    → delegated state request.cause ≡ true
    → bit_of state.machine_csrs.mstatus 22 ≡ 0
    → decoded.kind ≡ Kind.sret
    → let entered = (take_trap state request).0 in
      let committed = commit_pending entered (execute_privileged decoded entered).pending true in
      (committed.1 ≡ true)
      × (committed.0.pc ≡ bit_and request.exception_pc (not32 1))
      × (committed.0.privilege ≡ state.privilege)
      × (bit_of committed.0.machine_csrs.mstatus 1 ≡ bit_of state.machine_csrs.mstatus 1)
unfolding take_trap take_supervisor_trap enter_supervisor
take_trap-sret state request decoded valid delegates untrapped is_sret =
    let digits = enter_supervisor_status_lem state.machine_csrs.mstatus state.privilege in
    let fixed = enter_supervisor_status_fixed state.machine_csrs.mstatus state.privilege in
    let done =
      sret_committed (take_supervisor_trap state request) decoded is_sret refl
        (rw fixed (digits.3 ∙ untrapped)) in
    let same_mode : supervisor_previous_privilege
          (enter_supervisor_status state.machine_csrs.mstatus state.privilege)
        ≡ state.privilege =
      rw
        (
          supervisor_previous_privilege-bit_of
              (enter_supervisor_status state.machine_csrs.mstatus state.privilege),
          digits.2,
        )
        (lower_mode state request valid delegates) in
    rw delegates (
      done.0,
      done.1,
      done.2 ∙ ap supervisor_previous_privilege fixed ∙ same_mode,
      done.3 ∙ rw fixed digits.1,
    )
