-- ===== src/Rv32/Core/Step/Acceptance.antt =====
-- core32/src/core.cpp: what the units on registers yield, and the tests of `commit_pending`.
use risc_v_cpu_emulator.Prelude.{ℕ, ◌<◌, ◌≡◌, ◌≢◌, refl, arith, Bool, true, false, not}
use risc_v_cpu_emulator.Rv32.Types.{
  CpuSnapshot, InstructionKind as Kind, DecodedInstruction, PendingCommit,
}
use risc_v_cpu_emulator.Rv32.Csr.Address
use risc_v_cpu_emulator.Rv32.Csr.Access.{
  CsrAccessStatus, is_machine, is_user, csr_privilege_allows, csr_minimum_privilege,
  is_writable_machine_address, is_writable_supervisor_address, satp_access_trapped,
  is_zicntr_address, is_machine_identity_address,
}
use risc_v_cpu_emulator.Rv32.Csr.File.{validate_write}
use risc_v_cpu_emulator.Rv32.Trap.Privileged.{
  privileged_kind, refuse, accept, return_to, valid_privilege, trapped,
  supervisor_previous_privilege,
}
use risc_v_cpu_emulator.Rv32.Execute.Integer.{not_ready, ready_commit, execute_kind, integer_value}
use risc_v_cpu_emulator.Rv32.Execute.ControlFlow
use risc_v_cpu_emulator.Rv32.Commit.{rejects, is_execute_ready}
use risc_v_cpu_emulator.Rv32.Core.Dispatch.{
  execution_unit, Verdict, raises, yields, integer_verdict, privileged_verdict,
  control_flow_verdict,
}
use risc_v_cpu_emulator.Rv32.Core.Dispatch.Units.{number_of}

-- Whether the core traps, or commits what was yielded.
abbrev pub accepts : CpuSnapshot → Verdict → Bool
accepts state (raises cause trap_value fault) = true
accepts state (yields pending) = not (rejects state pending true)

module _ (state : CpuSnapshot) where
  machine_status_writable :
      is_machine state.privilege ≡ true
      → validate_write state Address.mstatus state.privilege ≡ CsrAccessStatus.ready
  unfolding validate_write csr_privilege_allows csr_minimum_privilege is_writable_machine_address
      is_writable_supervisor_address satp_access_trapped is_zicntr_address
      is_machine_identity_address
  machine_status_writable h = ground (arith, h)

  supervisor_status_writable :
      is_user state.privilege ≡ false
      → validate_write state Address.sstatus state.privilege ≡ CsrAccessStatus.ready
  unfolding validate_write csr_privilege_allows csr_minimum_privilege is_writable_machine_address
      is_writable_supervisor_address satp_access_trapped is_zicntr_address
      is_machine_identity_address
  supervisor_status_writable h = ground (arith, h)

module _ (decoded : DecodedInstruction) (state : CpuSnapshot) (in_rd : decoded.rd < 32) where
  pub integer_accepted :
      (kind : Kind) (immediate a b : ℕ)
      → number_of kind ≡ 0
      → kind ≢ Kind.illegal
      → accepts state (
          integer_verdict state state.pc
            (execute_kind kind decoded state.pc (integer_value kind immediate a b))
            (execute_kind kind decoded state.pc (integer_value kind immediate a b)).status)
        ≡ true
  unfolding execution_unit execute_kind integer_value integer_verdict is_execute_ready ready_commit
      not_ready rejects
  integer_accepted Kind.illegal immediate a b h valid = absurd (valid refl)
  integer_accepted _ immediate a b h valid = ground (arith, h)

  pub control_flow_accepted :
      (kind : Kind) (a b : ℕ) (old : PendingCommit)
      → number_of kind ≡ 2
      → accepts state (
          control_flow_verdict old
            (ControlFlow.control_flow_kind decoded state.pc kind a b)
            (ControlFlow.control_flow_kind decoded state.pc kind a b).status)
        ≡ true
  unfolding execution_unit ControlFlow.control_flow_kind ControlFlow.refuse ControlFlow.branch_on
      ControlFlow.finish_target ControlFlow.continue_at control_flow_verdict is_execute_ready
      ready_commit rejects
  control_flow_accepted Kind.illegal a b old h = absurd (omega (arith, h))
  control_flow_accepted _ a b old h = ground (arith, h)

  pub privileged_accepted :
      (kind : Kind) (status : ℕ) (old : PendingCommit)
      → number_of kind ≡ 1
      → accepts state (
          privileged_verdict old
            (privileged_kind decoded state kind status)
            (privileged_kind decoded state kind status).status)
        ≡ true
  unfolding execution_unit privileged_kind refuse accept return_to privileged_verdict trapped
      is_execute_ready ready_commit rejects valid_privilege supervisor_previous_privilege
  privileged_accepted Kind.illegal status old h = absurd (omega (arith, h))
  privileged_accepted Kind.mret status old h = ground (arith, machine_status_writable state)
  privileged_accepted _ status old h = ground (arith, h, supervisor_status_writable state)
