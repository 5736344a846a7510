-- ===== src/Rv32/Core/Dispatch/Units.antt =====
-- core32/src/core.cpp: each execution unit on its own kinds and on the others.
use risc_v_cpu_emulator.Prelude.{ℕ, ◌≡◌, ◌≢◌, refl, arith, Bool, true}
use risc_v_cpu_emulator.Rv32.Types.{
  CpuSnapshot, InstructionKind as Kind, DecodedInstruction, ExecuteStatus, PendingCommit,
}
use risc_v_cpu_emulator.Rv32.Trap.Privileged.{
  PrivilegedExecutionStatus, privileged_kind, refuse, accept, return_to,
}
use risc_v_cpu_emulator.Rv32.Execute.Integer.{not_ready, ready_commit, execute_kind, integer_value}
use risc_v_cpu_emulator.Rv32.Execute.ControlFlow
use risc_v_cpu_emulator.Rv32.Execute.Memory.{no_access, memory_plan}
use risc_v_cpu_emulator.Rv32.Execute.Atomic.{no_atomic, atomic_plan}
use risc_v_cpu_emulator.Rv32.Commit.{not_csr, csr_plan, is_execute_ready}
use risc_v_cpu_emulator.Rv32.Core.Dispatch.{
  execution_unit, unit_number, Verdict, raises, yields, integer_verdict, privileged_verdict,
  control_flow_verdict,
}

-- Whether a verdict ends the search: a trap, or a ready result.
abbrev pub is_done : Verdict → Bool
is_done (raises cause trap_value fault) = true
is_done (yields pending) = is_execute_ready pending.status

abbrev pub number_of : Kind → ℕ
number_of kind = unit_number (execution_unit kind)

module _ (decoded : DecodedInstruction) (state : CpuSnapshot) (pc : ℕ) where
  pub integer_refuses :
      (kind : Kind) (immediate a b : ℕ)
      → number_of kind ≢ 0
      → execute_kind kind decoded pc (integer_value kind immediate a b)
        ≡ not_ready ExecuteStatus.unsupported_instruction pc decoded.raw
  unfolding execution_unit execute_kind integer_value
  integer_refuses Kind.illegal immediate a b h = refl
  integer_refuses _ immediate a b h = ground (arith, h)

  pub integer_completes :
      (kind : Kind) (immediate a b : ℕ)
      → number_of kind ≡ 0
      → kind ≢ Kind.illegal
      → is_done (
          integer_verdict state pc
            (execute_kind kind decoded pc (integer_value kind immediate a b))
            (execute_kind kind decoded pc (integer_value kind immediate a b)).status)
        ≡ true
  unfolding execution_unit execute_kind integer_value integer_verdict is_execute_ready ready_commit
      not_ready
  integer_completes Kind.illegal immediate a b h valid = absurd (valid refl)
  integer_completes _ immediate a b h valid = ground (arith, h)

  pub privileged_refuses :
      (kind : Kind) (status : ℕ)
      → number_of kind ≢ 1
      → privileged_kind decoded state kind status
        ≡ refuse decoded state PrivilegedExecutionStatus.not_privileged_instruction 0
  unfolding execution_unit privileged_kind
  privileged_refuses Kind.illegal status h = refl
  privileged_refuses _ status h = ground (arith, h)

  pub privileged_completes :
      (kind : Kind) (status : ℕ) (old : PendingCommit)
      → number_of kind ≡ 1
      → is_done (
          privileged_verdict old
            (privileged_kind decoded state kind status)
            (privileged_kind decoded state kind status).status)
        ≡ true
  unfolding execution_unit privileged_kind refuse accept return_to privileged_verdict
      is_execute_ready ready_commit
  privileged_completes Kind.illegal status old h = absurd (omega (arith, h))
  privileged_completes _ status old h = ground (arith, h)

  pub control_flow_refuses :
      (kind : Kind) (a b : ℕ)
      → number_of kind ≢ 2
      → ControlFlow.control_flow_kind decoded pc kind a b
        ≡ ControlFlow.refuse decoded pc ControlFlow.ControlFlowStatus.not_control_flow_instruction 0
  unfolding execution_unit ControlFlow.control_flow_kind
  control_flow_refuses Kind.illegal a b h = refl
  control_flow_refuses _ a b h = ground (arith, h)

  pub control_flow_completes :
      (kind : Kind) (a b : ℕ) (old : PendingCommit)
      → number_of kind ≡ 2
      → is_done (
          control_flow_verdict old
            (ControlFlow.control_flow_kind decoded pc kind a b)
            (ControlFlow.control_flow_kind decoded pc kind a b).status)
        ≡ true
  unfolding execution_unit ControlFlow.control_flow_kind ControlFlow.refuse ControlFlow.branch_on
      ControlFlow.finish_target ControlFlow.continue_at control_flow_verdict is_execute_ready
      ready_commit
  control_flow_completes Kind.illegal a b old h = absurd (omega (arith, h))
  control_flow_completes _ a b old h = ground (arith, h)

pub atomic_refuses : (kind : Kind) → number_of kind ≢ 3 → atomic_plan kind ≡ no_atomic
unfolding execution_unit atomic_plan
atomic_refuses Kind.illegal h = refl
atomic_refuses _ h = ground (arith, h)

pub csr_refuses :
    (kind : Kind) (decoded : DecodedInstruction) (a : ℕ)
    → number_of kind ≢ 4
    → csr_plan kind decoded a ≡ not_csr
unfolding execution_unit csr_plan
csr_refuses Kind.illegal decoded a h = refl
csr_refuses _ decoded a h = ground (arith, h)

pub memory_refuses : (kind : Kind) → number_of kind ≢ 5 → memory_plan kind ≡ no_access
unfolding execution_unit memory_plan
memory_refuses Kind.illegal h = refl
memory_refuses _ h = ground (arith, h)
