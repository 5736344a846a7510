-- ===== src/Rv32/Core/Dispatch/Stages.antt =====
-- core32/src/core.cpp: the stages of the search for a unit, one by one.
use risc_v_cpu_emulator.Prelude.{ℕ, ◌≡◌, ◌≢◌, refl, arith, Bool, true, false}
use risc_v_cpu_emulator.Common.Bus.{CpuBus}
use risc_v_cpu_emulator.Rv32.Types.{CpuSnapshot, DecodedInstruction, PendingCommit}
use risc_v_cpu_emulator.Rv32.Csr.Access.{sanitize_mstatus}
use risc_v_cpu_emulator.Rv32.Trap.Privileged.{execute_privileged, refuse}
use risc_v_cpu_emulator.Rv32.Execute.ControlFlow.{ControlFlowResult, execute_control_flow}
use risc_v_cpu_emulator.Rv32.Execute.ControlFlow
use risc_v_cpu_emulator.Rv32.Execute.Atomic.{execute_atomic, run_atomic, not_atomic, atomic_failure}
use risc_v_cpu_emulator.Rv32.Commit.{execute_csr, csr_run, csr_refuse, is_execute_ready}
use risc_v_cpu_emulator.Rv32.Core.Dispatch.{
  Verdict, raises, yields, Progress, privileged_verdict, control_flow_verdict, atomic_verdict,
  csr_verdict, run_privileged, run_control_flow, run_atomic_unit, run_csr_unit, stage_from,
}
use risc_v_cpu_emulator.Rv32.Core.Dispatch.Units.{
  is_done, number_of, privileged_refuses, control_flow_refuses, atomic_refuses, csr_refuses,
}

module _ {B : Type 0} (tried : Bool) (run : PendingCommit → Progress B)
    (progress : Progress B) where
  pub stage_done : (v : Verdict) → is_done v ≡ true → stage_from tried run progress v ≡ progress
  unfolding stage_from
  stage_done (raises cause value fault) h = refl
  stage_done (yields pending) h = ground (arith, h)

  stage_kept :
      (v : Verdict)
      → ((old : PendingCommit) → v ≡ yields old → run old ≡ progress)
      → stage_from tried run progress v ≡ progress
  unfolding stage_from
  stage_kept (raises cause value fault) h = refl
  stage_kept (yields pending) h = ground (arith, h pending refl)

  pub stage_runs :
      (pending : PendingCommit)
      → is_execute_ready pending.status ≡ false
      → tried ≡ true
      → stage_from tried run progress (yields pending) ≡ run pending
  unfolding stage_from
  stage_runs pending h t = ground (arith, h, t)

module _ {B : Type 0} (ops : CpuBus B) (reference : Bool) (state : CpuSnapshot)
    (decoded : DecodedInstruction) (pc instruction a b : ℕ) where
  pub privileged_passes :
      (progress : Progress B)
      → number_of decoded.kind ≢ 1
      → run_privileged ops reference state decoded pc instruction a b progress ≡ progress
  unfolding run_privileged execute_privileged privileged_verdict refuse
  privileged_passes progress h = stage_kept _ _ progress progress.verdict λ old e. ground (
    arith,
    e,
    privileged_refuses decoded state pc decoded.kind (sanitize_mstatus state.machine_csrs.mstatus)
        h,
  )

  pub control_flow_passes :
      (progress : Progress B)
      → number_of decoded.kind ≢ 2
      → run_control_flow ops reference state decoded pc instruction a b progress ≡ progress
  unfolding run_control_flow execute_control_flow control_flow_verdict ControlFlow.refuse
  control_flow_passes progress h =
      stage_kept _ _ progress progress.verdict
        λ old e. ground (arith, e, control_flow_refuses decoded state pc decoded.kind a b h)

  pub atomic_passes :
      (progress : Progress B)
      → number_of decoded.kind ≢ 3
      → run_atomic_unit ops reference state decoded pc instruction a b progress ≡ progress
  unfolding run_atomic_unit execute_atomic run_atomic not_atomic atomic_failure atomic_verdict
  atomic_passes progress h =
      stage_kept _ _ progress progress.verdict
        λ old e. ground (arith, e, atomic_refuses decoded.kind h)

  pub csr_passes :
      (progress : Progress B)
      → number_of decoded.kind ≢ 4
      → run_csr_unit ops reference state decoded pc instruction a b progress ≡ progress
  unfolding run_csr_unit execute_csr csr_run csr_refuse csr_verdict
  csr_passes progress h =
      stage_kept _ _ progress progress.verdict
        λ old e. ground (arith, e, csr_refuses decoded.kind decoded a h)
