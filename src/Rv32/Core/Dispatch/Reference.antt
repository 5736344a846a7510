-- ===== src/Rv32/Core/Dispatch/Reference.antt =====
-- core32/src/core.cpp, `Core::step`: one execution unit alone, for the search to be compared with.
use risc_v_cpu_emulator.Prelude.{ℕ}
use risc_v_cpu_emulator.Common.Bus.{CpuBus}
use risc_v_cpu_emulator.Rv32.Types.{CpuSnapshot, DecodedInstruction, ExecuteStatus, PendingCommit}
use risc_v_cpu_emulator.Rv32.Trap.Privileged.{execute_privileged}
use risc_v_cpu_emulator.Rv32.Execute.Integer.{not_ready, execute_decoded}
use risc_v_cpu_emulator.Rv32.Execute.ControlFlow.{execute_control_flow}
use risc_v_cpu_emulator.Rv32.Mmu.Space.{AddressSpace}
use risc_v_cpu_emulator.Rv32.Execute.Memory.{execute_memory}
use risc_v_cpu_emulator.Rv32.Execute.Atomic.{execute_atomic}
use risc_v_cpu_emulator.Rv32.Commit.{execute_csr}
use risc_v_cpu_emulator.Rv32.Core.Dispatch.{
  ExecutionUnit, integer, privileged, control_flow, atomic, csr, memory, Progress, integer_verdict,
  privileged_verdict, control_flow_verdict, atomic_verdict, csr_verdict, memory_verdict,
}

-- One unit alone, as the processor's manual has it.
-- The result before a unit has completed.
abbrev pub not_yet : DecodedInstruction → ℕ → PendingCommit
not_yet decoded pc = not_ready ExecuteStatus.unsupported_instruction pc decoded.raw

module _ {B : Type 0} (ops : CpuBus B) (state : CpuSnapshot) (decoded : DecodedInstruction)
    (pc instruction a b : ℕ) where
  unfoldable pub run_unit : ExecutionUnit → B → AddressSpace → Progress B
  run_unit integer bus space =
      let pending = execute_decoded decoded pc a b in
      record { bus = bus; space = space; verdict = integer_verdict state pc pending pending.status }
  run_unit privileged bus space =
      let result = execute_privileged decoded state in
      record {
        bus = bus;
        space = space;
        verdict = privileged_verdict (not_yet decoded pc) result result.status;
      }
  run_unit control_flow bus space =
      let result = execute_control_flow decoded pc a b in
      record {
        bus = bus;
        space = space;
        verdict = control_flow_verdict (not_yet decoded pc) result result.status;
      }
  run_unit atomic bus space =
      let outcome = execute_atomic ops decoded pc state.hart_id a b space bus in
      record {
        bus = outcome.bus;
        space = outcome.space;
        verdict = atomic_verdict (not_yet decoded pc) outcome.result outcome.result.status;
      }
  run_unit csr bus space =
      let result = execute_csr state (ops.read_time bus) decoded state.privilege pc a in
      record {
        bus = bus;
        space = space;
        verdict = csr_verdict (not_yet decoded pc) result result.status;
      }
  run_unit memory bus space =
      let outcome = execute_memory ops space bus decoded pc a b in
      record {
        bus = outcome.bus;
        space = outcome.space;
        verdict = memory_verdict instruction outcome.result outcome.result.status;
      }
