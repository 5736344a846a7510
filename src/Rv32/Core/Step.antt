-- ===== src/Rv32/Core/Step.antt =====
-- core32/src/core.cpp: `Core`, its reset and its step. The performance counters are left out.
pub mod Acceptance
pub mod BusUnits
pub mod Soundness
pub mod Liveness
pub mod Invariant
pub mod Reachable
use risc_v_cpu_emulator.Prelude.{
  ℕ, bit_and, true, false, not, ◌&&◌, ◌==◌, if◌then◌else◌, none, some, set,
}
use risc_v_cpu_emulator.Common.Bus.{BusFault, CpuBus}
use risc_v_cpu_emulator.Rv32.Types.{IrqLines, DecodedInstruction, PendingCommit}
use risc_v_cpu_emulator.Rv32.Trap.Entry.{
  ExceptionCause, TrapRequest, take_trap, take_interrupt_trap,
}
use risc_v_cpu_emulator.Rv32.Interrupt.{
  sample_interrupt_lines, interrupt_wake_requested, select_pending_interrupt,
}
use risc_v_cpu_emulator.Rv32.Mmu.Tlb
use risc_v_cpu_emulator.Rv32.Mmu.Space.{AddressSpace}
use risc_v_cpu_emulator.Rv32.Frontend.DecodeCache.{clear_decoded}
use risc_v_cpu_emulator.Rv32.Frontend.InstructionCache
use risc_v_cpu_emulator.Rv32.Frontend.Fetch.{FrontendStatus, FrontendResult, fetch_decode}
use risc_v_cpu_emulator.Rv32.Commit.{commit_pending}
use risc_v_cpu_emulator.Rv32.Core.Hart.{
  StepStatus, CommitTrace, no_commit, StepResult, Hart, is_reference, is_waiting, step_result,
  machine_of, space_tlb, fetched, is_sfence, is_fence_i, register_value,
}
use risc_v_cpu_emulator.Rv32.Core.Dispatch.{Verdict, raises, yields, dispatch}

module _ {B : Type 0} where
  -- The lambda `trap`.
  unfoldable pub trap :
      Hart B → FrontendResult → ExceptionCause → ℕ → BusFault → Hart B × StepResult
  trap hart frontend cause trap_value bus_fault =
      let request : TrapRequest = record {
        cause = cause;
        exception_pc = frontend.pc;
        trap_value = trap_value;
      } in
      (
        record hart { state = (take_trap hart.state request).0 },
        step_result StepStatus.trap_taken frontend.pc frontend.instruction trap_value bus_fault
            (take_trap hart.state request).0.cycle no_commit,
      )

  -- What SFENCE.VMA and FENCE.I do to the TLB and the caches, after the commit.
  unfoldable pub fence_caches : Hart B → DecodedInstruction → (rs1_value rs2_value : ℕ) → Hart B
  fence_caches hart decoded rs1_value rs2_value =
      let virtual_address = if decoded.rs1 == 0 then none else some rs1_value in
      let asid = if decoded.rs2 == 0 then none else some (bit_and rs2_value 0x1FF) in
      if is_sfence decoded.kind
      then record hart {
        tlb = Tlb.sfence_vma hart.tlb virtual_address asid;
        instruction_cache = InstructionCache.sfence_vma hart.instruction_cache virtual_address asid;
      }
      else if is_fence_i decoded.kind
      then record hart {
        decode_cache = clear_decoded;
        instruction_cache = InstructionCache.clear hart.instruction_cache;
      }
      else hart

  -- The commit and what follows it.
  unfoldable pub retire :
      Hart B → FrontendResult → PendingCommit → (rs1_value rs2_value : ℕ) → Hart B × StepResult
  retire hart frontend pending rs1_value rs2_value =
      let committed = commit_pending hart.state pending true in
      let new = record hart { state = committed.0 } in
      let write = pending.register_write in
      let commit : CommitTrace = record {
        valid = true;
        privilege = hart.state.privilege;
        pc = pending.pc;
        instruction = pending.instruction;
        next_pc = committed.0.pc;
        instruction_length = frontend.decoded.length;
        register_write = record {
          enabled = write.enabled && not (write.index == 0);
          index = write.index;
          value = write.value;
        };
      } in
      if not committed.1
      then (
        new,
        step_result StepStatus.core_not_implemented frontend.pc frontend.instruction
            frontend.instruction BusFault.no_fault committed.0.cycle no_commit,
      )
      else (
        fence_caches new frontend.decoded rs1_value rs2_value,
        step_result
            (if is_waiting committed.0
              then StepStatus.waiting_for_interrupt
              else StepStatus.retired)
            frontend.pc frontend.instruction 0 BusFault.no_fault committed.0.cycle commit,
      )

  -- The trap or the commit that the units lead to.
  unfoldable pub act_on :
      Hart B → FrontendResult → (rs1_value rs2_value : ℕ) → Verdict → Hart B × StepResult
  act_on hart frontend rs1_value rs2_value (raises cause trap_value fault) =
      trap hart frontend cause trap_value fault
  act_on hart frontend rs1_value rs2_value (yields pending) =
      retire hart frontend pending rs1_value rs2_value

  -- The members after the sampling of the lines.
  unfoldable pub sampled : Hart B → IrqLines → Hart B
  sampled hart irq_lines = record hart {
    sampled_irq_lines = irq_lines;
    state =
        sample_interrupt_lines (record hart.state { registers = set hart.state.registers 0 0 })
          irq_lines;
  }

module _ {B : Type 0} (ops : CpuBus B) where
  -- The units, and the trap or the commit that they lead to.
  unfoldable pub execute : Hart B → AddressSpace → FrontendResult → Hart B × StepResult
  execute hart space frontend =
      let rs1_value = register_value hart.state frontend.decoded.rs1 in
      let rs2_value = register_value hart.state frontend.decoded.rs2 in
      let progress =
        dispatch ops (is_reference hart.execution_mode) hart.state frontend.decoded frontend.pc
          frontend.instruction rs1_value rs2_value hart.bus space in
      let new = record hart { bus = progress.bus; tlb = space_tlb hart.tlb progress.space } in
      act_on new frontend rs1_value rs2_value progress.verdict

  unfoldable pub after_fetch :
      Hart B → AddressSpace → FrontendResult → FrontendStatus → Hart B × StepResult
  after_fetch hart space frontend FrontendStatus.illegal_instruction =
      trap hart frontend ExceptionCause.illegal_instruction frontend.trap_value frontend.bus_fault
  after_fetch hart space frontend FrontendStatus.instruction_access_fault =
      trap hart frontend ExceptionCause.instruction_access_fault frontend.trap_value
        frontend.bus_fault
  after_fetch hart space frontend FrontendStatus.instruction_page_fault =
      trap hart frontend ExceptionCause.instruction_page_fault frontend.trap_value
        frontend.bus_fault
  after_fetch hart space frontend FrontendStatus.instruction_address_misaligned =
      trap hart frontend ExceptionCause.instruction_address_misaligned frontend.trap_value
        frontend.bus_fault
  after_fetch hart space frontend FrontendStatus.ready = execute hart space frontend

  unfoldable pub run_instruction : Hart B → Hart B × StepResult
  run_instruction hart =
      let answer = fetch_decode ops (machine_of hart) hart.state.pc in
      after_fetch (fetched hart answer.0) answer.0.space answer.1 answer.1.status

  -- The interrupt to take, or the next instruction.
  unfoldable pub step_awake : Hart B → Hart B × StepResult
  step_awake hart =
      let interrupt = select_pending_interrupt hart.state in
      let pc = hart.state.pc in
      let entered =
        take_interrupt_trap hart.state (record { cause = interrupt.cause; interrupted_pc = pc })
          interrupt.target in
      let executed = run_instruction hart in
      if interrupt.pending
      then (
        record hart { state = entered },
        step_result StepStatus.trap_taken pc 0 0 BusFault.no_fault entered.cycle no_commit,
      )
      else executed

  unfoldable pub step : Hart B → IrqLines → Hart B × StepResult
  step hart irq_lines =
      let ready = sampled hart irq_lines in
      let awake = record ready { state = record ready.state { waiting_for_interrupt = false } } in
      let stepped = step_awake awake in
      if is_waiting ready.state && not (interrupt_wake_requested ready.state)
      then (
        ready,
        step_result StepStatus.waiting_for_interrupt ready.state.pc 0 0 BusFault.no_fault
            ready.state.cycle no_commit,
      )
      else stepped
