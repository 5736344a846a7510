-- ===== src/Rv32/Core/Step/Liveness.antt =====
-- core32/src/core.cpp: the parts of a step composed, from the fetch on.
use risc_v_cpu_emulator.Prelude.{
  ℕ, ◌≡◌, refl, arith, true, false, not, ◌&&◌, Option, none, some, inl, inr, Bool-cases,
}
use risc_v_cpu_emulator.Common.Bus.{CpuBus}
use risc_v_cpu_emulator.Rv32.Types.{IrqLines, PrivilegeMode, CpuSnapshot}
use risc_v_cpu_emulator.Rv32.Csr.Access.{is_user}
use risc_v_cpu_emulator.Rv32.Trap.Entry.{
  InterruptTrapRequest, TrapTarget, take_interrupt_trap, enter_machine, enter_supervisor,
}
use risc_v_cpu_emulator.Rv32.Interrupt.{
  sample_interrupt_lines, select_pending_interrupt, interrupt_wake_requested,
}
use risc_v_cpu_emulator.Rv32.Mmu.Space.{AddressSpace}
use risc_v_cpu_emulator.Rv32.Frontend.InstructionCache.{InstructionCache}
use risc_v_cpu_emulator.Rv32.Frontend.DecodeCache.{DecodeCache}
use risc_v_cpu_emulator.Rv32.Frontend.Fetch.{FrontendStatus, FrontendResult, Machine, fetch_decode}
use risc_v_cpu_emulator.Rv32.Frontend.Decoding.{IsFaithful, clear_decoded-IsFaithful}
use risc_v_cpu_emulator.Rv32.Frontend.Lines.{IsLine, AreLines, clear-AreLines}
use risc_v_cpu_emulator.Rv32.Frontend.Soundness.{
  AreDecoded, AreCached, IsSound, IsFetched, fetch_decode-IsSound,
}
use risc_v_cpu_emulator.Rv32.Core.Dispatch.{execution_unit}
use risc_v_cpu_emulator.Rv32.Core.Dispatch.Modes.{dispatch-run_unit}
use risc_v_cpu_emulator.Rv32.Core.Hart.{
  ExecutionMode, Hart, is_waiting, machine_of, machine_in, reset, fetched, or_old, is_reference,
  step_result, register_value,
}
use risc_v_cpu_emulator.Rv32.Core.Step.{
  execute, after_fetch, run_instruction, step_awake, sampled, step,
}
use risc_v_cpu_emulator.Rv32.Core.Step.Soundness.{
  Outcome, IsSoundHart, IsProgress, valid_kind, run_unit_accepted, trap-IsProgress,
  act_on-IsProgress,
}

or_old-IsFaithful :
    (old : DecodeCache) (new : Option DecodeCache)
    → IsFaithful old
    → AreDecoded new
    → IsFaithful (or_old old new)
unfolding or_old
or_old-IsFaithful old none h k = h
or_old-IsFaithful old (some new) h k = k

or_old-AreLines :
    (old : InstructionCache) (new : Option InstructionCache)
    → AreLines old
    → AreCached new
    → AreLines (or_old old new)
unfolding or_old
or_old-AreLines old none h k = h
or_old-AreLines old (some new) h k = k

-- An interrupt is taken in a privileged mode, and nothing is retired.
take_interrupt_trap_enters :
    (state : CpuSnapshot) (request : InterruptTrapRequest) (target : TrapTarget)
    → ((take_interrupt_trap state request target).instructions_retired ≡ state.instructions_retired)
      × (is_user (take_interrupt_trap state request target).privilege ≡ false)
      × (is_waiting (take_interrupt_trap state request target) ≡ false)
unfolding take_interrupt_trap enter_machine enter_supervisor
take_interrupt_trap_enters state request TrapTarget.machine = (refl, refl, refl)
take_interrupt_trap_enters state request TrapTarget.supervisor = (refl, refl, refl)

module _ {B : Type 0} where
  waits :
      (ready : Hart B)
      → (is_waiting ready.state && not (interrupt_wake_requested ready.state)) ≡ true
      → is_waiting ready.state ≡ true
  waits ready e = ground (arith, e)

  machine_in-IsSound :
      (mode : ExecutionMode) (hart : Hart B) → IsSoundHart hart → IsSound (machine_in mode hart)
  unfolding machine_in
  machine_in-IsSound ExecutionMode.reference hart h = record {
    in_decode_cache = tt;
    in_instruction_cache = tt;
  }
  machine_in-IsSound ExecutionMode.fast hart h = record {
    in_decode_cache = h.in_decode_cache;
    in_instruction_cache = h.in_instruction_cache;
  }

  fetched-IsSoundHart :
      (hart : Hart B) (machine : Machine B)
      → IsSoundHart hart
      → IsSound machine
      → IsSoundHart (fetched hart machine)
  unfolding fetched
  fetched-IsSoundHart hart machine h k = record {
    in_decode_cache =
        or_old-IsFaithful hart.decode_cache machine.decode_cache h.in_decode_cache
          k.in_decode_cache;
    in_instruction_cache =
        or_old-AreLines hart.instruction_cache machine.instruction_cache h.in_instruction_cache
          k.in_instruction_cache;
  }

module _ {B : Type 0} (ops : CpuBus B) where
  execute-IsProgress :
      (hart : Hart B) (space : AddressSpace) (frontend : FrontendResult)
      → IsSoundHart hart
      → frontend.pc ≡ hart.state.pc
      → IsLine frontend.instruction frontend.decoded
      → IsProgress hart.state (execute ops hart space frontend)
  unfolding execute
  execute-IsProgress hart space frontend h same line =
      act_on-IsProgress _ frontend _ _ _
        (record {
          in_decode_cache = h.in_decode_cache;
          in_instruction_cache = h.in_instruction_cache;
        })
        (rw
          (
            same,
            dispatch-run_unit ops (is_reference hart.execution_mode) hart.state frontend.decoded
                hart.state.pc frontend.instruction (register_value hart.state frontend.decoded.rs1)
                (register_value hart.state frontend.decoded.rs2) hart.bus space
                (valid_kind frontend.decoded line.accepted) line.same_raw,
          )
          (run_unit_accepted ops hart.state frontend.decoded frontend.instruction _ _ line
            (execution_unit frontend.decoded.kind) hart.bus space refl))

  after_fetch-IsProgress :
      (hart : Hart B) (space : AddressSpace) (frontend : FrontendResult) (status : FrontendStatus)
      → IsSoundHart hart
      → frontend.status ≡ status
      → IsFetched hart.state.pc frontend
      → IsProgress hart.state (after_fetch ops hart space frontend status)
  unfolding after_fetch
  after_fetch-IsProgress hart space frontend FrontendStatus.ready h e f = elim f.ready_line [
    | inl refused ↦ absurd (refused e)
    | inr line ↦ execute-IsProgress hart space frontend h f.same_pc line
  ]
  after_fetch-IsProgress hart space frontend FrontendStatus.illegal_instruction h e f =
      trap-IsProgress hart frontend _ _ _ h
  after_fetch-IsProgress hart space frontend FrontendStatus.instruction_access_fault h e f =
      trap-IsProgress hart frontend _ _ _ h
  after_fetch-IsProgress hart space frontend FrontendStatus.instruction_page_fault h e f =
      trap-IsProgress hart frontend _ _ _ h
  after_fetch-IsProgress hart space frontend FrontendStatus.instruction_address_misaligned h e f =
      trap-IsProgress hart frontend _ _ _ h

  run_instruction-IsProgress :
      (hart : Hart B) → IsSoundHart hart → IsProgress hart.state (run_instruction ops hart)
  unfolding run_instruction machine_of fetched
  run_instruction-IsProgress hart h =
      let f =
        fetch_decode-IsSound ops (machine_of hart) hart.state.pc
          (machine_in-IsSound hart.execution_mode hart h) in
      after_fetch-IsProgress _ _ (fetch_decode ops (machine_of hart) hart.state.pc).1 _
        (fetched-IsSoundHart hart _ h f.0) refl f.1

  step_awake-IsProgress :
      (hart : Hart B) → IsSoundHart hart → IsProgress hart.state (step_awake ops hart)
  unfolding step_awake step_result Outcome
  step_awake-IsProgress hart h =
      let entered = take_interrupt_trap_enters hart.state _ _ in
      elim (Bool-cases (select_pending_interrupt hart.state).pending) [
        | inl e ↦ rw e (
          record {
            in_decode_cache = h.in_decode_cache;
            in_instruction_cache = h.in_instruction_cache;
          },
          inr (inl (refl, refl, entered.0, entered.1, entered.2)),
        )
        | inr e ↦ rw e (run_instruction-IsProgress hart h)
      ]

  -- From any CPU state, in either mode and on any bus, where every entry of the decode cache is invalid
  -- or holds the decoding of its key, and every line of the instruction cache is unwritten or a valid
  -- instruction: both are so after a step; and the step reports that it waits, and the core waits after
  -- it; or that it trapped, and the core has entered a privileged mode, does not wait, has retired and
  -- committed nothing; or that it retired an instruction, with a valid commit whose next PC is the PC
  -- after it, and the core does not wait.
  pub step-IsProgress :
      (hart : Hart B) (irq_lines : IrqLines)
      → IsSoundHart hart
      → IsProgress hart.state (step ops hart irq_lines)
  unfolding step sampled sample_interrupt_lines step_result Outcome
  step-IsProgress hart irq_lines h =
      let ready : Hart B = sampled hart irq_lines in
      elim (Bool-cases (is_waiting ready.state && not (interrupt_wake_requested ready.state))) [
        | inl e ↦ rw e (
          record {
            in_decode_cache = h.in_decode_cache;
            in_instruction_cache = h.in_instruction_cache;
          },
          inl (refl, waits ready e),
        )
        | inr e ↦ rw e (
            step_awake-IsProgress _ (record {
              in_decode_cache = h.in_decode_cache;
              in_instruction_cache = h.in_instruction_cache;
            }))
      ]

-- The other operations of the core keep the caches sound.
module _ {B : Type 0} (hart : Hart B) (h : IsSoundHart hart) where
  pub reset-IsSoundHart :
      (reset_pc hart_id boot_argument : ℕ) (privilege : PrivilegeMode)
      → IsSoundHart (reset hart reset_pc hart_id boot_argument privilege)
  unfolding reset
  reset-IsSoundHart reset_pc hart_id boot_argument privilege = record {
    in_decode_cache = clear_decoded-IsFaithful;
    in_instruction_cache = clear-AreLines hart.instruction_cache h.in_instruction_cache;
  }
