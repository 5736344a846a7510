-- ===== src/Rv32/Core/Step/Invariant.antt =====
-- core32/src/core.cpp: the shape of the CPU state, and the parts of a step.
use risc_v_cpu_emulator.Prelude.{
  ℕ, ◌≡◌, refl, ◌∙◌, arith, true, false, not, ◌&&◌, inl, inr, Bool-cases, List, length, get_or, set,
  length-set, get_or-set_self,
}
use risc_v_cpu_emulator.Common.Bus.{CpuBus}
use risc_v_cpu_emulator.Rv32.Types.{CpuSnapshot, IrqLines, PendingCommit}
use risc_v_cpu_emulator.Rv32.Csr.Invariant.{IsLegal}
use risc_v_cpu_emulator.Rv32.Trap.Privileged.{valid_privilege}
use risc_v_cpu_emulator.Rv32.Trap.Entry.{
  TrapRequest, TrapTarget, InterruptTrapRequest, take_trap, delegated, take_machine_trap,
  take_supervisor_trap, enter_machine, enter_supervisor, take_interrupt_trap,
}
use risc_v_cpu_emulator.Rv32.Trap.Preservation.{enter_machine-IsLegal, enter_supervisor-IsLegal}
use risc_v_cpu_emulator.Rv32.Interrupt.{
  sample_interrupt_lines, select_pending_interrupt, interrupt_wake_requested,
}
use risc_v_cpu_emulator.Rv32.Mmu.Space.{AddressSpace}
use risc_v_cpu_emulator.Rv32.Frontend.Fetch.{FrontendStatus, FrontendResult}
use risc_v_cpu_emulator.Rv32.Commit.{commit_pending, commit_registers, commit_csr, rejects}
use risc_v_cpu_emulator.Rv32.Commit.Preservation.{
  IsKept, commit_csr-IsKept, commit_csr-IsLegal, clear_mprv-IsKept, clear_mprv-IsLegal,
  accepted_mode,
}
use risc_v_cpu_emulator.Rv32.Core.Dispatch.{Verdict, raises, yields}
use risc_v_cpu_emulator.Rv32.Core.Hart.{fetched, Hart, is_waiting}
use risc_v_cpu_emulator.Rv32.Core.Step.Soundness.{fence_caches_state}
use risc_v_cpu_emulator.Rv32.Core.Step.{
  trap, retire, act_on, sampled, execute, after_fetch, run_instruction, step_awake, step,
}

-- Thirty-two registers with x0 zero, a mode that exists, and legal CSR values.
pub record IsArchitectural (state : CpuSnapshot) : Type 0 where
  pub register_count : length state.registers ≡ 32
  pub zero_register : get_or state.registers 0 0 ≡ 0
  pub mode_exists : valid_privilege state.privilege ≡ true
  pub legal : IsLegal state

cleared_zero : (registers : List ℕ) → length registers ≡ 32 → get_or (set registers 0 0) 0 0 ≡ 0
cleared_zero registers count = get_or-set_self registers 0 0 0 (omega (arith, count))

kept-IsArchitectural :
    (state new : CpuSnapshot)
    → IsArchitectural state
    → IsKept state new
    → IsLegal new
    → IsArchitectural new
kept-IsArchitectural state new h (registers, privilege, pc) legal = record {
  register_count = rw registers h.register_count;
  zero_register = rw registers h.zero_register;
  mode_exists = rw privilege h.mode_exists;
  legal = legal;
}

commit_registers-IsArchitectural :
    (state : CpuSnapshot) (pending : PendingCommit)
    → IsArchitectural state
    → rejects state pending true ≡ false
    → IsArchitectural (commit_registers state pending)
unfolding commit_registers
commit_registers-IsArchitectural state pending h e =
    let index : ℕ = pending.register_write.index in
    let value : ℕ = pending.register_write.value in
    record {
      register_count =
          length-set _ 0 0
          ∙ ground (arith, h.register_count, length-set state.registers index value);
      zero_register =
          cleared_zero _ (ground (arith, h.register_count, length-set state.registers index value));
      mode_exists = ground (arith, h.mode_exists, accepted_mode state pending true e);
      legal = record { in_machine = h.legal.in_machine; in_supervisor = h.legal.in_supervisor };
    }

commit_pending-IsArchitectural :
    (state : CpuSnapshot) (pending : PendingCommit)
    → IsArchitectural state
    → IsArchitectural (commit_pending state pending true).0
unfolding commit_pending
commit_pending-IsArchitectural state pending h = elim (Bool-cases (rejects state pending true)) [
  | inl e ↦ rw e h
  | inr e ↦
      let written : CpuSnapshot = commit_registers state pending in
      let first : IsArchitectural written = commit_registers-IsArchitectural state pending h e in
      let csr : CpuSnapshot = commit_csr written pending in
      let second : IsArchitectural csr =
        kept-IsArchitectural written csr first (commit_csr-IsKept written pending)
          (commit_csr-IsLegal written pending first.legal) in
      rw e (
        kept-IsArchitectural csr _ second (clear_mprv-IsKept csr pending)
          (clear_mprv-IsLegal csr pending second.legal))
]

module _ (state : CpuSnapshot) (h : IsArchitectural state) where
  enter_machine-IsArchitectural :
      (pc cause value vector : ℕ) → IsArchitectural (enter_machine state pc cause value vector)
  unfolding enter_machine valid_privilege
  enter_machine-IsArchitectural pc cause value vector = record {
    register_count = length-set state.registers 0 0 ∙ h.register_count;
    zero_register = cleared_zero state.registers h.register_count;
    mode_exists = refl;
    legal = enter_machine-IsLegal state h.legal pc cause value vector;
  }

  enter_supervisor-IsArchitectural :
      (pc cause value vector : ℕ) → IsArchitectural (enter_supervisor state pc cause value vector)
  unfolding enter_supervisor valid_privilege
  enter_supervisor-IsArchitectural pc cause value vector = record {
    register_count = length-set state.registers 0 0 ∙ h.register_count;
    zero_register = cleared_zero state.registers h.register_count;
    mode_exists = refl;
    legal = enter_supervisor-IsLegal state h.legal pc cause value vector;
  }

  take_trap-IsArchitectural : (request : TrapRequest) → IsArchitectural (take_trap state request).0
  unfolding take_trap take_machine_trap take_supervisor_trap
  take_trap-IsArchitectural request = elim (Bool-cases (delegated state request.cause)) [
    | inl e ↦ rw e (enter_supervisor-IsArchitectural _ _ _ _)
    | inr e ↦ rw e (enter_machine-IsArchitectural _ _ _ _)
  ]

  take_interrupt_trap-IsArchitectural :
      (request : InterruptTrapRequest) (target : TrapTarget)
      → IsArchitectural (take_interrupt_trap state request target)
  unfolding take_interrupt_trap
  take_interrupt_trap-IsArchitectural request TrapTarget.supervisor =
      enter_supervisor-IsArchitectural _ _ _ _
  take_interrupt_trap-IsArchitectural request TrapTarget.machine =
      enter_machine-IsArchitectural _ _ _ _

module _ {B : Type 0} where
  act_on-IsArchitectural :
      (hart : Hart B) (frontend : FrontendResult) (a b : ℕ) (verdict : Verdict)
      → IsArchitectural hart.state
      → IsArchitectural (act_on hart frontend a b verdict).0.state
  unfolding act_on trap retire
  act_on-IsArchitectural hart frontend a b (raises cause value fault) h =
      take_trap-IsArchitectural hart.state h _
  act_on-IsArchitectural hart frontend a b (yields pending) h =
      let kept = commit_pending-IsArchitectural hart.state pending h in
      elim (Bool-cases (commit_pending hart.state pending true).1) [
        | inl e ↦ rw (e, fence_caches_state _ frontend.decoded a b) kept
        | inr e ↦ rw e kept
      ]

  sampled-IsArchitectural :
      (hart : Hart B) (irq_lines : IrqLines)
      → IsArchitectural hart.state
      → IsArchitectural (sampled hart irq_lines).state
  unfolding sampled sample_interrupt_lines
  sampled-IsArchitectural hart irq_lines h = record {
    register_count = length-set hart.state.registers 0 0 ∙ h.register_count;
    zero_register = cleared_zero hart.state.registers h.register_count;
    mode_exists = h.mode_exists;
    legal = record {
      in_machine = record {
        in_mstatus = h.legal.in_machine.in_mstatus;
        in_medeleg = h.legal.in_machine.in_medeleg;
        in_mideleg = h.legal.in_machine.in_mideleg;
        in_mie = h.legal.in_machine.in_mie;
        in_mip = h.legal.in_machine.in_mip;
        in_mcounteren = h.legal.in_machine.in_mcounteren;
        in_mtvec = h.legal.in_machine.in_mtvec;
        in_mepc = h.legal.in_machine.in_mepc;
      };
      in_supervisor = h.legal.in_supervisor;
    };
  }

module _ {B : Type 0} (ops : CpuBus B) where
  after_fetch-IsArchitectural :
      (hart : Hart B) (space : AddressSpace) (frontend : FrontendResult) (status : FrontendStatus)
      → IsArchitectural hart.state
      → IsArchitectural (after_fetch ops hart space frontend status).0.state
  unfolding after_fetch execute trap
  after_fetch-IsArchitectural hart space frontend FrontendStatus.ready h =
      act_on-IsArchitectural _ frontend _ _ _ h
  after_fetch-IsArchitectural hart space frontend FrontendStatus.illegal_instruction h =
      take_trap-IsArchitectural hart.state h _
  after_fetch-IsArchitectural hart space frontend FrontendStatus.instruction_access_fault h =
      take_trap-IsArchitectural hart.state h _
  after_fetch-IsArchitectural hart space frontend FrontendStatus.instruction_page_fault h =
      take_trap-IsArchitectural hart.state h _
  after_fetch-IsArchitectural hart space frontend FrontendStatus.instruction_address_misaligned h =
      take_trap-IsArchitectural hart.state h _

  step_awake-IsArchitectural :
      (hart : Hart B) → IsArchitectural hart.state → IsArchitectural (step_awake ops hart).0.state
  unfolding step_awake run_instruction fetched
  step_awake-IsArchitectural hart h =
      elim (Bool-cases (select_pending_interrupt hart.state).pending) [
        | inl e ↦ rw e (take_interrupt_trap-IsArchitectural hart.state h _ _)
        | inr e ↦ rw e (after_fetch-IsArchitectural _ _ _ _ h)
      ]

  -- On any bus, with any caches, TLB and interrupt lines: where the CPU state has 32 registers with x0
  -- zero, a mode that exists and legal CSR values, it has them after a step, whether that waits, takes
  -- an interrupt, traps or retires an instruction.
  pub step-IsArchitectural :
      (hart : Hart B) (irq_lines : IrqLines)
      → IsArchitectural hart.state
      → IsArchitectural (step ops hart irq_lines).0.state
  unfolding step
  step-IsArchitectural hart irq_lines h =
      let ready : Hart B = sampled hart irq_lines in
      let kept : IsArchitectural ready.state = sampled-IsArchitectural hart irq_lines h in
      elim (Bool-cases (is_waiting ready.state && not (interrupt_wake_requested ready.state))) [
        | inl e ↦ rw e kept
        | inr e ↦ rw e (
            step_awake-IsArchitectural _ (
              kept-IsArchitectural ready.state _ kept (refl, refl, refl)
                (record {
                  in_machine = kept.legal.in_machine;
                  in_supervisor = kept.legal.in_supervisor;
                })))
      ]
