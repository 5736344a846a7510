-- ===== src/Rv32/Trap/Preservation.antt =====
-- core32/src/trap.cpp: the entry to a trap, and the invariant of the CPU state.
use risc_v_cpu_emulator.Prelude.{ℕ, ◌<◌, ◌^◌, refl, arith, Bool, true, false, Bool-cases, inl, inr}
use risc_v_cpu_emulator.Words.{not32}
use risc_v_cpu_emulator.Words.Bits.{bit_and-le}
use risc_v_cpu_emulator.Rv32.Types.{CpuSnapshot}
use risc_v_cpu_emulator.Rv32.Trap.Status.{enter_machine_status_fixed, enter_supervisor_status_fixed}
use risc_v_cpu_emulator.Rv32.Csr.Invariant.{IsLegal, even_cleared}
use risc_v_cpu_emulator.Rv32.Commit.Preservation.{IsWellFormed, cleared-IsCpu}
use risc_v_cpu_emulator.Rv32.Trap.Privileged.{valid_privilege}
use risc_v_cpu_emulator.Rv32.Trap.Entry.{
  exception_value, interrupt_value, TrapRequest, TrapTarget, InterruptTrapRequest, take_trap,
  delegated, take_machine_trap, take_supervisor_trap, enter_machine, enter_supervisor,
  trap_vector_address, take_interrupt_trap,
}

trap_vector_address-lt :
    (trap_vector cause : ℕ) (interrupt : Bool)
    → trap_vector_address trap_vector interrupt cause < 2 ^ 32
unfolding trap_vector_address
trap_vector_address-lt trap_vector cause interrupt =
    ground (arith, bit_and-le trap_vector (not32 3))

-- Trap entry keeps the CSR values legal.
module _ (state : CpuSnapshot) (h : IsLegal state) (pc cause value vector : ℕ) where
  pub enter_machine-IsLegal : IsLegal (enter_machine state pc cause value vector)
  unfolding enter_machine
  enter_machine-IsLegal = record {
    in_machine = ground (
      arith,
      h.in_machine,
      even_cleared pc,
      enter_machine_status_fixed state.machine_csrs.mstatus state.privilege,
    );
    in_supervisor = h.in_supervisor;
  }

  pub enter_supervisor-IsLegal : IsLegal (enter_supervisor state pc cause value vector)
  unfolding enter_supervisor
  enter_supervisor-IsLegal = record {
    in_machine = ground (
      arith,
      h.in_machine,
      enter_supervisor_status_fixed state.machine_csrs.mstatus state.privilege,
    );
    in_supervisor = ground (arith, h.in_supervisor, even_cleared pc);
  }

module _ (state : CpuSnapshot) (h : IsWellFormed state) (pc cause value vector : ℕ)
    (word : vector < 2 ^ 32) where
  enter_machine-IsWellFormed : IsWellFormed (enter_machine state pc cause value vector)
  unfolding enter_machine valid_privilege
  enter_machine-IsWellFormed = record {
    cpu = cleared-IsCpu _ _ h.cpu.register_count h.cpu.register_words refl;
    word_pc = word;
    legal = enter_machine-IsLegal state h.legal pc cause value vector;
  }

  enter_supervisor-IsWellFormed : IsWellFormed (enter_supervisor state pc cause value vector)
  unfolding enter_supervisor valid_privilege
  enter_supervisor-IsWellFormed = record {
    cpu = cleared-IsCpu _ _ h.cpu.register_count h.cpu.register_words refl;
    word_pc = word;
    legal = enter_supervisor-IsLegal state h.legal pc cause value vector;
  }

-- `take_trap` keeps the CPU state well-formed, delegated or not.
pub take_trap-IsWellFormed :
    (state : CpuSnapshot) (request : TrapRequest)
    → IsWellFormed state
    → IsWellFormed (take_trap state request).0
unfolding take_trap take_machine_trap take_supervisor_trap
take_trap-IsWellFormed state request h = elim (Bool-cases (delegated state request.cause)) [
  | inl e ↦ rw e (
      enter_supervisor-IsWellFormed state h _ _ _ _
        (trap_vector_address-lt state.supervisor_csrs.stvec (exception_value request.cause) false))
  | inr e ↦ rw e (
      enter_machine-IsWellFormed state h _ _ _ _
        (trap_vector_address-lt state.machine_csrs.mtvec (exception_value request.cause) false))
]

-- `take_interrupt_trap` keeps the CPU state well-formed, for either target mode.
pub take_interrupt_trap-IsWellFormed :
    (state : CpuSnapshot) (request : InterruptTrapRequest) (target : TrapTarget)
    → IsWellFormed state
    → IsWellFormed (take_interrupt_trap state request target)
unfolding take_interrupt_trap
take_interrupt_trap-IsWellFormed state request TrapTarget.supervisor h =
    enter_supervisor-IsWellFormed state h _ _ _ _
      (trap_vector_address-lt state.supervisor_csrs.stvec (interrupt_value request.cause) true)
take_interrupt_trap-IsWellFormed state request TrapTarget.machine h =
    enter_machine-IsWellFormed state h _ _ _ _
      (trap_vector_address-lt state.machine_csrs.mtvec (interrupt_value request.cause) true)
