-- ===== src/Rv32/Core/Dispatch/Modes.antt =====
-- core32/src/core.cpp: the search of the reference mode, and the unit that the fast mode picks.
use risc_v_cpu_emulator.Prelude.{
  ℕ, ◌≡◌, ◌≢◌, refl, sym, ap, ◌∙◌, arith, Bool, true, false, ◌||◌, ◌==◌,
}
use risc_v_cpu_emulator.Words.{add32}
use risc_v_cpu_emulator.Common.Bus.{CpuBus}
use risc_v_cpu_emulator.Rv32.Types.{CpuSnapshot, InstructionKind as Kind, DecodedInstruction}
use risc_v_cpu_emulator.Rv32.Csr.Access.{sanitize_mstatus}
use risc_v_cpu_emulator.Rv32.Trap.Privileged.{execute_privileged}
use risc_v_cpu_emulator.Rv32.Execute.Integer.{not_ready, execute_decoded}
use risc_v_cpu_emulator.Rv32.Execute.ControlFlow.{execute_control_flow}
use risc_v_cpu_emulator.Rv32.Mmu.Space.{AddressSpace}
use risc_v_cpu_emulator.Rv32.Execute.Memory.{execute_memory, memory_plan}
use risc_v_cpu_emulator.Rv32.Execute.Atomic.{execute_atomic, atomic_plan}
use risc_v_cpu_emulator.Rv32.Commit.{execute_csr, csr_plan, is_execute_ready}
use risc_v_cpu_emulator.Rv32.Core.Dispatch.{
  ExecutionUnit, integer, privileged, control_flow, atomic, csr, memory, execution_unit,
  unit_number, yields, Progress, integer_verdict, run_integer, run_privileged, run_control_flow,
  run_atomic_unit, run_csr_unit, run_memory_unit, dispatch,
}
use risc_v_cpu_emulator.Rv32.Core.Dispatch.Units.{
  is_done, number_of, integer_refuses, integer_completes, privileged_completes,
  control_flow_completes,
}
use risc_v_cpu_emulator.Rv32.Core.Dispatch.Completions.{
  atomic_planned, csr_planned, atomic_completes, csr_completes, memory_completes,
}
use risc_v_cpu_emulator.Rv32.Core.Dispatch.Reference.{not_yet, run_unit}
use risc_v_cpu_emulator.Rv32.Core.Dispatch.Stages.{
  stage_done, stage_runs, privileged_passes, control_flow_passes, atomic_passes, csr_passes,
}

module _ {B : Type 0} (ops : CpuBus B) (reference : Bool) (state : CpuSnapshot)
    (decoded : DecodedInstruction) (pc instruction a b : ℕ) where
  -- The stages after a unit, on a result that ends the search.
  memory_done :
      (p : Progress B)
      → is_done p.verdict ≡ true
      → run_memory_unit ops reference state decoded pc instruction a b p ≡ p
  unfolding run_memory_unit
  memory_done p h = stage_done _ _ p p.verdict h

  csr_done :
      (p : Progress B)
      → is_done p.verdict ≡ true
      → run_memory_unit ops reference state decoded pc instruction a b
          (run_csr_unit ops reference state decoded pc instruction a b p)
        ≡ p
  unfolding run_csr_unit
  csr_done p h =
      rw (stage_done (reference || number_of decoded.kind == 4) _ p p.verdict h) (memory_done p h)

  abbrev start : B → AddressSpace → Progress B
  start bus space = record { bus = bus; space = space; verdict = yields (not_yet decoded pc) }

  integer_starts :
      (bus : B) (space : AddressSpace)
      → number_of decoded.kind ≢ 0
      → decoded.raw ≡ instruction
      → run_integer ops reference state decoded pc instruction a b bus space ≡ start bus space
  unfolding run_integer execute_decoded integer_verdict not_ready
  integer_starts bus space h same =
      ground (arith, same, integer_refuses decoded state pc decoded.kind decoded.immediate a b h)

  -- From an ended search, the stages behind each unit.
  atomic_done :
      (p : Progress B)
      → is_done p.verdict ≡ true
      → run_memory_unit ops reference state decoded pc instruction a b (
          run_csr_unit ops reference state decoded pc instruction a b
            (run_atomic_unit ops reference state decoded pc instruction a b p))
        ≡ p
  unfolding run_atomic_unit
  atomic_done p h =
      rw (stage_done (reference || number_of decoded.kind == 3) _ p p.verdict h) (csr_done p h)

  control_flow_done :
      (p : Progress B)
      → is_done p.verdict ≡ true
      → run_memory_unit ops reference state decoded pc instruction a b (
          run_csr_unit ops reference state decoded pc instruction a b (
            run_atomic_unit ops reference state decoded pc instruction a b
              (run_control_flow ops reference state decoded pc instruction a b p)))
        ≡ p
  unfolding run_control_flow
  control_flow_done p h =
      rw (stage_done (reference || number_of decoded.kind == 2) _ p p.verdict h) (atomic_done p h)

  privileged_done :
      (p : Progress B)
      → is_done p.verdict ≡ true
      → run_memory_unit ops reference state decoded pc instruction a b (
          run_csr_unit ops reference state decoded pc instruction a b (
            run_atomic_unit ops reference state decoded pc instruction a b (
              run_control_flow ops reference state decoded pc instruction a b
                (run_privileged ops reference state decoded pc instruction a b p))))
        ≡ p
  unfolding run_privileged
  privileged_done p h =
      rw (stage_done (reference || number_of decoded.kind == 1) _ p p.verdict h)
        (control_flow_done p h)

  integer_runs :
      (bus : B) (space : AddressSpace)
      → number_of decoded.kind ≡ 0
      → run_integer ops reference state decoded pc instruction a b bus space
        ≡ run_unit ops state decoded pc instruction a b integer bus space
  unfolding run_integer run_unit
  integer_runs bus space h = ground (arith, h)

  privileged_runs :
      (bus : B) (space : AddressSpace)
      → number_of decoded.kind ≡ 1
      → run_privileged ops reference state decoded pc instruction a b (start bus space)
        ≡ run_unit ops state decoded pc instruction a b privileged bus space
  unfolding run_privileged not_ready is_execute_ready run_unit
  privileged_runs bus space h =
      stage_runs (reference || number_of decoded.kind == 1) _ (start bus space) (not_yet decoded pc)
        refl (ground (arith, h))

  control_flow_runs :
      (bus : B) (space : AddressSpace)
      → number_of decoded.kind ≡ 2
      → run_control_flow ops reference state decoded pc instruction a b (start bus space)
        ≡ run_unit ops state decoded pc instruction a b control_flow bus space
  unfolding run_control_flow not_ready is_execute_ready run_unit
  control_flow_runs bus space h =
      stage_runs (reference || number_of decoded.kind == 2) _ (start bus space) (not_yet decoded pc)
        refl (ground (arith, h))

  atomic_runs :
      (bus : B) (space : AddressSpace)
      → number_of decoded.kind ≡ 3
      → run_atomic_unit ops reference state decoded pc instruction a b (start bus space)
        ≡ run_unit ops state decoded pc instruction a b atomic bus space
  unfolding run_atomic_unit not_ready is_execute_ready run_unit
  atomic_runs bus space h =
      stage_runs (reference || number_of decoded.kind == 3) _ (start bus space) (not_yet decoded pc)
        refl (ground (arith, h))

  csr_runs :
      (bus : B) (space : AddressSpace)
      → number_of decoded.kind ≡ 4
      → run_csr_unit ops reference state decoded pc instruction a b (start bus space)
        ≡ run_unit ops state decoded pc instruction a b csr bus space
  unfolding run_csr_unit not_ready is_execute_ready run_unit
  csr_runs bus space h =
      stage_runs (reference || number_of decoded.kind == 4) _ (start bus space) (not_yet decoded pc)
        refl (ground (arith, h))

  memory_runs :
      (bus : B) (space : AddressSpace)
      → number_of decoded.kind ≡ 5
      → run_memory_unit ops reference state decoded pc instruction a b (start bus space)
        ≡ run_unit ops state decoded pc instruction a b memory bus space
  unfolding run_memory_unit not_ready is_execute_ready run_unit
  memory_runs bus space h =
      stage_runs (reference || number_of decoded.kind == 5) _ (start bus space) (not_yet decoded pc)
        refl (ground (arith, h))

  -- A unit completes the kinds that are its own.
  pub run_unit_done :
      (unit : ExecutionUnit) (bus : B) (space : AddressSpace)
      → execution_unit decoded.kind ≡ unit
      → decoded.kind ≢ Kind.illegal
      → is_done (run_unit ops state decoded pc instruction a b unit bus space).verdict ≡ true
  unfolding run_unit execute_decoded execute_privileged execute_control_flow execute_atomic
      execute_csr execute_memory
  run_unit_done integer bus space e valid =
      integer_completes decoded state pc decoded.kind decoded.immediate a b (ap unit_number e) valid
  run_unit_done privileged bus space e valid =
      privileged_completes decoded state pc decoded.kind
        (sanitize_mstatus state.machine_csrs.mstatus) (not_yet decoded pc) (ap unit_number e)
  run_unit_done control_flow bus space e valid =
      control_flow_completes decoded state pc decoded.kind a b (not_yet decoded pc)
        (ap unit_number e)
  run_unit_done atomic bus space e valid =
      atomic_completes ops decoded pc state.hart_id a b (not_yet decoded pc) space bus
        (atomic_plan decoded.kind) (atomic_planned decoded.kind (ap unit_number e))
  run_unit_done csr bus space e valid =
      csr_completes state (ops.read_time bus) decoded state.privilege pc (not_yet decoded pc)
        (csr_plan decoded.kind decoded a) (csr_planned decoded.kind decoded a (ap unit_number e))
  run_unit_done memory bus space e valid =
      memory_completes ops decoded pc (add32 a decoded.immediate) instruction space bus
        (memory_plan decoded.kind) b

  dispatch_on :
      (unit : ExecutionUnit) (bus : B) (space : AddressSpace)
      → execution_unit decoded.kind ≡ unit
      → decoded.kind ≢ Kind.illegal
      → decoded.raw ≡ instruction
      → dispatch ops reference state decoded pc instruction a b bus space
        ≡ run_unit ops state decoded pc instruction a b unit bus space
  unfolding dispatch
  dispatch_on integer bus space e valid same =
      rw (integer_runs bus space (ap unit_number e))
        (privileged_done _ (run_unit_done integer bus space e valid))
  dispatch_on privileged bus space e valid same =
      let n : number_of decoded.kind ≡ 1 = ap unit_number e in
      rw (integer_starts bus space (omega (arith, n)) same, privileged_runs bus space n)
        (control_flow_done _ (run_unit_done privileged bus space e valid))
  dispatch_on control_flow bus space e valid same =
      let n : number_of decoded.kind ≡ 2 = ap unit_number e in
      rw
        (
          integer_starts bus space (omega (arith, n)) same,
          privileged_passes ops reference state decoded pc instruction a b (start bus space)
              (omega (arith, n)),
          control_flow_runs bus space n,
        )
        (atomic_done _ (run_unit_done control_flow bus space e valid))
  dispatch_on atomic bus space e valid same =
      let n : number_of decoded.kind ≡ 3 = ap unit_number e in
      rw
        (
          integer_starts bus space (omega (arith, n)) same,
          privileged_passes ops reference state decoded pc instruction a b (start bus space)
              (omega (arith, n)),
          control_flow_passes ops reference state decoded pc instruction a b (start bus space)
              (omega (arith, n)),
          atomic_runs bus space n,
        )
        (csr_done _ (run_unit_done atomic bus space e valid))
  dispatch_on csr bus space e valid same =
      let n : number_of decoded.kind ≡ 4 = ap unit_number e in
      rw
        (
          integer_starts bus space (omega (arith, n)) same,
          privileged_passes ops reference state decoded pc instruction a b (start bus space)
              (omega (arith, n)),
          control_flow_passes ops reference state decoded pc instruction a b (start bus space)
              (omega (arith, n)),
          atomic_passes ops reference state decoded pc instruction a b (start bus space)
              (omega (arith, n)),
          csr_runs bus space n,
        )
        (memory_done _ (run_unit_done csr bus space e valid))
  dispatch_on memory bus space e valid same =
      let n : number_of decoded.kind ≡ 5 = ap unit_number e in
      rw
        (
          integer_starts bus space (omega (arith, n)) same,
          privileged_passes ops reference state decoded pc instruction a b (start bus space)
              (omega (arith, n)),
          control_flow_passes ops reference state decoded pc instruction a b (start bus space)
              (omega (arith, n)),
          atomic_passes ops reference state decoded pc instruction a b (start bus space)
              (omega (arith, n)),
          csr_passes ops reference state decoded pc instruction a b (start bus space)
              (omega (arith, n)),
        )
        (memory_runs bus space n)

  -- In either mode the search for an execution unit gives, for a valid instruction, exactly the run of
  -- the one unit that its kind belongs to.
  pub dispatch-run_unit :
      (bus : B) (space : AddressSpace)
      → decoded.kind ≢ Kind.illegal
      → decoded.raw ≡ instruction
      → dispatch ops reference state decoded pc instruction a b bus space
        ≡ run_unit ops state decoded pc instruction a b (execution_unit decoded.kind) bus space
  dispatch-run_unit bus space valid same =
      dispatch_on (execution_unit decoded.kind) bus space refl valid same

-- Reference mode, which tries every unit in turn, and fast mode, which tries one, execute a valid
-- instruction alike: the same bus, address space and trap or result.
pub dispatch_modes_agree :
    {B : Type 0} (ops : CpuBus B) (state : CpuSnapshot) (decoded : DecodedInstruction)
    (pc instruction a b : ℕ) (bus : B) (space : AddressSpace)
    → decoded.kind ≢ Kind.illegal
    → decoded.raw ≡ instruction
    → dispatch ops true state decoded pc instruction a b bus space
      ≡ dispatch ops false state decoded pc instruction a b bus space
dispatch_modes_agree ops state decoded pc instruction a b bus space valid same =
    dispatch-run_unit ops true state decoded pc instruction a b bus space valid same
    ∙ sym (dispatch-run_unit ops false state decoded pc instruction a b bus space valid same)
