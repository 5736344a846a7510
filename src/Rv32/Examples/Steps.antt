-- ===== src/Rv32/Examples/Steps.antt =====
-- The theorems on memory accesses and on a step, from the reset state.
use risc_v_cpu_emulator.Prelude.{ℕ, ◌≡◌, refl, arith, true, ◌==◌, if◌then◌else◌, inl}
use risc_v_cpu_emulator.Words.{add32}
use risc_v_cpu_emulator.Common.Bus.{AccessWidth}
use risc_v_cpu_emulator.Rv32.Types.{PrivilegeMode, InstructionKind as Kind, DecodedInstruction}
use risc_v_cpu_emulator.Rv32.Decode.Fields.{make_decoded}
use risc_v_cpu_emulator.Rv32.Mmu.Tlb
use risc_v_cpu_emulator.Rv32.Mmu.Space.{cached, physical}
use risc_v_cpu_emulator.Rv32.Execute.Memory.{memory_plan, execute_memory}
use risc_v_cpu_emulator.Rv32.Execute.MemoryResults.{IsPrecise, execute_memory-IsPrecise}
use risc_v_cpu_emulator.Rv32.Frontend.DecodeCache.{clear_decoded}
use risc_v_cpu_emulator.Rv32.Frontend.Decoding.{clear_decoded-IsFaithful}
use risc_v_cpu_emulator.Rv32.Frontend.InstructionCache.{cleared_cache}
use risc_v_cpu_emulator.Rv32.Core.Dispatch.{dispatch, execution_unit}
use risc_v_cpu_emulator.Rv32.Core.Dispatch.Reference.{run_unit}
use risc_v_cpu_emulator.Rv32.Core.Dispatch.Modes.{dispatch-run_unit}
use risc_v_cpu_emulator.Rv32.Core.Hart.{
  Hart, ExecutionMode, no_lines, construct, set_execution_mode,
}
use risc_v_cpu_emulator.Rv32.Core.Step.{step}
use risc_v_cpu_emulator.Rv32.Core.Step.Soundness.{IsSoundHart, IsProgress}
use risc_v_cpu_emulator.Rv32.Core.Step.Liveness.{step-IsProgress}
use risc_v_cpu_emulator.Rv32.Core.Step.Invariant.{IsArchitectural, step-IsArchitectural}
use risc_v_cpu_emulator.Rv32.Core.Step.Reachable.{
  IsReachable, constructed, stepped, mode_changed, IsConsistent, IsReachable-IsConsistent,
}
use risc_v_cpu_emulator.Rv32.Examples.{state_in, machine_state}
use risc_v_cpu_emulator.Rv32.Examples.Buses.{word_bus, tables, paged_state, filled}

-- `lw x1, 1(x2)`, `lw x1, 0(x2)` and `addi x1, x0, 5`.
abbrev load_odd : DecodedInstruction
load_odd = make_decoded 0x00112083 Kind.lw 1 2 0 1

abbrev load_even : DecodedInstruction
load_even = make_decoded 0x00012083 Kind.lw 1 2 0 0

abbrev add_five : DecodedInstruction
add_five = make_decoded 0x00500093 Kind.addi 1 0 0 5

load_even-IsPrecise :
    IsPrecise load_even 0x80000000
      (add32 0x400100 0)
      (execute_memory word_bus
        (cached paged_state filled)
        tables
        load_even
        0x80000000
        0x400100
        0).result
unfolding memory_plan make_decoded
load_even-IsPrecise =
    execute_memory-IsPrecise word_bus (cached paged_state filled) tables load_even 0x80000000
      0x400100 0 AccessWidth.word true refl

add_five_dispatched :
    dispatch word_bus true
      (state_in PrivilegeMode.machine)
      add_five
      0x80000000
      0x00500093
      0
      0
      tables
      physical
    ≡ run_unit word_bus
        (state_in PrivilegeMode.machine)
        add_five
        0x80000000
        0x00500093
        0
        0
        (execution_unit Kind.addi)
        tables
        physical
unfolding make_decoded
add_five_dispatched =
    dispatch-run_unit word_bus true (state_in PrivilegeMode.machine) add_five 0x80000000 0x00500093
      0 0 tables physical (λ e. cc) refl

-- The program is `addi x1, x0, 5` at the PC.
abbrev program : ℕ → ℕ
program address =
    if address == 0x80000000 then 0x0093 else if address == 0x80000002 then 0x0050 else 0

abbrev fast_hart : Hart (ℕ → ℕ)
fast_hart = record {
  bus = program;
  state = state_in PrivilegeMode.machine;
  sampled_irq_lines = no_lines;
  tlb = Tlb.clear;
  decode_cache = clear_decoded;
  instruction_cache = cleared_cache 1;
  execution_mode = ExecutionMode.fast;
}

fast_hart-IsSoundHart : IsSoundHart fast_hart
fast_hart-IsSoundHart = record {
  in_decode_cache = clear_decoded-IsFaithful;
  in_instruction_cache = record { in_generation = omega arith; in_entries = λ i. inl refl };
}

fast_hart-IsProgress : IsProgress fast_hart.state (step word_bus fast_hart no_lines)
fast_hart-IsProgress = step-IsProgress word_bus fast_hart no_lines fast_hart-IsSoundHart

fast_hart-IsArchitectural : IsArchitectural (step word_bus fast_hart no_lines).0.state
fast_hart-IsArchitectural = step-IsArchitectural word_bus fast_hart no_lines (record {
  register_count = machine_state.cpu.register_count;
  zero_register = machine_state.cpu.zero_register;
  mode_exists = machine_state.cpu.mode_exists;
  legal = machine_state.legal;
})

-- A core that has executed the instruction and then changed to reference mode.
switched-IsReachable :
    IsReachable word_bus
      (set_execution_mode (step word_bus (construct program) no_lines).0 ExecutionMode.reference)
switched-IsReachable = mode_changed ExecutionMode.reference (stepped no_lines (constructed program))

switched-IsConsistent :
    IsConsistent
      (set_execution_mode (step word_bus (construct program) no_lines).0 ExecutionMode.reference)
switched-IsConsistent = IsReachable-IsConsistent word_bus switched-IsReachable
