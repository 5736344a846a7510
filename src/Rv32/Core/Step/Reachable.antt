-- ===== src/Rv32/Core/Step/Reachable.antt =====
-- The states that a core can come to by its operations, and what holds in all of them.
use risc_v_cpu_emulator.Prelude.{ℕ, ◌≡◌, refl, inl, inr, Bool-cases, arith, true}
use risc_v_cpu_emulator.Words.Bits.{bit_of}
use risc_v_cpu_emulator.Common.Bus.{CpuBus}
use risc_v_cpu_emulator.Rv32.Types.{PrivilegeMode, IrqLines}
use risc_v_cpu_emulator.Rv32.Csr.Access.{sanitize_mstatus}
use risc_v_cpu_emulator.Rv32.Trap.Privileged.{valid_privilege}
use risc_v_cpu_emulator.Rv32.Frontend.Decoding.{clear_decoded-IsFaithful}
use risc_v_cpu_emulator.Rv32.Frontend.Lines.{clear-AreLines}
use risc_v_cpu_emulator.Rv32.Core.Hart.{
  Hart, ExecutionMode, is_reference, emptied, construct, reset, reset_state, advance_cycles,
  set_execution_mode,
}
use risc_v_cpu_emulator.Rv32.Core.Step.{step}
use risc_v_cpu_emulator.Rv32.Core.Step.Soundness.{IsSoundHart}
use risc_v_cpu_emulator.Rv32.Core.Step.Liveness.{step-IsProgress, reset-IsSoundHart}
use risc_v_cpu_emulator.Rv32.Core.Step.Invariant.{IsArchitectural, step-IsArchitectural}

-- The public operations of `Core`, in any order, between which devices may change the bus.
pub data IsReachable {B : Type 0} (ops : CpuBus B) : Hart B → Type 0 where
  constructed : (bus : B) → IsReachable ops (construct bus)
  was_reset :
      {hart : Hart B} (reset_pc hart_id boot_argument : ℕ) (mode : PrivilegeMode)
      → valid_privilege mode ≡ true
      → IsReachable ops hart
      → IsReachable ops (reset hart reset_pc hart_id boot_argument mode)
  stepped :
      {hart : Hart B} (irq_lines : IrqLines)
      → IsReachable ops hart
      → IsReachable ops (step ops hart irq_lines).0
  cycles_advanced :
      {hart : Hart B} (cycles : ℕ)
      → IsReachable ops hart
      → IsReachable ops (advance_cycles hart cycles)
  mode_changed :
      {hart : Hart B} (mode : ExecutionMode)
      → IsReachable ops hart
      → IsReachable ops (set_execution_mode hart mode)
  bus_changed :
      {hart : Hart B} (bus : B) → IsReachable ops hart → IsReachable ops (record hart { bus = bus })

reset_state-IsArchitectural :
    (reset_pc hart_id boot_argument : ℕ) (mode : PrivilegeMode)
    → valid_privilege mode ≡ true
    → IsArchitectural (reset_state reset_pc hart_id boot_argument mode)
unfolding reset_state bit_of sanitize_mstatus
reset_state-IsArchitectural reset_pc hart_id boot_argument mode exists = record {
  register_count = refl;
  zero_register = refl;
  mode_exists = exists;
  legal = record {
    in_machine = record {
      in_mstatus = refl;
      in_medeleg = refl;
      in_mideleg = refl;
      in_mie = refl;
      in_mip = refl;
      in_mcounteren = refl;
      in_mtvec = refl;
      in_mepc = refl;
    };
    in_supervisor = record {
      in_scounteren = refl;
      in_stvec = refl;
      in_sepc = refl;
      in_satp = inl refl;
    };
  };
}

-- The invariant: an architectural state, and sound caches.
pub record IsConsistent {B : Type 0} (hart : Hart B) : Type 0 where
  pub in_state : IsArchitectural hart.state
  pub in_caches : IsSoundHart hart

module _ {B : Type 0} where
  reset-IsConsistent :
      (hart : Hart B) (reset_pc hart_id boot_argument : ℕ) (mode : PrivilegeMode)
      → valid_privilege mode ≡ true
      → IsSoundHart hart
      → IsConsistent (reset hart reset_pc hart_id boot_argument mode)
  unfolding reset
  reset-IsConsistent hart reset_pc hart_id boot_argument mode exists h = record {
    in_state = reset_state-IsArchitectural reset_pc hart_id boot_argument mode exists;
    in_caches = reset-IsSoundHart hart h reset_pc hart_id boot_argument mode;
  }

  construct-IsConsistent : (bus : B) → IsConsistent (construct bus)
  unfolding construct valid_privilege
  construct-IsConsistent bus =
      reset-IsConsistent _ 0x80000000 0 0 PrivilegeMode.machine refl (record {
        in_decode_cache = clear_decoded-IsFaithful;
        in_instruction_cache = record { in_generation = omega arith; in_entries = λ i. inl refl };
      })

  emptied-IsConsistent :
      (hart : Hart B) (mode : ExecutionMode)
      → IsConsistent hart
      → IsConsistent (emptied (record hart { execution_mode = mode }))
  emptied-IsConsistent hart mode h = record {
    in_state = h.in_state;
    in_caches = record {
      in_decode_cache = clear_decoded-IsFaithful;
      in_instruction_cache = clear-AreLines hart.instruction_cache h.in_caches.in_instruction_cache;
    };
  }

  advance_cycles-IsConsistent :
      (hart : Hart B) (cycles : ℕ) → IsConsistent hart → IsConsistent (advance_cycles hart cycles)
  unfolding advance_cycles
  advance_cycles-IsConsistent hart cycles h = record {
    in_state = record {
      register_count = h.in_state.register_count;
      zero_register = h.in_state.zero_register;
      mode_exists = h.in_state.mode_exists;
      legal = record {
        in_machine = h.in_state.legal.in_machine;
        in_supervisor = h.in_state.legal.in_supervisor;
      };
    };
    in_caches = record {
      in_decode_cache = h.in_caches.in_decode_cache;
      in_instruction_cache = h.in_caches.in_instruction_cache;
    };
  }

  set_execution_mode-IsConsistent :
      (hart : Hart B) (mode : ExecutionMode)
      → IsConsistent hart
      → IsConsistent (set_execution_mode hart mode)
  unfolding set_execution_mode
  set_execution_mode-IsConsistent hart ExecutionMode.reference h =
      elim (Bool-cases (is_reference hart.execution_mode)) [
        | inl e ↦ rw e (h)
        | inr e ↦ rw e (emptied-IsConsistent hart ExecutionMode.reference h)
      ]
  set_execution_mode-IsConsistent hart ExecutionMode.fast h =
      elim (Bool-cases (is_reference hart.execution_mode)) [
        | inl e ↦ rw e (emptied-IsConsistent hart ExecutionMode.fast h)
        | inr e ↦ rw e (h)
      ]

module _ {B : Type 0} (ops : CpuBus B) where
  -- Whatever operations a core has gone through, on any bus that the devices change in between, each
  -- reset going to a mode that exists: its state has 32 registers with x0 zero, a mode that exists and
  -- legal CSR values, every entry of the decode cache is invalid or holds the decoding of its key, and
  -- every line of the instruction cache is unwritten or a valid instruction.
  pub IsReachable-IsConsistent : {hart : Hart B} → IsReachable ops hart → IsConsistent hart
  IsReachable-IsConsistent (constructed bus) = construct-IsConsistent bus
  IsReachable-IsConsistent (was_reset {hart} reset_pc hart_id boot_argument mode exists r) =
      reset-IsConsistent hart reset_pc hart_id boot_argument mode exists
        (IsReachable-IsConsistent r).in_caches
  IsReachable-IsConsistent (stepped {hart} irq_lines r) =
      let h = IsReachable-IsConsistent r in
      record {
        in_state = step-IsArchitectural ops hart irq_lines h.in_state;
        in_caches = (step-IsProgress ops hart irq_lines h.in_caches).0;
      }
  IsReachable-IsConsistent (cycles_advanced {hart} cycles r) =
      advance_cycles-IsConsistent hart cycles (IsReachable-IsConsistent r)
  IsReachable-IsConsistent (mode_changed {hart} mode r) =
      set_execution_mode-IsConsistent hart mode (IsReachable-IsConsistent r)
  IsReachable-IsConsistent (bus_changed {hart} bus r) =
      let h = IsReachable-IsConsistent r in
      record {
        in_state = h.in_state;
        in_caches = record {
          in_decode_cache = h.in_caches.in_decode_cache;
          in_instruction_cache = h.in_caches.in_instruction_cache;
        };
      }
