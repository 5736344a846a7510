-- ===== src/Rv32/Interrupt.antt =====
-- core32/src/interrupt.cpp: sampling of the lines, and the choice of the interrupt to take.
pub mod Selection
use risc_v_cpu_emulator.Prelude.{
  ℕ, bit_and, bit_or, Bool, true, false, not, ◌&&◌, ◌||◌, ◌==◌, if◌then◌else◌, List, [], ◌∷◌,
}
use risc_v_cpu_emulator.Words.{has_bits}
use risc_v_cpu_emulator.Rv32.Types.{CpuSnapshot, IrqLines}
use risc_v_cpu_emulator.Rv32.Csr.Bits.{
  status_mie, status_sie, supervisor_software, machine_software, supervisor_timer, machine_timer,
  supervisor_external, machine_external, supported_interrupts,
}
use risc_v_cpu_emulator.Rv32.Csr.Access.{is_machine, is_user}
use risc_v_cpu_emulator.Rv32.Csr.File.{pending_interrupts}
use risc_v_cpu_emulator.Rv32.Trap.Entry.{InterruptCause, TrapTarget}

pub record PriorityEntry : Type 0 where
  pub cause : InterruptCause
  pub bit : ℕ

abbrev entry : InterruptCause → ℕ → PriorityEntry
entry cause bit = record { cause = cause; bit = bit }

-- MEI, MSI, MTI, SEI, SSI, STI.
abbrev pub priority_order : List PriorityEntry
priority_order =
    entry InterruptCause.machine_external machine_external
    ∷ entry InterruptCause.machine_software machine_software
    ∷ entry InterruptCause.machine_timer machine_timer
    ∷ entry InterruptCause.supervisor_external supervisor_external
    ∷ entry InterruptCause.supervisor_software supervisor_software
    ∷ entry InterruptCause.supervisor_timer supervisor_timer
    ∷ []

pub record InterruptSelection : Type 0 where
  pub pending : Bool
  pub cause : InterruptCause
  pub target : TrapTarget

unfoldable pub machine_interrupts_globally_enabled : CpuSnapshot → Bool
machine_interrupts_globally_enabled state =
    not (is_machine state.privilege) || has_bits state.machine_csrs.mstatus status_mie

unfoldable pub supervisor_interrupts_globally_enabled : CpuSnapshot → Bool
supervisor_interrupts_globally_enabled state =
    if is_machine state.privilege
    then false
    else is_user state.privilege || has_bits state.machine_csrs.mstatus status_sie

abbrev raise : Bool → ℕ → ℕ → ℕ
raise line bit pending = if line then bit_or pending bit else pending

unfoldable pub sample_interrupt_lines : CpuSnapshot → IrqLines → CpuSnapshot
sample_interrupt_lines state lines =
    let msi = raise lines.machine_software machine_software 0 in
    let mti = raise lines.machine_timer machine_timer msi in
    let mei = raise lines.machine_external machine_external mti in
    let ssi = raise lines.supervisor_software supervisor_software mei in
    let sti = raise lines.supervisor_timer supervisor_timer ssi in
    let sei = raise lines.supervisor_external supervisor_external sti in
    record state {
      machine_csrs = record state.machine_csrs { mip_lines = bit_and sei supported_interrupts };
    }

unfoldable pub interrupt_wake_requested : CpuSnapshot → Bool
interrupt_wake_requested state = has_bits (pending_interrupts state) state.machine_csrs.mie

abbrev pub no_selection : InterruptSelection
no_selection = record {
  pending = false;
  cause = InterruptCause.machine_external;
  target = TrapTarget.machine;
}

-- The loop over the entries: `continue` goes on with the rest.
unfoldable pub select_from : CpuSnapshot → ℕ → List PriorityEntry → InterruptSelection
select_from state enabled [] = no_selection
select_from state enabled (e ∷ rest) =
    let others = select_from state enabled rest in
    if bit_and enabled e.bit == 0
    then others
    else if has_bits state.machine_csrs.mideleg e.bit
    then (if supervisor_interrupts_globally_enabled state
        then record { pending = true; cause = e.cause; target = TrapTarget.supervisor }
        else others)
    else if machine_interrupts_globally_enabled state
    then record { pending = true; cause = e.cause; target = TrapTarget.machine }
    else others

unfoldable pub select_pending_interrupt : CpuSnapshot → InterruptSelection
select_pending_interrupt state =
    select_from state
      (bit_and (bit_and (pending_interrupts state) state.machine_csrs.mie) supported_interrupts)
      priority_order
