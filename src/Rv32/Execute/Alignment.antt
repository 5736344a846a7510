-- ===== src/Rv32/Execute/Alignment.antt =====
-- core32/src/execute.cpp: the parity of the addresses at which `execute_control_flow` continues.
use risc_v_cpu_emulator.Prelude.{
  ℕ, ◌%◌, ◌≡◌, refl, bit_and, arith, Bool, true, false, ◌⊎◌, inl, inr,
}
use risc_v_cpu_emulator.Words.{add32, not32}
use risc_v_cpu_emulator.Words.Bits.{bit_and-bit_of, bit_of-zero}
use risc_v_cpu_emulator.Words.Fields.{bit_and-two_pow}
use risc_v_cpu_emulator.Rv32.Types.{InstructionKind as Kind, DecodedInstruction}
use risc_v_cpu_emulator.Rv32.Execute.Integer.{ready_commit, not_ready}
use risc_v_cpu_emulator.Rv32.Execute.ControlFlow.{
  ControlFlowStatus, ControlFlowResult, refuse, continue_at, finish_target, branch_on,
  control_flow_kind, execute_control_flow,
}

bit_and-one : (x : ℕ) → bit_and x 1 ≡ x % 2
bit_and-one x = omega (arith, bit_and-two_pow 0 x, bit_of-zero x)

cleared_even : (x : ℕ) → bit_and x 0xFFFFFFFE % 2 ≡ 0
cleared_even x = omega (
  arith,
  bit_of-zero (bit_and x 0xFFFFFFFE),
  bit_of-zero 0xFFFFFFFE,
  bit_and-bit_of x 0xFFFFFFFE 0,
)

-- A ready result continues at an even address; a refused one carries no next PC but the old one,
-- and reports the target where that is what is odd.
abbrev pub IsAligned : ℕ → ControlFlowResult → Type 0
IsAligned pc result =
    ((result.status ≡ ControlFlowStatus.ready) × (result.pending.next_pc % 2 ≡ 0))
    ⊎ ((result.status ≡ ControlFlowStatus.instruction_address_misaligned)
        × (result.trap_value % 2 ≡ 1)
        × (result.pending.next_pc ≡ pc))
    ⊎ ((result.status ≡ ControlFlowStatus.not_control_flow_instruction)
        × (result.pending.next_pc ≡ pc))

module _ (decoded : DecodedInstruction) (pc : ℕ) where
  finish_target-IsAligned :
      (target : ℕ) (write : Bool) (value : ℕ)
      → IsAligned pc (finish_target decoded pc target write value)
  unfolding finish_target refuse continue_at ready_commit not_ready
  finish_target-IsAligned target write value = ground (arith, bit_and-one target)

  refuse-IsAligned :
      IsAligned pc (refuse decoded pc ControlFlowStatus.not_control_flow_instruction 0)
  unfolding refuse not_ready
  refuse-IsAligned = inr (inr (refl, refl))

  module _ (even_pc : pc % 2 ≡ 0) (even_length : decoded.length % 2 ≡ 0) where
    following-IsAligned :
        (write : Bool) (value : ℕ)
        → IsAligned pc (continue_at decoded pc (add32 pc decoded.length) write value)
    unfolding continue_at ready_commit
    following-IsAligned write value = inl (refl, omega arith)

    branch_on-IsAligned : (taken : Bool) → IsAligned pc (branch_on decoded pc taken)
    unfolding branch_on
    branch_on-IsAligned true = finish_target-IsAligned _ _ _
    branch_on-IsAligned false = following-IsAligned _ _

    control_flow_kind-IsAligned :
        (kind : Kind) (a b : ℕ) → IsAligned pc (control_flow_kind decoded pc kind a b)
    unfolding control_flow_kind
    control_flow_kind-IsAligned Kind.auipc a b = following-IsAligned _ _
    control_flow_kind-IsAligned Kind.jal a b = finish_target-IsAligned _ _ _
    control_flow_kind-IsAligned Kind.jalr a b = finish_target-IsAligned _ _ _
    control_flow_kind-IsAligned Kind.beq a b = branch_on-IsAligned _
    control_flow_kind-IsAligned Kind.bne a b = branch_on-IsAligned _
    control_flow_kind-IsAligned Kind.blt a b = branch_on-IsAligned _
    control_flow_kind-IsAligned Kind.bge a b = branch_on-IsAligned _
    control_flow_kind-IsAligned Kind.bltu a b = branch_on-IsAligned _
    control_flow_kind-IsAligned Kind.bgeu a b = branch_on-IsAligned _
    control_flow_kind-IsAligned _ a b = refuse-IsAligned

-- From an even PC and an instruction of an even length, `execute_control_flow` is either ready with
-- an even next PC, or reports an odd target as misaligned and leaves the PC, or is no control-flow
-- instruction and leaves the PC.
pub execute_control_flow-IsAligned :
    (decoded : DecodedInstruction) (pc a b : ℕ)
    → pc % 2 ≡ 0
    → decoded.length % 2 ≡ 0
    → IsAligned pc (execute_control_flow decoded pc a b)
unfolding execute_control_flow
execute_control_flow-IsAligned decoded pc a b p q =
    control_flow_kind-IsAligned decoded pc p q decoded.kind a b

-- JALR clears the lowest bit of its target, so it is never refused.
jalr_ready :
    (decoded : DecodedInstruction) (pc a b : ℕ)
    → decoded.kind ≡ Kind.jalr
    → (execute_control_flow decoded pc a b).status ≡ ControlFlowStatus.ready
unfolding execute_control_flow control_flow_kind finish_target continue_at
jalr_ready decoded pc a b h =
    let target : ℕ = bit_and (add32 a decoded.immediate) (not32 1) in
    ground (arith, bit_and-one target, cleared_even (add32 a decoded.immediate))
