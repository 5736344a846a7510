-- ===== src/Rv32/Execute/ControlFlow.antt =====
-- core32/src/execute.cpp, `execute_control_flow`: AUIPC, jumps and branches.
use risc_v_cpu_emulator.Prelude.{ℕ, bit_and, Bool, true, false, not, ltb, ◌==◌, if◌then◌else◌}
use risc_v_cpu_emulator.Words.{add32, not32, has_bits}
use risc_v_cpu_emulator.Rv32.Types.{
  InstructionKind as Kind, DecodedInstruction, ExecuteStatus, PendingCommit,
}
use risc_v_cpu_emulator.Rv32.Execute.Signed.{less_signed}
use risc_v_cpu_emulator.Rv32.Execute.Integer.{not_ready, ready_commit}

pub data ControlFlowStatus : Type 0 where
  ready not_control_flow_instruction instruction_address_misaligned : ControlFlowStatus

pub record ControlFlowResult : Type 0 where
  pub status : ControlFlowStatus
  pub pending : PendingCommit
  pub trap_value : ℕ

-- The closures of `execute_control_flow`, and its switch.
module _ (decoded : DecodedInstruction) (pc : ℕ) where
  unfoldable pub refuse : ControlFlowStatus → ℕ → ControlFlowResult
  refuse status trap_value = record {
    status = status;
    pending = not_ready ExecuteStatus.unsupported_instruction pc decoded.raw;
    trap_value = trap_value;
  }

  unfoldable pub continue_at : ℕ → Bool → ℕ → ControlFlowResult
  continue_at next_pc write_register register_value = record {
    status = ControlFlowStatus.ready;
    pending =
        ready_commit pc decoded.raw next_pc
          (record { enabled = write_register; index = decoded.rd; value = register_value });
    trap_value = 0;
  }

  unfoldable pub finish_target : ℕ → Bool → ℕ → ControlFlowResult
  finish_target target write_register register_value =
      if has_bits target 1
      then refuse ControlFlowStatus.instruction_address_misaligned target
      else continue_at target write_register register_value

  -- A branch on its condition.
  unfoldable pub branch_on : Bool → ControlFlowResult
  branch_on taken =
      if taken
      then finish_target (add32 pc decoded.immediate) false 0
      else continue_at (add32 pc decoded.length) false 0

  unfoldable pub control_flow_kind : Kind → ℕ → ℕ → ControlFlowResult
  control_flow_kind Kind.auipc a b =
      continue_at (add32 pc decoded.length) true (add32 pc decoded.immediate)
  control_flow_kind Kind.jal a b =
      finish_target (add32 pc decoded.immediate) true (add32 pc decoded.length)
  control_flow_kind Kind.jalr a b =
      finish_target (bit_and (add32 a decoded.immediate) (not32 1)) true (add32 pc decoded.length)
  control_flow_kind Kind.beq a b = branch_on (a == b)
  control_flow_kind Kind.bne a b = branch_on (not (a == b))
  control_flow_kind Kind.blt a b = branch_on (less_signed a b)
  control_flow_kind Kind.bge a b = branch_on (not (less_signed a b))
  control_flow_kind Kind.bltu a b = branch_on (ltb a b)
  control_flow_kind Kind.bgeu a b = branch_on (not (ltb a b))
  control_flow_kind _ a b = refuse ControlFlowStatus.not_control_flow_instruction 0

unfoldable pub execute_control_flow : DecodedInstruction → ℕ → ℕ → ℕ → ControlFlowResult
execute_control_flow decoded pc rs1_value rs2_value =
    control_flow_kind decoded pc decoded.kind rs1_value rs2_value
