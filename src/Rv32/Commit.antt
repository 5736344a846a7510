-- ===== src/Rv32/Commit.antt =====
-- core32/src/execute.cpp: `execute_csr`, and `commit_pending`, which makes a result architectural.
pub mod Preservation
pub mod Permission
pub mod Instructions
use risc_v_cpu_emulator.Prelude.{
  ℕ, ◌+◌, ◌^◌, ◌%◌, bit_and, bit_or, Bool, true, false, not, ◌&&◌, ◌||◌, leb, ◌==◌, if◌then◌else◌,
  set,
}
use risc_v_cpu_emulator.Words.{add32, not32}
use risc_v_cpu_emulator.Rv32.Types.{
  PrivilegeMode, CpuSnapshot, InstructionKind as Kind, DecodedInstruction, ExecuteStatus,
  PendingCommit,
}
use risc_v_cpu_emulator.Rv32.Csr.Bits.{status_mprv}
use risc_v_cpu_emulator.Rv32.Csr.Access.{CsrAccessStatus, is_machine}
use risc_v_cpu_emulator.Rv32.Csr.File.{
  read, validate_write, write_validated, read_for_write, with_machine,
}
use risc_v_cpu_emulator.Rv32.Trap.Privileged.{valid_privilege}
use risc_v_cpu_emulator.Rv32.Execute.Integer.{not_ready, ready_commit}

pub data CsrExecutionStatus : Type 0 where
  ready not_csr_instruction illegal_instruction : CsrExecutionStatus

pub record CsrExecutionResult : Type 0 where
  pub status : CsrExecutionStatus
  pub pending : PendingCommit
  pub access_status : CsrAccessStatus
  pub trap_value : ℕ

-- What the first switch sets: whether to read, whether to write, the source value, and how the
-- second group of tests combines it with the old value.
pub data Modification : Type 0 where
  replace set_bits clear_bits : Modification

pub record CsrPlan : Type 0 where
  pub read_required : Bool
  pub write_required : Bool
  pub source_value : ℕ
  pub modification : Modification

pub data Planned : Type 0 where
  not_csr : Planned
  planned : CsrPlan → Planned

unfoldable pub csr_plan : Kind → DecodedInstruction → ℕ → Planned
csr_plan Kind.csrrw decoded rs1_value = planned (record {
  read_required = not (decoded.rd == 0);
  write_required = true;
  source_value = rs1_value;
  modification = replace;
})
csr_plan Kind.csrrs decoded rs1_value = planned (record {
  read_required = true;
  write_required = not (decoded.rs1 == 0);
  source_value = rs1_value;
  modification = set_bits;
})
csr_plan Kind.csrrc decoded rs1_value = planned (record {
  read_required = true;
  write_required = not (decoded.rs1 == 0);
  source_value = rs1_value;
  modification = clear_bits;
})
csr_plan Kind.csrrwi decoded rs1_value = planned (record {
  read_required = not (decoded.rd == 0);
  write_required = true;
  source_value = decoded.immediate;
  modification = replace;
})
csr_plan Kind.csrrsi decoded rs1_value = planned (record {
  read_required = true;
  write_required = not (decoded.immediate == 0);
  source_value = decoded.immediate;
  modification = set_bits;
})
csr_plan Kind.csrrci decoded rs1_value = planned (record {
  read_required = true;
  write_required = not (decoded.immediate == 0);
  source_value = decoded.immediate;
  modification = clear_bits;
})
csr_plan _ decoded rs1_value = not_csr

unfoldable pub modify : Modification → ℕ → ℕ → ℕ
modify replace base source = source
modify set_bits base source = bit_or base source
modify clear_bits base source = bit_and base (not32 source)

abbrev is_ready : CsrAccessStatus → Bool
is_ready CsrAccessStatus.ready = true
is_ready _ = false

module _ (state : CpuSnapshot) (time : ℕ) (decoded : DecodedInstruction) (privilege : PrivilegeMode)
    (pc : ℕ) where
  unfoldable pub csr_refuse : CsrExecutionStatus → CsrAccessStatus → ℕ → CsrExecutionResult
  csr_refuse status access_status trap_value = record {
    status = status;
    pending = not_ready ExecuteStatus.unsupported_instruction pc decoded.raw;
    access_status = access_status;
    trap_value = trap_value;
  }

  abbrev csr_illegal : CsrAccessStatus → CsrExecutionResult
  csr_illegal access_status =
      csr_refuse CsrExecutionStatus.illegal_instruction access_status decoded.raw

  -- The end of `execute_csr`, with the old value that was read, or 0.
  unfoldable pub csr_finish : CsrPlan → ℕ → CsrExecutionResult
  csr_finish plan old_value =
      let base =
        if plan.write_required then read_for_write state decoded.csr old_value else old_value in
      record {
        status = CsrExecutionStatus.ready;
        pending =
            record (ready_commit pc decoded.raw (add32 pc decoded.length)
              (record { enabled = not (decoded.rd == 0); index = decoded.rd; value = old_value })) {
                csr_write = record {
                  enabled = plan.write_required;
                  address = decoded.csr;
                  value = modify plan.modification base plan.source_value;
                };
              };
        access_status = CsrAccessStatus.ready;
        trap_value = 0;
      }

  unfoldable pub csr_run : Planned → CsrExecutionResult
  csr_run not_csr = csr_refuse CsrExecutionStatus.not_csr_instruction CsrAccessStatus.ready 0
  csr_run (planned plan) =
      let validation = validate_write state decoded.csr privilege in
      let result = read state time decoded.csr privilege in
      if plan.write_required && not (is_ready validation)
      then csr_illegal validation
      else if plan.read_required
      then (if is_ready result.status
          then csr_finish plan result.value
          else csr_illegal result.status)
      else csr_finish plan 0

unfoldable pub execute_csr :
    CpuSnapshot → ℕ → DecodedInstruction → PrivilegeMode → ℕ → ℕ → CsrExecutionResult
execute_csr state time decoded privilege pc rs1_value =
    csr_run state time decoded privilege pc (csr_plan decoded.kind decoded rs1_value)

-- The rejections of `commit_pending`; `csr_access` says whether the pointer is not null.
unfoldable pub is_execute_ready : ExecuteStatus → Bool
is_execute_ready ExecuteStatus.ready = true
is_execute_ready _ = false

unfoldable pub rejects : CpuSnapshot → PendingCommit → Bool → Bool
rejects state pending csr_access =
    not (is_execute_ready pending.status)
    || not (pending.pc == state.pc)
    || pending.register_write.enabled && leb 32 pending.register_write.index
    || pending.privilege_write.enabled && not (valid_privilege pending.privilege_write.value)
    || pending.csr_write.enabled
      && (not csr_access
          || not (is_ready (validate_write state pending.csr_write.address state.privilege)))

-- The registers after the write, with x0 cleared.
unfoldable pub commit_registers : CpuSnapshot → PendingCommit → CpuSnapshot
commit_registers state pending =
    let written =
      if pending.register_write.enabled && not (pending.register_write.index == 0)
      then set state.registers pending.register_write.index pending.register_write.value
      else state.registers in
    record state {
      registers = set written 0 0;
      privilege =
          (if pending.privilege_write.enabled
            then pending.privilege_write.value
            else state.privilege);
      pc = pending.next_pc;
      instructions_retired = (state.instructions_retired + 1) % 2 ^ 64;
      waiting_for_interrupt = pending.wait_for_interrupt;
    }

-- The CSR write, after the rest of the instruction.
unfoldable pub commit_csr : CpuSnapshot → PendingCommit → CpuSnapshot
commit_csr state pending =
    if pending.csr_write.enabled
    then write_validated state pending.csr_write.address pending.csr_write.value
    else state

unfoldable pub clear_mprv : CpuSnapshot → PendingCommit → CpuSnapshot
clear_mprv state pending =
    if pending.privilege_write.enabled && not (is_machine pending.privilege_write.value)
    then with_machine state (record state.machine_csrs {
      mstatus = bit_and state.machine_csrs.mstatus (not32 status_mprv);
    })
    else state

unfoldable pub commit_pending : CpuSnapshot → PendingCommit → Bool → CpuSnapshot × Bool
commit_pending state pending csr_access =
    if rejects state pending csr_access
    then (state, false)
    else (clear_mprv (commit_csr (commit_registers state pending) pending) pending, true)
