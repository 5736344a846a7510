-- ===== src/Rv32/Examples/Commits.antt =====
-- The theorems on CSRs and the commit at the reset state.
use risc_v_cpu_emulator.Prelude.{◌≡◌, ◌≤◌, refl, arith, true, false}
use risc_v_cpu_emulator.Words.Bits.{bit_of}
use risc_v_cpu_emulator.Rv32.Types.{
  PrivilegeMode, privilege_value, InstructionKind as Kind, DecodedInstruction, PendingCommit,
}
use risc_v_cpu_emulator.Rv32.Decode.Fields.{make_compressed, make_decoded, get_bits, extract_fields}
use risc_v_cpu_emulator.Rv32.Decode.Standard.{
  decode_instruction, decode_opcode, decode_op_imm, make_i,
}
use risc_v_cpu_emulator.Rv32.Decode.Compressed.{
  decode_compressed_instruction, decode_quadrant2, decode_register_jump,
}
use risc_v_cpu_emulator.Rv32.Execute.Integer.{
  execute_kind, integer_value, execute_decoded, ready_commit,
}
use risc_v_cpu_emulator.Rv32.Execute.ControlFlow.{
  control_flow_kind, finish_target, continue_at, execute_control_flow,
}
use risc_v_cpu_emulator.Rv32.Execute.Results.{IsWordCommit}
use risc_v_cpu_emulator.Rv32.Csr.Address
use risc_v_cpu_emulator.Rv32.Csr.Access.{
  csr_privilege_allows, is_zicntr_address, is_machine_identity_address, is_writable_machine_address,
  csr_is_read_only, csr_minimum_privilege, satp_access_trapped, sanitize_mstatus,
}
use risc_v_cpu_emulator.Rv32.Csr.File.{
  read, readable, read_switch, read_machine, validate_write, write_validated,
}
use risc_v_cpu_emulator.Rv32.Csr.Legal.{sanitize_mstatus_digits}
use risc_v_cpu_emulator.Rv32.Csr.Frames.{Stored}
use risc_v_cpu_emulator.Rv32.Csr.ReadBack.{stored, read-write_validated}
use risc_v_cpu_emulator.Rv32.Csr.Invariant.{IsLegal, write_validated-IsLegal}
use risc_v_cpu_emulator.Rv32.Commit.Instructions.{
  run_integer, run_control_flow, execute_decoded_committed, execute_control_flow_committed,
}
use risc_v_cpu_emulator.Rv32.Commit.{commit_pending, execute_csr, csr_plan, csr_run, csr_finish}
use risc_v_cpu_emulator.Rv32.Commit.Preservation.{IsWellFormed, commit_pending-IsWellFormed}
use risc_v_cpu_emulator.Rv32.Commit.Permission.{
  validate_write_lem, write_sstatus_isolated, execute_csr_accepted,
}
use risc_v_cpu_emulator.Rv32.Examples.{state_in, machine_state, add-IsDecoded, return-IsDecoded}

-- A result that writes x1, from the reset state.
abbrev write_one : PendingCommit
write_one =
    ready_commit 0x80000000 0x00500093 0x80000004 (record { enabled = true; index = 1; value = 5 })

write_one-IsWordCommit : IsWordCommit write_one
unfolding ready_commit
write_one-IsWordCommit = record {
  in_index = omega arith;
  in_value = omega arith;
  in_next_pc = omega arith;
}

write_one-IsWellFormed :
    IsWellFormed (commit_pending (state_in PrivilegeMode.machine) write_one true).0
write_one-IsWellFormed =
    commit_pending-IsWellFormed (state_in PrivilegeMode.machine) write_one true machine_state
      write_one-IsWordCommit

-- The saved mode 2 of 0x1008 is dropped.
reserved_mode_dropped : bit_of (sanitize_mstatus 0x1008) 12 ≡ 0
unfolding bit_of
reserved_mode_dropped = sanitize_mstatus_digits 0x1008 12

mepc_read_back :
    read
      (write_validated (state_in PrivilegeMode.machine) 0x341 0x80000003)
      0
      0x341
      PrivilegeMode.machine
    ≡ readable 0x80000002
unfolding stored
mepc_read_back =
    read-write_validated (state_in PrivilegeMode.machine) 0 0x341 0x80000003 Stored.mepc
      (omega arith)

write_satp-IsLegal :
    IsLegal (write_validated (state_in PrivilegeMode.machine) Address.satp 0x80080000)
write_satp-IsLegal =
    write_validated-IsLegal (state_in PrivilegeMode.machine) machine_state.legal Address.satp
      0x80080000

write_sstatus-keeps_mie :
    bit_of
      (write_validated
        (state_in PrivilegeMode.machine)
        Address.sstatus
        0xFFFFFFFF).machine_csrs.mstatus
      3
    ≡ bit_of 0x8 3
unfolding bit_of sanitize_mstatus
write_sstatus-keeps_mie =
    write_sstatus_isolated (state_in PrivilegeMode.machine) 0xFFFFFFFF 3 refl refl (omega arith)

write_mscratch_allowed :
    (csr_is_read_only Address.mscratch ≡ false)
    × (csr_minimum_privilege Address.mscratch ≤ privilege_value PrivilegeMode.machine)
    × (satp_access_trapped (state_in PrivilegeMode.machine) Address.mscratch PrivilegeMode.machine
        ≡ false)
unfolding validate_write csr_privilege_allows csr_minimum_privilege satp_access_trapped
    is_zicntr_address is_machine_identity_address is_writable_machine_address
write_mscratch_allowed =
    validate_write_lem (state_in PrivilegeMode.machine) Address.mscratch PrivilegeMode.machine refl

-- `csrrw x1, mscratch, x2`.
abbrev swap_mscratch : DecodedInstruction
swap_mscratch = record (make_decoded 0x340110F3 Kind.csrrw 1 2 0 0) { csr = 0x340 }

swap_mscratch_accepted :
    (commit_pending
      (state_in PrivilegeMode.machine)
      (execute_csr
        (state_in PrivilegeMode.machine)
        0
        swap_mscratch
        PrivilegeMode.machine
        0x80000000
        7).pending
      true).1
    ≡ true
unfolding make_decoded execute_csr csr_plan csr_run csr_finish validate_write csr_privilege_allows
    csr_minimum_privilege satp_access_trapped is_zicntr_address is_machine_identity_address
    is_writable_machine_address read read_switch read_machine
swap_mscratch_accepted =
    execute_csr_accepted (state_in PrivilegeMode.machine) 0 7 swap_mscratch (omega arith) refl

add_committed :
    ((commit_pending
        (state_in PrivilegeMode.machine)
        (run_integer (state_in PrivilegeMode.machine) (decode_instruction 0x00500093))
        true).1
      ≡ true)
    × IsWellFormed
        (commit_pending
          (state_in PrivilegeMode.machine)
          (run_integer (state_in PrivilegeMode.machine) (decode_instruction 0x00500093))
          true).0
unfolding decode_instruction extract_fields get_bits decode_opcode decode_op_imm make_i make_decoded
    execute_decoded execute_kind integer_value ready_commit
add_committed =
    execute_decoded_committed (state_in PrivilegeMode.machine) (decode_instruction 0x00500093)
      0x00500093 4 machine_state add-IsDecoded refl

-- `c.jr x1`, a JALR of two bytes.
return_committed :
    ((commit_pending
        (state_in PrivilegeMode.machine)
        (run_control_flow
          (state_in PrivilegeMode.machine)
          (decode_compressed_instruction 0x8082)).pending
        true).1
      ≡ true)
    × IsWellFormed
        (commit_pending
          (state_in PrivilegeMode.machine)
          (run_control_flow
            (state_in PrivilegeMode.machine)
            (decode_compressed_instruction 0x8082)).pending
          true).0
unfolding decode_compressed_instruction decode_quadrant2 decode_register_jump get_bits
    make_compressed make_decoded execute_control_flow control_flow_kind finish_target continue_at
return_committed =
    execute_control_flow_committed (state_in PrivilegeMode.machine)
      (decode_compressed_instruction 0x8082) 0x8082 2 machine_state return-IsDecoded refl
