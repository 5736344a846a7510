-- ===== src/Rv32/Examples.antt =====
-- A reset state and sample instructions, at which the children apply the theorems of the core.
mod Decoding
mod Execution
mod Commits
mod Traps
mod Buses
mod Translation
mod Caches
mod Steps
use risc_v_cpu_emulator.Prelude.{◌≡◌, refl, arith, true, false, replicate, inl}
use risc_v_cpu_emulator.Words.Bits.{bit_of}
use risc_v_cpu_emulator.Rv32.Types.{PrivilegeMode, CpuSnapshot}
use risc_v_cpu_emulator.Rv32.Decode.Standard.{decode_instruction}
use risc_v_cpu_emulator.Rv32.Decode.Compressed.{decode_compressed_instruction}
use risc_v_cpu_emulator.Rv32.Decode.Ranges.{IsDecoded}
use risc_v_cpu_emulator.Rv32.Decode.StandardRanges.{decode_instruction-IsDecoded}
use risc_v_cpu_emulator.Rv32.Decode.CompressedRanges.{decode_compressed_instruction-IsDecoded}
use risc_v_cpu_emulator.Rv32.Csr.Access.{sanitize_mstatus}
use risc_v_cpu_emulator.Rv32.Trap.Privileged.{valid_privilege}
use risc_v_cpu_emulator.Rv32.Commit.Preservation.{IsWellFormed}

-- The state at reset, but in a given mode and with machine interrupts enabled and pending.
abbrev state_in : PrivilegeMode → CpuSnapshot
state_in mode = record {
  registers = replicate 32 0;
  pc = 0x80000000;
  hart_id = 0;
  privilege = mode;
  machine_csrs = record {
    mstatus = 0x8;
    medeleg = 0;
    mideleg = 0x222;
    mie = 0xAAA;
    mip_software = 0x2;
    mip_lines = 0x80;
    mcounteren = 0;
    mtvec = 0x80000100;
    mscratch = 0;
    mepc = 0;
    mcause = 0;
    mtval = 0;
  };
  supervisor_csrs = record {
    scounteren = 0;
    stvec = 0;
    sscratch = 0;
    sepc = 0;
    scause = 0;
    stval = 0;
    satp = 0;
  };
  cycle = 0;
  instructions_retired = 0;
  waiting_for_interrupt = false;
}

state_in-IsWellFormed :
    (mode : PrivilegeMode) → valid_privilege mode ≡ true → IsWellFormed (state_in mode)
unfolding bit_of sanitize_mstatus
state_in-IsWellFormed mode exists = record {
  cpu = record {
    register_count = refl;
    register_words = omega arith;
    zero_register = refl;
    mode_exists = exists;
  };
  word_pc = omega arith;
  legal = record {
    in_machine = record {
      in_mstatus = refl;
      in_medeleg = refl;
      in_mideleg = refl;
      in_mie = refl;
      in_mip = refl;
      in_mcounteren = refl;
      in_mtvec = refl;
      in_mepc = refl;
    };
    in_supervisor = record {
      in_scounteren = refl;
      in_stvec = refl;
      in_sepc = refl;
      in_satp = inl refl;
    };
  };
}

machine_state : IsWellFormed (state_in PrivilegeMode.machine)
unfolding valid_privilege
machine_state = state_in-IsWellFormed PrivilegeMode.machine refl

user_state : IsWellFormed (state_in PrivilegeMode.user)
unfolding valid_privilege
user_state = state_in-IsWellFormed PrivilegeMode.user refl

-- What the decoders make of `addi x1, x0, 5` and of `c.jr x1`.
add-IsDecoded : IsDecoded 0x00500093 4 (decode_instruction 0x00500093)
add-IsDecoded = decode_instruction-IsDecoded 0x00500093 (omega arith)

return-IsDecoded : IsDecoded 0x8082 2 (decode_compressed_instruction 0x8082)
return-IsDecoded = decode_compressed_instruction-IsDecoded 0x8082 (omega arith)
