-- ===== src/Rv32/Examples/Buses.antt =====
-- A bus over a memory of words, with page tables that map the megapage at 0x400000 to 0x400000.
use risc_v_cpu_emulator.Prelude.{ℕ, ◌==◌, true, false, if◌then◌else◌}
use risc_v_cpu_emulator.Common.Bus.{BusFault, read_ok, read_fault, CpuBus}
use risc_v_cpu_emulator.Rv32.Types.{PrivilegeMode, CpuSnapshot}
use risc_v_cpu_emulator.Rv32.Mmu.Tlb.{Entry, Tlb, empty_entry, update}
use risc_v_cpu_emulator.Rv32.Examples.{state_in}

abbrev pub word_bus : CpuBus (ℕ → ℕ)
word_bus = record {
  read = λ memory address width kind. (memory, read_ok (memory address));
  write = λ memory address width value kind. (update memory address value, BusFault.no_fault);
  load_reserved_word = λ memory hart_id address. (memory, read_ok (memory address));
  store_conditional_word = λ memory hart_id address value.
      (memory, record { fault = BusFault.no_fault; succeeded = false });
  atomic_word = λ memory hart_id address operation operand. (
    update memory address operand,
    record { fault = BusFault.no_fault; original_value = memory address },
  );
  read_time = λ memory. 0;
  instruction_cacheable = λ memory address. true;
}

-- The table at 0x1000 has a leaf at index 1: page number 0x400, and the bits V, R, W, X, A and D.
abbrev pub tables : ℕ → ℕ
tables address = if address == 0x1004 then 0x1000CF else 0

abbrev pub no_tables : ℕ → ℕ
no_tables address = 0

abbrev pub paged_state : CpuSnapshot
paged_state = record (state_in PrivilegeMode.supervisor) {
  supervisor_csrs = record {
    scounteren = 0;
    stvec = 0;
    sscratch = 0;
    sepc = 0;
    scause = 0;
    stval = 0;
    satp = 0x80000001;
  };
}

abbrev pub megapage : Entry
megapage = record {
  valid = true;
  global = false;
  page_shift = 22;
  asid = 0;
  root_ppn = 1;
  virtual_page = 1;
  physical_page = 0x400000;
  pte = 0x1000CF;
}

abbrev pub filled : Tlb
filled = record {
  entries = λ i. if i == 4 then megapage else empty_entry;
  replacement_ways = λ _. 0;
}

-- The same bus, where nothing but the entry at 0x1004 is mapped.
abbrev pub table_bus : CpuBus (ℕ → ℕ)
table_bus = record word_bus {
  read = λ memory address width kind. (
    memory,
    (if address == 0x1004 then read_ok (memory address) else read_fault BusFault.unmapped),
  );
}
