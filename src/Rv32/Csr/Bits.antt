-- ===== src/Rv32/Csr/Bits.antt =====
-- The bit masks: core32/include/rv32/core/csr.hpp (`mstatus_bits` and the supported sets),
-- core32/include/rv32/core/interrupt.hpp (`interrupt_bits`) and core32/include/rv32/core/mmu.hpp
-- (`satp_bits`). A mask that the source joins by `|` is written out.
use risc_v_cpu_emulator.Prelude.{ℕ}

abbrev pub status_sie : ℕ
status_sie = 0x2

abbrev pub status_mie : ℕ
status_mie = 0x8

abbrev pub status_spie : ℕ
status_spie = 0x20

abbrev pub status_mpie : ℕ
status_mpie = 0x80

abbrev pub status_spp : ℕ
status_spp = 0x100

abbrev pub status_mpp : ℕ
status_mpp = 0x1800

abbrev pub status_mprv : ℕ
status_mprv = 0x20000

abbrev pub status_sum : ℕ
status_sum = 0x40000

abbrev pub status_mxr : ℕ
status_mxr = 0x80000

abbrev pub status_tvm : ℕ
status_tvm = 0x100000

abbrev pub status_tw : ℕ
status_tw = 0x200000

abbrev pub status_tsr : ℕ
status_tsr = 0x400000

abbrev pub supervisor_view : ℕ
supervisor_view = 0xC0122

abbrev pub implemented : ℕ
implemented = 0x7E19AA

abbrev pub supported_exception_delegation : ℕ
supported_exception_delegation = 0xB3FF

abbrev pub supported_interrupt_delegation : ℕ
supported_interrupt_delegation = 0x222

abbrev pub supported_counter_enable : ℕ
supported_counter_enable = 0x7

abbrev pub machine_isa_value : ℕ
machine_isa_value = 0x40141105

abbrev pub supervisor_software : ℕ
supervisor_software = 0x2

abbrev pub machine_software : ℕ
machine_software = 0x8

abbrev pub supervisor_timer : ℕ
supervisor_timer = 0x20

abbrev pub machine_timer : ℕ
machine_timer = 0x80

abbrev pub supervisor_external : ℕ
supervisor_external = 0x200

abbrev pub machine_external : ℕ
machine_external = 0x800

abbrev pub supervisor_interrupts : ℕ
supervisor_interrupts = 0x222

abbrev pub supported_interrupts : ℕ
supported_interrupts = 0xAAA

abbrev pub machine_writable_pending : ℕ
machine_writable_pending = 0x222

abbrev pub supervisor_writable_pending : ℕ
supervisor_writable_pending = 0x2

abbrev pub satp_mode : ℕ
satp_mode = 0x80000000

abbrev pub satp_asid_ppn : ℕ
satp_asid_ppn = 0x7FFFFFFF
