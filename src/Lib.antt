-- ===== src/Lib.antt =====
-- A RISC-V emulator with a 32-bit core (core32), a 64-bit core (core64), devices, and platforms that
-- wire them to a bus. This library models core32, an RV32IMAC core with machine, supervisor and user
-- mode, Sv32 translation and caches, over an abstract bus.
--
-- The parts and how they meet. The front end fetches one or two halfwords through the MMU, or takes a
-- line from its cache, and decodes them into a `DecodedInstruction`; the execution unit for its kind
-- computes a `PendingCommit` without touching the CPU state, loads, stores and atomics through the MMU
-- and the bus;
-- `commit_pending` checks it and makes it architectural, through the CSR file where it writes a CSR.
-- Between instructions an interrupt is selected, and exceptions and interrupts enter a trap handler;
-- MRET and SRET leave it by a `PendingCommit` too.
--
-- The files. Where a child module of a part is not named, it holds proofs.
--   Prelude: the names shared by all; integers over the native numbers (Prelude/Int), lists as arrays
--     (Prelude/Lists), Boolean tests (Prelude/Tests).
--   Words: `uint32_t` as native numbers, each wrap-around written out; Words/Bits,
--     Words/Fields and Words/Masks: binary digits of words and of masks.
--   Rv32/Types: core32/include/rv32/core/types.hpp, and the data of decode.hpp and execute.hpp.
--   Rv32/Decode: core32/src/decode.cpp. Fields has the helpers, Standard `decode_instruction`, with
--     one function for each part of its switch, Compressed `decode_compressed_instruction`, one for
--     each quadrant. Assembly is the manual's encoding, independent of the decoder.
--   Rv32/Execute: core32/src/execute.cpp. Signed has the signed helpers, Integer `execute_decoded`,
--     ControlFlow `execute_control_flow`. Arithmetic and Targets say independently what they compute.
--   Rv32/Csr: core32/src/csr.cpp and csr.hpp. Address and Bits are the constants, Access who may use
--     which address and the legal values, File `CsrFile` (and `pending_interrupts` of interrupt.cpp).
--   Rv32/Trap: core32/src/trap.cpp. Entry has `take_trap` and `take_interrupt_trap`, Privileged
--     `execute_privileged`.
--   Rv32/Interrupt: core32/src/interrupt.cpp.
--   Rv32/Commit: `execute_csr` and `commit_pending` of core32/src/execute.cpp. Instructions has the
--     operands that `Core::step` of core32/src/core.cpp reads.
--   Common/Bus: common/include/rv/common/bus.hpp, with `CpuBus` as a record of operations.
--   Rv32/Mmu: core32/src/mmu.cpp. Walk has the permissions and `walk_address`, Tlb `Sv32Tlb`, Space
--     the choice between no translation, a walk and the TLB. Tables is the independent reading of the
--     page tables, Hits says when a TLB entry agrees with them.
--   Rv32/Execute/Memory and Atomic: `execute_memory` and `execute_atomic` of core32/src/execute.cpp.
--   Rv32/Frontend: core32/src/frontend.cpp. DecodeCache, InstructionCache and Fetch (`fetch_decode`).
--   Rv32/Core: core32/src/core.cpp. Dispatch has the execution units that `Core::step` tries, Hart the
--     members of `Core` and its other operations, Step `Core::step`. Dispatch/Reference is one unit
--     alone, for comparison; Step/Reachable has the sequences of operations.
--   Rv32/Examples: the theorems at concrete states and instructions.
--
-- Choices. A word is a native number, and the theorems state where it has to be below 2 ^ 32. The
-- register file is a list; a write out of range changes nothing, and `commit_pending` rejects it
-- first. State is passed explicitly. The mode has the constructor `reserved` for the value 2, which a
-- cast in the source can yield. The bus is a record of operations over a bus state that they return
-- beside their answer, so that its faults, and whatever a device does at a read, are arguments of the
-- theorems; the `time` CSR is read from it. The arrays of the TLB and of the caches are functions of the
-- index; the indices that the code forms are in range. The 64-bit epochs and generations wrap. The
-- loops are structural: the two levels of a walk, the four ways of a TLB set, the six interrupt
-- priorities; so there is no fuel.
--
-- Not modelled: performance counters, and the accessors that only read or count; core64, the devices,
-- the system bus that implements `CpuBus`, and the platforms. The application is input and output of
-- the host.
pub mod Prelude
pub mod Words
pub mod Common
pub mod Rv32
