-- ===== src/Rv32/Execute.antt =====
-- core32/src/execute.cpp: the execution units.
pub mod Signed
pub mod Integer
pub mod ControlFlow
pub mod Multiply
pub mod Divide
pub mod Results
pub mod Shifts
pub mod Alignment
pub mod Targets
pub mod Arithmetic
pub mod Memory
pub mod MemoryResults
pub mod MemoryAlignment
pub mod Atomic
