-- ===== src/Rv32/Csr.antt =====
-- core32/src/csr.cpp and core32/include/rv32/core/csr.hpp: the CSR file over the CPU state.
pub mod Address
pub mod Bits
pub mod Access
pub mod File
pub mod Legal
pub mod Invariant
pub mod Frames
pub mod ReadBack
