-- ===== src/Rv32.antt =====
-- core32/: the RV32IMAC core.
pub mod Types
pub mod Decode
pub mod Execute
pub mod Csr
pub mod Trap
pub mod Interrupt
pub mod Commit
pub mod Mmu
pub mod Frontend
pub mod Core
mod Examples
