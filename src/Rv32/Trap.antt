-- ===== src/Rv32/Trap.antt =====
-- core32/src/trap.cpp: trap entry, delegation, and the privileged instructions.
pub mod Entry
pub mod Privileged
pub mod Status
pub mod Returns
pub mod SupervisorStatus
pub mod SupervisorReturns
pub mod Preservation
