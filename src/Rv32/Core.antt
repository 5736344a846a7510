-- ===== src/Rv32/Core.antt =====
-- core32/src/core.cpp: `Core`, one step of the hart.
pub mod Dispatch
pub mod Hart
pub mod Step
