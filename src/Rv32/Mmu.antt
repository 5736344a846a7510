-- ===== src/Rv32/Mmu.antt =====
-- core32/src/mmu.cpp: Sv32 translation and its TLB.
pub mod Walk
pub mod Tlb
pub mod Space
pub mod Tables
pub mod Hits
pub mod Coherence
pub mod Fences
