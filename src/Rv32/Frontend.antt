-- ===== src/Rv32/Frontend.antt =====
-- core32/src/frontend.cpp: fetching and decoding, with the two caches.
pub mod DecodeCache
pub mod InstructionCache
pub mod Fetch
pub mod Decoding
pub mod Lines
pub mod Epochs
pub mod Soundness
