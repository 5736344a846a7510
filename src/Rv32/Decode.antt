-- ===== src/Rv32/Decode.antt =====
-- core32/src/decode.cpp: instruction words and compressed parcels to decoded instructions.
pub mod Fields
pub mod Standard
pub mod Compressed
pub mod Extraction
pub mod Assembly
pub mod Immediates
pub mod Formats
pub mod Coding
pub mod Integer
pub mod Extensions
pub mod RoundTrip
pub mod Ranges
pub mod StandardRanges
pub mod CompressedRanges
pub mod Lengths
