-- ===== src/Common.antt =====
-- common/: the bus that cores and devices share.
pub mod Bus
