-- ===== src/Correction.antt =====
-- The correction channel: src/correction.
pub mod Patch
