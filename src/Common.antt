-- ===== src/Common.antt =====
-- The parts of the folder common.
pub mod Pref
pub mod RollBuf
pub mod Timer
