-- ===== src/Utils.antt =====
-- The parts of the folder utils.
pub mod HashKey
