-- ===== src/DbProvider.antt =====
-- The folder dbprovider.
pub mod Sqlite
