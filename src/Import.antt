-- ===== src/Import.antt =====
-- scripts/import-gammu-dedup.py: the import of a gammu inbox into the dedup store.
pub mod Source
pub mod Insert
