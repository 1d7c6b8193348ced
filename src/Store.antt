-- ===== src/Store.antt =====
-- store.go: saving records, as far as the check of unique fields goes.
pub mod Unique
