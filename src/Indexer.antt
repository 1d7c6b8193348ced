-- ===== src/Indexer.antt =====
-- bleve_batch.go and bleve_index.go: the work on the external index. The search engine itself is not
-- part of the repository.
pub mod Batch
pub mod Coordinator
pub mod Outbox
pub mod Tables
