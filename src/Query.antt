-- ===== src/Query.antt =====
-- query.go and sink.go: running a query over a bucket.
pub mod Order
pub mod Sink
pub mod Sorter
